-- ===== src/Gateway.antt =====
-- services/api-gateway/src/proxy/proxy.service.ts: the gateway passes a request on to a service by the first segment of
-- its path.
pub mod Types
pub mod Cors
use ceylon_events.Common.{
  ℕ, Bool, true, false, not, ◌&&◌, ◌||◌, Option, none, some, List, [], ◌∷◌, ◌++◌, keep, any, ◌==◌,
  or_else, if◌then◌else◌, Text, codes, same_text, after_prefix, includes, to_lower, to_upper,
}
use Types.{
  Service, identity, restaurant, media, venue, event, order, payment, checkin, food_order, offers,
  ratings, notification, reporting, HeaderValue, one, several, RequestBody, nothing, fields, other,
  Request, UpstreamRequest, UpstreamResponse, ReplyBody, no_route, sent, piped, unavailable, Reply,
}

unfoldable pub stripped_request_headers : List Text
stripped_request_headers = codes "host" ∷ codes "content-length" ∷ codes "connection" ∷ []

unfoldable pub stripped_response_headers : List Text
stripped_response_headers =
    codes "content-length"
    ∷ codes "transfer-encoding"
    ∷ codes "connection"
    ∷ codes "access-control-allow-origin"
    ∷ codes "access-control-allow-credentials"
    ∷ codes "access-control-allow-methods"
    ∷ codes "access-control-allow-headers"
    ∷ codes "access-control-expose-headers"
    ∷ codes "access-control-max-age"
    ∷ []

unfoldable pub routes : List (Text × Service)
routes =
    (codes "auth", identity)
    ∷ (codes "restaurants", restaurant)
    ∷ (codes "menu-items", restaurant)
    ∷ (codes "media", media)
    ∷ (codes "seat-maps", venue)
    ∷ (codes "seat-map-versions", venue)
    ∷ (codes "sections", venue)
    ∷ (codes "tables", venue)
    ∷ (codes "seats", venue)
    ∷ (codes "events", event)
    ∷ (codes "ticket-tiers", event)
    ∷ (codes "orders", order)
    ∷ (codes "promo-codes", order)
    ∷ (codes "payments", payment)
    ∷ (codes "tickets", checkin)
    ∷ (codes "food-pre-orders", food_order)
    ∷ (codes "offers", offers)
    ∷ (codes "ratings", ratings)
    ∷ (codes "notifications", notification)
    ∷ (codes "reports", reporting)
    ∷ []

abbrev pub is_in : List Text → Text → Bool
is_in names name = any (λ n. same_text n name) names

-- `originalUrl.replace(/^\/api/, "") || "/"`
abbrev or_root : Text → Text
or_root [] = b'/' ∷ []
or_root (c ∷ s) = c ∷ s

abbrev pub stripped_path : Text → Text
stripped_path url = elim (after_prefix (codes "/api") url) [
  | some rest ↦ or_root rest
  | none ↦ or_root url
]

abbrev pub segment : Text → Text
segment [] = []
segment (c ∷ s) = let rest = segment s in if c == b'/' || c == b'?' then [] else c ∷ rest

abbrev unless_empty : Text → Option Text
unless_empty [] = none
unless_empty (c ∷ s) = some (c ∷ s)

-- `match(/^\/([^/?]+)/)?.[1]`
abbrev pub first_segment : Text → Option Text
first_segment [] = none
first_segment (c ∷ s) = if c == b'/' then unless_empty (segment s) else none

abbrev pub route_of : List (Text × Service) → Text → Option Service
route_of [] name = none
route_of ((n, service) ∷ rest) name =
    let later = route_of rest name in if same_text n name then some service else later

-- `value.join(",")`
abbrev joined : List Text → Text
joined [] = []
joined (v ∷ []) = v
joined (v ∷ w ∷ vs) = v ++ (b',' ∷ joined (w ∷ vs))

abbrev header_text : HeaderValue → Text
header_text (one v) = v
header_text (several vs) = joined vs

-- The headers that go on, as texts.
abbrev pub request_headers : List (Text × Option HeaderValue) → List (Text × Text)
request_headers [] = []
request_headers ((key, value) ∷ hs) =
    let rest = request_headers hs in
    elim value [
      | none ↦ rest
      | some v ↦
          if is_in stripped_request_headers (to_lower key)
          then rest
          else (key, header_text v) ∷ rest
    ]

abbrev header_of : Text → List (Text × Text) → Option Text
header_of name [] = none
header_of name ((key, v) ∷ hs) =
    let rest = header_of name hs in if same_text key name then some v else rest

abbrev pub is_bodyless : Text → Bool
is_bodyless method = is_in (codes "GET" ∷ codes "HEAD" ∷ []) (to_upper method)

-- `res.setHeader(name, value)`, whatever case the name is in.
abbrev pub set_header : Text → HeaderValue → List (Text × HeaderValue) → List (Text × HeaderValue)
set_header name v hs = (name, v) ∷ keep (λ h. not (same_text (to_lower h.0) (to_lower name))) hs

abbrev pub get_header : Text → List (Text × HeaderValue) → Option HeaderValue
get_header name [] = none
get_header name (h ∷ hs) =
    let rest = get_header name hs in if same_text (to_lower h.0) name then some h.1 else rest

unfoldable pub set_headers :
    List (Text × Option HeaderValue) → List (Text × HeaderValue) → List (Text × HeaderValue)
set_headers [] own = own
set_headers ((key, value) ∷ hs) own = elim value [
  | none ↦ set_headers hs own
  | some v ↦
      set_headers hs
        (if is_in stripped_response_headers (to_lower key) then own else set_header key v own)
]

-- `base` is the environment's URL of a service; `inherited` is the text of what every JavaScript object has under a
-- name, such as "constructor"; `form_text` is `URLSearchParams`; `send` is axios, which answers or throws.
module _ {W : Type 0} (base : Service → Option Text) (inherited : Text → Option Text)
    (form_text : List (Text × Text) → Text)
    (send : UpstreamRequest → W → Option UpstreamResponse × W) where
  abbrev not_empty : Option Text → Option Text
  not_empty none = none
  not_empty (some t) = unless_empty t

  -- `ROUTES[firstSegment]`, if it is truthy.
  unfoldable pub upstream_base : Text → Option Text
  unfolding routes
  upstream_base path = elim (first_segment path) [
    | none ↦ none
    | some name ↦ elim (route_of routes name) [
      | some service ↦ not_empty (base service)
      | none ↦ inherited name
    ]
  ]

  abbrev encoded : RequestBody → RequestBody
  encoded nothing = nothing
  encoded (fields fs) = other (form_text fs)
  encoded (other t) = other t

  unfoldable pub data_of : Request → RequestBody
  unfolding stripped_request_headers
  data_of req =
      let content_type =
        or_else (header_of (codes "content-type") (request_headers req.headers)) [] in
      if is_bodyless req.method
      then nothing
      else if includes (codes "application/x-www-form-urlencoded") content_type
      then encoded req.body
      else req.body

  abbrev pub is_stream : Text → Bool
  is_stream path = includes (codes "/stream") path

  abbrev pub upstream_request : Text → Text → Request → UpstreamRequest
  upstream_request upstream path req = record {
    url = upstream ++ path;
    method = req.method;
    headers = request_headers req.headers;
    data_sent = data_of req;
    is_stream = is_stream path;
  }

  -- `own` are the headers that the gateway has set on the answer already.
  unfoldable pub forward : Request → List (Text × HeaderValue) → W → Reply × W
  unfolding upstream_base set_headers data_of
  forward req own w =
      let path = stripped_path req.original_url in
      elim (upstream_base path) [
        | none ↦ (record { status = 404; headers = own; body = no_route path }, w)
        | some upstream ↦
            let (answer, w') = send (upstream_request upstream path req) w in
            elim answer [
              | none ↦ (record { status = 502; headers = own; body = unavailable }, w')
              | some r ↦ (
                record {
                  status = r.status;
                  headers = set_headers r.headers own;
                  body = if is_stream path then piped r.body else sent r.body;
                },
                w',
              )
            ]
      ]
