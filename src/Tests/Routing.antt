-- ===== src/Tests/Routing.antt =====
-- The gateway in front of a service that answers every request alike.
use ceylon_events.Common.{
  ◌≡◌, refl, sym, subst, inl, inr, here, arith, if◌then◌else◌, Option, none, some, List, [], ◌∷◌,
  Text, codes, same_text,
}
use ceylon_events.Gateway.Types.{
  Service, order, HeaderValue, one, nothing, Request, UpstreamRequest, UpstreamResponse, sent,
}
use ceylon_events.Gateway.{
  forward, get_header, stripped_response_headers, stripped_request_headers, upstream_base, routes,
  data_of, set_headers,
}
use ceylon_events.Gateway.Cors.{IsPassedOn, forward_lem}

abbrev base : Service → Option Text
base service = elim service [ order ↦ some (codes "http://order") | _ ↦ none ]

abbrev inherited : Text → Option Text
inherited name =
    if same_text name (codes "constructor")
    then some (codes "function Object() { [native code] }")
    else none

abbrev form_text : List (Text × Text) → Text
form_text fs = []

-- The world is the list of the URLs asked for.
abbrev send : UpstreamRequest → List Text → Option UpstreamResponse × List Text
send r urls = (
  some (record {
    status = 200;
    headers = (codes "Access-Control-Allow-Origin", some (one (codes "*"))) ∷ [];
    body = codes "ok";
  }),
  r.url ∷ urls,
)

abbrev asked : Request
asked = record {
  method = codes "GET";
  original_url = codes "/api/orders/mine?page=2";
  headers =
      (codes "Host", some (one (codes "evil"))) ∷ (codes "accept", some (one (codes "*/*"))) ∷ [];
  body = nothing;
}

abbrev allowed : List (Text × HeaderValue)
allowed = (codes "access-control-allow-origin", one (codes "https://app")) ∷ []

forward-orders : forward base inherited form_text send asked allowed [] ≡ (
  record { status = 200; headers = allowed; body = sent (codes "ok") },
  codes "http://order/orders/mine?page=2" ∷ [],
)
unfolding forward upstream_base routes data_of set_headers stripped_response_headers
    stripped_request_headers
forward-orders = refl

-- The endpoints between services have no route.
forward-internal :
    (forward base inherited form_text send
      (record asked { original_url = codes "/api/internal/orders/1" })
      allowed
      []).0.status
    ≡ 404
unfolding forward upstream_base routes
forward-internal = refl

-- A name that every object has does.
forward-constructor :
    (forward base inherited form_text send
      (record asked { original_url = codes "/api/constructor" })
      allowed
      []).1
    ≡ codes "function Object() { [native code] }/constructor" ∷ []
unfolding forward upstream_base routes data_of stripped_request_headers
forward-constructor = refl

forward_lem_example :
    (get_header
        (codes "access-control-allow-origin")
        (forward base inherited form_text send asked allowed []).0.headers
      ≡ some (one (codes "https://app")))
    × ((r : UpstreamRequest) × ((forward base inherited form_text send asked allowed []).1
          ≡ r.url ∷ [])
        × IsPassedOn (codes "http://order") asked r)
unfolding upstream_base routes
forward_lem_example =
    let lem = forward_lem base inherited form_text send asked allowed [] in
    (
      lem.0 (codes "access-control-allow-origin") (here refl),
      elim lem.1 [
        | inl (missing, not_found, nothing_sent) ↦ absurd (ground arith)
        | inr (upstream, r, to, sent_on, passed) ↦
            let at : codes "http://order" ≡ upstream = ground (arith, to) in
            (r, sent_on, subst (λ x. IsPassedOn x asked r) (sym at) passed)
      ],
    )
