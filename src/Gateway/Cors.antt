-- ===== src/Gateway/Cors.antt =====
-- What the browser is told of other origins is the gateway's own word.
use ceylon_events.Common.{
  ◌≡◌, refl, sym, ◌∙◌, ap, ◌⊎◌, inl, inr, true, false, not, Bool, Option, none, some, List, [], ◌∷◌,
  ◌++◌, Elem, here, there, All-Elem, keep, any, arith, Bool-cases, Option-cases, Text, codes,
  same_text, same_text_eq, to_lower,
}
use ceylon_events.Gateway.Types.{
  Service, HeaderValue, one, Request, UpstreamRequest, UpstreamResponse,
}
use ceylon_events.Gateway.{
  is_in, stripped_request_headers, stripped_response_headers, request_headers, set_header,
  get_header, set_headers, forward, upstream_base, stripped_path, upstream_request,
}

-- Setting a header leaves one with another name.
get_header-keep :
    (k name : Text) (hs : List (Text × HeaderValue))
    → same_text name k ≡ false
    → get_header k (keep (λ h. not (same_text (to_lower h.0) name)) hs) ≡ get_header k hs
get_header-keep k name [] h = refl
get_header-keep k name (x ∷ hs) h = elim (Bool-cases (same_text (to_lower x.0) name)) [
  | inr miss ↦ ground (arith, get_header-keep k name hs h)
  | inl hit ↦
      let is = same_text_eq (to_lower x.0) name hit in
      let differs : same_text (to_lower x.0) k ≡ false = ap (λ z. same_text z k) is ∙ h in
      ground (arith, get_header-keep k name hs h)
]

set_headers-stripped :
    (k : Text) (hs : List (Text × Option HeaderValue)) (own : List (Text × HeaderValue))
    → is_in stripped_response_headers k ≡ true
    → get_header k (set_headers hs own) ≡ get_header k own
unfolding set_headers
set_headers-stripped k [] own h = refl
set_headers-stripped k ((key, none) ∷ hs) own h = set_headers-stripped k hs own h
set_headers-stripped k ((key, some v) ∷ hs) own h =
    elim (Bool-cases (is_in stripped_response_headers (to_lower key))) [
      | inl stripped ↦ rw stripped (set_headers-stripped k hs own h)
      | inr passed ↦ rw passed (
          set_headers-stripped k hs (set_header key v own) h
          ∙ elim (Bool-cases (same_text (to_lower key) k)) [
            | inl same ↦ absurd (
                ground (
                  arith,
                  ap (is_in stripped_response_headers) (same_text_eq (to_lower key) k same),
                ))
            | inr other ↦ ground (arith, get_header-keep k (to_lower key) own other)
          ])
    ]

request_headers-clean :
    (hs : List (Text × Option HeaderValue))
    → any (λ h. is_in stripped_request_headers (to_lower h.0)) (request_headers hs) ≡ false
request_headers-clean [] = refl
request_headers-clean ((key, none) ∷ hs) = request_headers-clean hs
request_headers-clean ((key, some v) ∷ hs) =
    elim (Bool-cases (is_in stripped_request_headers (to_lower key))) [
      | inl stripped ↦ rw stripped (request_headers-clean hs)
      | inr passed ↦ rw passed (ground (arith, passed, request_headers-clean hs))
    ]

-- A header that is not stripped goes on, with its text.
request_headers-Elem :
    (key v : Text) (hs : List (Text × Option HeaderValue))
    → is_in stripped_request_headers (to_lower key) ≡ false
    → Elem (key, some (one v)) hs
    → Elem (key, v) (request_headers hs)
request_headers-Elem key v [] h i = elim i [ ]
request_headers-Elem key v ((key', value) ∷ hs) h (here q) =
    let at : value ≡ some (one v) = ap (λ z. z.1) q in
    let same : key' ≡ key = ap (λ z. z.0) q in rw (at, same, h) (here refl)
request_headers-Elem key v ((key', none) ∷ hs) h (there i) = request_headers-Elem key v hs h i
request_headers-Elem key v ((key', some w) ∷ hs) h (there i) =
    elim (Bool-cases (is_in stripped_request_headers (to_lower key'))) [
      | inl stripped ↦ rw stripped (request_headers-Elem key v hs h i)
      | inr passed ↦ rw passed (there (request_headers-Elem key v hs h i))
    ]

-- The headers of an answer that are between the gateway and the browser alone.
abbrev pub own_names : List Text
own_names =
    codes "access-control-allow-origin"
    ∷ codes "access-control-allow-credentials"
    ∷ codes "access-control-allow-methods"
    ∷ codes "access-control-allow-headers"
    ∷ codes "access-control-expose-headers"
    ∷ codes "access-control-max-age"
    ∷ codes "connection"
    ∷ codes "content-length"
    ∷ codes "transfer-encoding"
    ∷ []

-- The headers of a request that are between the browser and the gateway alone.
abbrev pub browser_names : List Text
browser_names = codes "host" ∷ codes "connection" ∷ codes "content-length" ∷ []

own-stripped : (k : Text) → Elem k own_names → is_in stripped_response_headers k ≡ true
unfolding stripped_response_headers
own-stripped k i =
    All-Elem (λ n. is_in stripped_response_headers n ≡ true) own_names k
      (refl, (refl, (refl, (refl, (refl, (refl, (refl, (refl, (refl, tt))))))))) i

is_in-browser_names : (k : Text) → is_in stripped_request_headers k ≡ is_in browser_names k
unfolding stripped_request_headers
is_in-browser_names k = ground arith

any-same :
    (p q : Text × Text → Bool)
    → ((h : Text × Text) → p h ≡ q h)
    → (hs : List (Text × Text)) → any p hs ≡ any q hs
any-same p q same [] = refl
any-same p q same (h ∷ hs) = ground (arith, same h, any-same p q same hs)

-- What the service is sent of the browser's request: the path and the method, and of its headers all
-- but the browser's own.
pub record IsPassedOn (upstream : Text) (req : Request) (r : UpstreamRequest) : Type 0 where
  pub url : r.url ≡ upstream ++ stripped_path req.original_url
  pub method : r.method ≡ req.method
  pub none_own : any (λ h. is_in browser_names (to_lower h.0)) r.headers ≡ false
  pub all_others :
      (key v : Text)
      → is_in browser_names (to_lower key) ≡ false
      → Elem (key, some (one v)) req.headers
      → Elem (key, v) r.headers

module _ {W : Type 0} (base : Service → Option Text) (inherited : Text → Option Text)
    (form_text : List (Text × Text) → Text)
    (send : UpstreamRequest → W → Option UpstreamResponse × W) where
  upstream_request-IsPassedOn :
      (upstream : Text) (req : Request)
      → IsPassedOn upstream req (
          upstream_request base inherited form_text send upstream
            (stripped_path req.original_url)
            req)
  upstream_request-IsPassedOn upstream req = record {
    url = refl;
    method = refl;
    none_own =
        any-same (λ h. is_in browser_names (to_lower h.0))
          (λ h. is_in stripped_request_headers (to_lower h.0))
          (λ h. sym (is_in-browser_names (to_lower h.0))) (request_headers req.headers)
        ∙ request_headers-clean req.headers;
    all_others = λ key v h i.
        request_headers-Elem key v req.headers (is_in-browser_names (to_lower key) ∙ h) i;
  }

  -- Whatever a service answers, or if none does, the browser gets of the six headers on other
  -- origins, of connection, content-length and transfer-encoding exactly what the gateway set
  -- itself. Where the routes have no URL for the path, nothing is sent, and the answer is 404; else
  -- one request is sent, and nothing more: to that URL with the path, by the browser's method, with
  -- none of its host, connection and content-length among the headers in whatever case, and with
  -- every other header of one value as it was.
  pub forward_lem :
      (req : Request) (own : List (Text × HeaderValue)) (w : W)
      → let path = stripped_path req.original_url in
        let (reply, w') = forward base inherited form_text send req own w in
        ((k : Text) → Elem k own_names → get_header k reply.headers ≡ get_header k own)
        × (((upstream_base base inherited form_text send path ≡ none)
              × (reply.status ≡ 404)
              × (w' ≡ w))
            ⊎ ((upstream : Text) × (r : UpstreamRequest) × (upstream_base base inherited form_text
                    send path
                  ≡ some upstream)
                × (w' ≡ (send r w).1)
                × IsPassedOn upstream req r))
  unfolding forward
  forward_lem req own w =
      let path = stripped_path req.original_url in
      elim (Option-cases (upstream_base base inherited form_text send path)) [
        | inl missing ↦ (
          λ k i. ground (arith, missing),
          inl (missing, ground (arith, missing), ground (arith, missing)),
        )
        | inr (upstream, e) ↦
            let r = upstream_request base inherited form_text send upstream path req in
            elim (Option-cases (send r w).0) [
              | inl failed ↦ (
                λ k i. ground (arith, e, failed),
                inr (
                  upstream,
                  r,
                  e,
                  ground (arith, e, failed),
                  upstream_request-IsPassedOn upstream req,
                ),
              )
              | inr (answer, e') ↦ (
                λ k i.
                    ground
                      (arith, e, e', set_headers-stripped k answer.headers own (own-stripped k i)),
                inr (
                  upstream,
                  r,
                  e,
                  ground (arith, e, e'),
                  upstream_request-IsPassedOn upstream req,
                ),
              )
            ]
      ]
