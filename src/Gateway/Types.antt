-- ===== src/Gateway/Types.antt =====
-- The requests and the answers of services/api-gateway/src/proxy/proxy.service.ts, as Express and axios give and take
-- them. A text is the list of its code units.
use ceylon_events.Common.{ℕ, Bool, Option, List, Text}

-- The services that a path leads to.
pub data Service : Type 0 where
  identity restaurant media venue event order payment checkin : Service
  food_order offers ratings notification reporting : Service

-- The values of `req.headers`; some may be undefined.
pub data HeaderValue : Type 0 where
  one : Text → HeaderValue
  several : List Text → HeaderValue

-- What Express parsed: nothing, an object of fields, or anything else.
pub data RequestBody : Type 0 where
  nothing : RequestBody
  fields : List (Text × Text) → RequestBody
  other : Text → RequestBody

pub record Request : Type 0 where
  pub method : Text
  pub original_url : Text
  pub headers : List (Text × Option HeaderValue)
  pub body : RequestBody

pub record UpstreamRequest : Type 0 where
  pub url : Text
  pub method : Text
  pub headers : List (Text × Text)
  pub data_sent : RequestBody
  pub is_stream : Bool

pub record UpstreamResponse : Type 0 where
  pub status : ℕ
  pub headers : List (Text × Option HeaderValue)
  pub body : Text

pub data ReplyBody : Type 0 where
  no_route : Text → ReplyBody
  sent piped : Text → ReplyBody
  unavailable : ReplyBody

pub record Reply : Type 0 where
  pub status : ℕ
  pub headers : List (Text × HeaderValue)
  pub body : ReplyBody
