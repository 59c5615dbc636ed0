-- ===== src/Offers/Caps.antt =====
-- The cap of an offer over any history of redemptions.
use ceylon_events.Common.{ℕ, Option, List, [], ◌∷◌, String}
use ceylon_events.Shared.{JwtAccessPayload}
use ceylon_events.Offers.Types.{Upstream, Database, State}
use ceylon_events.Offers.{redeem}

-- A request to redeem an offer for the ticket with a token.
pub record Redemption : Type 0 where
  pub offer_id : ℕ
  pub qr_token : String
  pub notes : Option String
  pub caller : JwtAccessPayload
  pub authorization : ℕ

module _ (u : Upstream) (db : Database) where
  pub serve : Redemption → State → State
  serve r s = (redeem u db (λ x. x) r.offer_id r.qr_token r.notes r.caller r.authorization s).1

  pub serve_all : List Redemption → State → State
  serve_all [] s = s
  serve_all (r ∷ rs) s = serve_all rs (serve r s)
