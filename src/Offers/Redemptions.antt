-- ===== src/Offers/Redemptions.antt =====
-- How often a ticket may use an offer.
use ceylon_events.Common.{
  ℕ, ◌+◌, ◌≡◌, refl, ◌∙◌, sym, ap, subst, ◌⊎◌, inl, inr, Bool, true, false, ◌&&◌, Option, some,
  List, any, arith, ◌==◌, ==_refl, String, ok, err, conflict, bad_request, IsRepository, row,
  find_one-key, insert-fresh, no_clash, Bool-cases,
}
use ceylon_events.Shared.{JwtAccessPayload}
use ceylon_events.Offers.Types.{
  Offer, OfferRedemption, UpstreamTicketLookup, Upstream, Database, State, fully_redeemed,
  not_bundled,
}
use ceylon_events.Offers.{
  effective_cap, is_exhausted, lookup_ticket_as_caller, find_offer, get_or_throw, redeemed_count,
  with_state, redeem,
}

abbrev pub offer_row : ℕ → State → Option Offer
offer_row k s = row (λ o. o.id) k s.offers

-- The offer is bundled with the tier.
abbrev pub is_bundled : Database → ℕ → ℕ → State → Bool
is_bundled db offer_id tier s =
    any (λ l. l.ticket_tier_id == tier) (db.links.find (λ l. l.offer_id == offer_id) s.links)

abbrev pub new_redemption :
    Database → ℕ → ℕ → JwtAccessPayload → Option String → State → OfferRedemption
new_redemption db offer_id item caller notes s = record {
  id = db.redemptions.fresh s.redemptions;
  offer_id = offer_id;
  order_item_id = item;
  redeemed_by_user_id = caller.sub;
  notes = notes;
}

module _ (u : Upstream) (db : Database) where
  -- What a redemption writes, if it writes.
  pub record IsRedeemed (offer : Offer) (item : ℕ) (s s' : State) : Type 0 where
    pub offers : s'.offers ≡ s.offers
    pub links : s'.links ≡ s.links
    pub one_more : redeemed_count u db offer.id item s' ≡ redeemed_count u db offer.id item s + 1
    pub others :
        (id k : ℕ)
        → ((id == offer.id) && (k == item)) ≡ false
        → redeemed_count u db id k s' ≡ redeemed_count u db id k s

module _ (u : Upstream) (db : Database)
    (lawful_offers : IsRepository (λ o. o.id) no_clash db.offers)
    (lawful : IsRepository (λ r. r.id) no_clash db.redemptions) where
  inserted-IsRedeemed :
      (offer : Offer) (item : ℕ) (caller : JwtAccessPayload) (notes : Option String) (s : State)
      (t : List OfferRedemption)
      → db.redemptions.insert (new_redemption db offer.id item caller notes s) s.redemptions
        ≡ some t
      → IsRedeemed u db offer item s (record s { redemptions = t })
  inserted-IsRedeemed offer item caller notes s t e =
      let x = new_redemption db offer.id item caller notes s in
      let law = λ (id k : ℕ).
        lawful.find-insert (λ r. r.offer_id == id && r.order_item_id == k) x s.redemptions t e in
      record {
        offers = refl;
        links = refl;
        one_more = ground (arith, law offer.id item, ==_refl offer.id, ==_refl item);
        others = λ id k ne. ground (arith, law id k);
      }

  -- `redeem` of an offer that exists, for a ticket that is known, with nothing in between: refused
  -- and nothing changed where the offer is not bundled with the tier of the ticket, or the ticket has
  -- used it up; else one redemption of this ticket is added, none of others, and the answer has the
  -- new count and what remains.
  pub redeem_lem :
      (offer : Offer) (ticket : UpstreamTicketLookup) (qr_token : String) (notes : Option String)
      (caller : JwtAccessPayload) (authorization : ℕ) (s : State)
      → offer_row offer.id s ≡ some offer
      → lookup_ticket_as_caller (u.lookup_ticket qr_token authorization) ≡ ok ticket
      → let (r, s') = redeem u db (λ x. x) offer.id qr_token notes caller authorization s in
        let item = ticket.order_item_id in
        let n = redeemed_count u db offer.id item s in
        ((is_bundled db offer.id ticket.ticket_tier_id s ≡ false)
          × (r ≡ err (bad_request not_bundled))
          × (s' ≡ s))
        ⊎ ((is_bundled db offer.id ticket.ticket_tier_id s ≡ true)
            × (is_exhausted (effective_cap offer) n ≡ true)
            × (r ≡ err (conflict fully_redeemed))
            × (s' ≡ s))
        ⊎ ((is_bundled db offer.id ticket.ticket_tier_id s ≡ true)
            × (is_exhausted (effective_cap offer) n ≡ false)
            × (r ≡ ok (with_state u db offer (n + 1) s'))
            × IsRedeemed u db offer item s s')
  unfolding redeem get_or_throw
  redeem_lem offer ticket qr_token notes caller authorization s at looked =
      let found : find_offer u db offer.id s ≡ some offer =
        find_one-key (λ o. o.id) lawful_offers offer.id s.offers ∙ at in
      let n = redeemed_count u db offer.id ticket.order_item_id s in
      elim (Bool-cases (is_bundled db offer.id ticket.ticket_tier_id s)) [
        | inr unbundled ↦ inl (unbundled, ground (arith, found), ground (arith, found))
        | inl bundled ↦ elim (Bool-cases (is_exhausted (effective_cap offer) n)) [
          | inl used_up ↦ inr (inl (bundled, used_up, ground (arith, found), ground (arith, found)))
          | inr left ↦
              let (t, e) =
                insert-fresh (λ r. r.id) lawful
                  (new_redemption db offer.id ticket.order_item_id caller notes s) s.redemptions
                  refl (λ k y q. refl) in
              let done : redeem u db (λ x. x) offer.id qr_token notes caller authorization s ≡ (
                ok (with_state u db offer (n + 1) (record s { redemptions = t })),
                record s { redemptions = t },
              ) =
                ground (arith, found, e) in
              let state = ap (λ x. x.1) done in
              inr (
                inr (
                  bundled,
                  left,
                  ap (λ x. x.0) done ∙ ap (λ x. ok (with_state u db offer (n + 1) x)) (sym state),
                  subst (IsRedeemed u db offer ticket.order_item_id s) (sym state)
                      (inserted-IsRedeemed offer ticket.order_item_id caller notes s t e),
                ))
        ]
      ]
