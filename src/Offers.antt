-- ===== src/Offers.antt =====
-- services/offers-service/src/offers/offers.service.ts, method by method: offers that come with the
-- tickets of an event, and their redemption by the staff at the venue.
pub mod Types
pub mod Redemptions
pub mod Caps
use ceylon_events.Common.{
  ℕ, ◌+◌, ◌-◌, Bool, true, false, not, ◌&&◌, Option, none, some, List, [], ◌∷◌, map, any, length,
  ◌==◌, leb, or_else, if◌then◌else◌, String, Response, body, status, unreachable, Result, Action,
  ok, err, not_found, forbidden, bad_request, bad_gateway, conflict, internal_error, pure, gets,
  lift, modify, skip, throw_if, or_throw, ◌>>=◌, ◌>>◌,
}
use ceylon_events.Shared.{
  RedemptionType, unlimited, capped, single_use, JwtAccessPayload, can_manage_restaurant,
}
use Types.{
  Offer, OfferTicketTier, OfferRedemption, CreateOffer, UpdateOffer, OfferSnapshot,
  OfferWithRedemptionState, UpstreamEvent, UpstreamTicketLookup, Reason, Upstream, Database, State,
  event_not_found, event_service_unavailable, ticket_not_found, other_restaurant,
  checkin_service_error, checkin_service_unavailable, may_not_manage_offers,
  may_not_view_redemptions, offer_not_found, not_bundled, fully_redeemed,
}

unfoldable pub fetch_event : Response UpstreamEvent → Result Reason UpstreamEvent
fetch_event (body event) = ok event
fetch_event (status n) =
    if n == 404
    then err (not_found event_not_found)
    else err (bad_gateway event_service_unavailable)
fetch_event unreachable = err (bad_gateway event_service_unavailable)

unfoldable pub lookup_ticket_as_caller :
    Response UpstreamTicketLookup → Result Reason UpstreamTicketLookup
lookup_ticket_as_caller (body ticket) = ok ticket
lookup_ticket_as_caller (status n) =
    if n == 404
    then err (not_found ticket_not_found)
    else if n == 403
    then err (forbidden other_restaurant)
    else err (bad_gateway checkin_service_error)
lookup_ticket_as_caller unreachable = err (bad_gateway checkin_service_unavailable)

abbrev pub effective_cap : Offer → Option ℕ
effective_cap offer = elim offer.redemption_type [
  | single_use ↦ some 1
  | capped ↦ offer.redemption_cap
  | unlimited ↦ none
]

-- `cap !== null && redeemedCount >= cap`
abbrev pub is_exhausted : Option ℕ → ℕ → Bool
is_exhausted none n = false
is_exhausted (some cap) n = leb cap n

-- `cap === null ? null : Math.max(cap - n, 0)`
abbrev pub remaining_of : Option ℕ → ℕ → Option ℕ
remaining_of none n = none
remaining_of (some cap) n = some (cap - n)

merge : UpdateOffer → Offer → Offer
merge dto offer = record offer {
  name = or_else dto.name offer.name;
  description = or_else dto.description offer.description;
  discount_type = or_else dto.discount_type offer.discount_type;
  discount_value = or_else dto.discount_value offer.discount_value;
  redemption_type = or_else dto.redemption_type offer.redemption_type;
  redemption_cap = or_else dto.redemption_cap offer.redemption_cap;
  applicable_menu_category_id =
      or_else dto.applicable_menu_category_id offer.applicable_menu_category_id;
  applicable_menu_item_ids = or_else dto.applicable_menu_item_ids offer.applicable_menu_item_ids;
}

module _ (u : Upstream) (db : Database) where
  abbrev pub to_snapshot : Offer → State → OfferSnapshot
  to_snapshot offer s = record {
    offer = offer;
    ticket_tier_ids =
        map (λ l. l.ticket_tier_id) (db.links.find (λ l. l.offer_id == offer.id) s.links);
  }

  abbrev pub find_offer : ℕ → State → Option Offer
  find_offer id s = db.offers.find_one (λ o. o.id == id) s.offers

  insert_offer : Offer → Action State Reason (Unit {0})
  insert_offer offer s = elim (db.offers.insert offer s.offers) [
    | none ↦ (err internal_error, s)
    | some table ↦ (ok tt, record s { offers = table })
  ]

  -- The rows of a new list of links; TypeORM saves a list in one transaction.
  linked : ℕ → List ℕ → List OfferTicketTier → Option (List OfferTicketTier)
  linked offer_id [] t = some t
  linked offer_id (tier ∷ tiers) t =
      elim (db.links.insert
        (record { id = db.links.fresh t; offer_id = offer_id; ticket_tier_id = tier }) t) [
          | none ↦ none
          | some t' ↦ linked offer_id tiers t'
        ]

  insert_links : ℕ → List ℕ → Action State Reason (Unit {0})
  unfolding linked
  insert_links offer_id tiers s = elim (linked offer_id tiers s.links) [
    | none ↦ (err internal_error, s)
    | some table ↦ (ok tt, record s { links = table })
  ]

  pub create : ℕ → CreateOffer → JwtAccessPayload → Action State Reason OfferSnapshot
  unfolding insert_offer insert_links
  create event_id dto caller = do
    event ← lift (fetch_event (u.get_event event_id))
    throw_if (not (can_manage_restaurant caller event.restaurant_id))
        (forbidden may_not_manage_offers)
    id ← gets (λ s. db.offers.fresh s.offers)
    let offer : Offer = record {
      id = id;
      event_id = event_id;
      restaurant_id = event.restaurant_id;
      name = dto.name;
      description = dto.description;
      discount_type = dto.discount_type;
      discount_value = dto.discount_value;
      redemption_type = dto.redemption_type;
      redemption_cap = dto.redemption_cap;
      applicable_menu_category_id = dto.applicable_menu_category_id;
      applicable_menu_item_ids = dto.applicable_menu_item_ids;
    }
    insert_offer offer
    insert_links id dto.ticket_tier_ids
    gets (to_snapshot offer)

  pub list_for_event : ℕ → State → List OfferSnapshot
  list_for_event event_id s =
      map (λ o. to_snapshot o s) (db.offers.find (λ o. o.event_id == event_id) s.offers)

  -- The offers of the links that still have one.
  offers_of : List OfferTicketTier → State → List Offer
  offers_of [] s = []
  offers_of (l ∷ links) s =
      let rest = offers_of links s in
      elim (find_offer l.offer_id s) [ none ↦ rest | some offer ↦ offer ∷ rest ]

  pub list_for_ticket_tier_entities : ℕ → State → List Offer
  unfolding offers_of
  list_for_ticket_tier_entities tier s =
      offers_of (db.links.find (λ l. l.ticket_tier_id == tier) s.links) s

  pub list_for_ticket_tier : ℕ → State → List OfferSnapshot
  list_for_ticket_tier tier s = map (λ o. to_snapshot o s) (list_for_ticket_tier_entities tier s)

  pub get_or_throw : ℕ → Action State Reason Offer
  get_or_throw id = do found ← gets (find_offer id); or_throw found (not_found offer_not_found)

  pub find_one : ℕ → Action State Reason OfferSnapshot
  unfolding get_or_throw
  find_one id = do offer ← get_or_throw id; gets (to_snapshot offer)

  replace_links : ℕ → Option (List ℕ) → Action State Reason (Unit {0})
  unfolding insert_links
  replace_links offer_id none = skip
  replace_links offer_id (some tiers) = do
    modify (λ s. record s { links = db.links.remove (λ l. l.offer_id == offer_id) s.links })
    insert_links offer_id tiers

  pub update : ℕ → UpdateOffer → JwtAccessPayload → Action State Reason OfferSnapshot
  unfolding get_or_throw merge replace_links
  update id dto caller = do
    offer ← get_or_throw id
    throw_if (not (can_manage_restaurant caller offer.restaurant_id))
        (forbidden may_not_manage_offers)
    let changed = merge dto offer
    modify (λ s. record s { offers = db.offers.save changed s.offers })
    replace_links changed.id dto.ticket_tier_ids
    gets (to_snapshot changed)

  pub delete : ℕ → JwtAccessPayload → Action State Reason (Unit {0})
  unfolding get_or_throw
  delete id caller = do
    offer ← get_or_throw id
    throw_if (not (can_manage_restaurant caller offer.restaurant_id))
        (forbidden may_not_manage_offers)
    modify (λ s. record s {
      redemptions = db.redemptions.remove (λ r. r.offer_id == id) s.redemptions;
    })
    modify (λ s. record s { links = db.links.remove (λ l. l.offer_id == id) s.links })
    modify (λ s. record s { offers = db.offers.remove (λ o. o.id == id) s.offers })

  pub list_redemptions : ℕ → JwtAccessPayload → Action State Reason (List OfferRedemption)
  unfolding get_or_throw
  list_redemptions id caller = do
    offer ← get_or_throw id
    throw_if (not (can_manage_restaurant caller offer.restaurant_id))
        (forbidden may_not_view_redemptions)
    gets (λ s. db.redemptions.find (λ r. r.offer_id == id) s.redemptions)

  -- `redemptionsRepository.count(…)`
  abbrev pub redeemed_count : ℕ → ℕ → State → ℕ
  redeemed_count offer_id item_id s = length (
      db.redemptions.find (λ r. r.offer_id == offer_id && r.order_item_id == item_id) s.redemptions)

  abbrev pub with_state : Offer → ℕ → State → OfferWithRedemptionState
  with_state offer n s = record {
    snapshot = to_snapshot offer s;
    redeemed_count = n;
    remaining = remaining_of (effective_cap offer) n;
  }

  pub offers_for_ticket : String → ℕ → Action State Reason (List OfferWithRedemptionState)
  unfolding list_for_ticket_tier_entities
  offers_for_ticket qr_token authorization = do
    ticket ← lift (lookup_ticket_as_caller (u.lookup_ticket qr_token authorization))
    gets λ s.
        map (λ o. with_state o (redeemed_count o.id ticket.order_item_id s) s)
          (list_for_ticket_tier_entities ticket.ticket_tier_id s)

  abbrev pub insert_redemption : OfferRedemption → Action State Reason (Unit {0})
  insert_redemption r s = elim (db.redemptions.insert r s.redemptions) [
    | none ↦ (err internal_error, s)
    | some table ↦ (ok tt, record s { redemptions = table })
  ]

  -- `others` is what other requests do between the count and the insert.
  pub redeem :
      (State → State)
      → ℕ
      → String
      → Option String
      → JwtAccessPayload
      → ℕ
      → Action State Reason OfferWithRedemptionState
  unfolding get_or_throw
  redeem others offer_id qr_token notes caller authorization = do
    offer ← get_or_throw offer_id
    ticket ← lift (lookup_ticket_as_caller (u.lookup_ticket qr_token authorization))
    links ← gets (λ s. db.links.find (λ l. l.offer_id == offer_id) s.links)
    throw_if (not (any (λ l. l.ticket_tier_id == ticket.ticket_tier_id) links))
        (bad_request not_bundled)
    n ← gets (redeemed_count offer_id ticket.order_item_id)
    throw_if (is_exhausted (effective_cap offer) n) (conflict fully_redeemed)
    modify others
    id ← gets (λ s. db.redemptions.fresh s.redemptions)
    insert_redemption (record {
      id = id;
      offer_id = offer_id;
      order_item_id = ticket.order_item_id;
      redeemed_by_user_id = caller.sub;
      notes = notes;
    })
    gets (with_state offer (n + 1))
