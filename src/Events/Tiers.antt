-- ===== src/Events/Tiers.antt =====
-- services/event-service/src/ticket-tiers/ticket-tiers.service.ts, method by method: the kinds of tickets that
-- an event sells.
use ceylon_events.Common.{
  ℕ, not, none, some, List, ◌==◌, or_else, Action, ok, err, not_found, forbidden, internal_error,
  pure, gets, modify, throw_if, or_throw, ◌>>=◌, ◌>>◌,
}
use ceylon_events.Shared.{JwtAccessPayload, can_manage_restaurant}
use ceylon_events.Events.Types.{
  Event, TicketTier, CreateTicketTier, UpdateTicketTier, Reason, Database, State,
  may_not_manage_tiers, event_not_found, ticket_tier_not_found,
}

merge : UpdateTicketTier → TicketTier → TicketTier
merge dto tier = record tier {
  name = or_else dto.name tier.name;
  price_minor_units = or_else dto.price_minor_units tier.price_minor_units;
  currency = or_else dto.currency tier.currency;
  sale_start_at = or_else dto.sale_start_at tier.sale_start_at;
  sale_end_at = or_else dto.sale_end_at tier.sale_end_at;
  allowed_section_ids = or_else dto.allowed_section_ids tier.allowed_section_ids;
  quantity_limit = or_else dto.quantity_limit tier.quantity_limit;
}

module _ (db : Database) where
  pub get_event_or_throw : ℕ → Action State Reason Event
  get_event_or_throw event_id = do
    found ← gets (λ s. db.events.find_one (λ e. e.id == event_id) s.events)
    or_throw found (not_found event_not_found)

  insert_tier : TicketTier → Action State Reason TicketTier
  insert_tier tier s = elim (db.tiers.insert tier s.tiers) [
    | none ↦ (err internal_error, s)
    | some table ↦ (ok tier, record s { tiers = table })
  ]

  pub create : ℕ → CreateTicketTier → JwtAccessPayload → Action State Reason TicketTier
  unfolding get_event_or_throw insert_tier
  create event_id dto caller = do
    event ← get_event_or_throw event_id
    throw_if (not (can_manage_restaurant caller event.restaurant_id))
        (forbidden may_not_manage_tiers)
    id ← gets (λ s. db.tiers.fresh s.tiers)
    insert_tier (record {
      id = id;
      event_id = event_id;
      name = dto.name;
      price_minor_units = dto.price_minor_units;
      currency = or_else dto.currency "LKR";
      sale_start_at = dto.sale_start_at;
      sale_end_at = dto.sale_end_at;
      allowed_section_ids = dto.allowed_section_ids;
      quantity_limit = dto.quantity_limit;
    })

  pub list_for_event : ℕ → State → List TicketTier
  list_for_event event_id s = db.tiers.find (λ t. t.event_id == event_id) s.tiers

  pub find_by_id_or_throw : ℕ → Action State Reason TicketTier
  find_by_id_or_throw id = do
    found ← gets (λ s. db.tiers.find_one (λ t. t.id == id) s.tiers)
    or_throw found (not_found ticket_tier_not_found)

  -- The tier, if the caller may manage the restaurant of its event.
  owned_or_throw : ℕ → JwtAccessPayload → Action State Reason TicketTier
  unfolding get_event_or_throw find_by_id_or_throw
  owned_or_throw id caller = do
    tier ← find_by_id_or_throw id
    event ← get_event_or_throw tier.event_id
    throw_if (not (can_manage_restaurant caller event.restaurant_id))
        (forbidden may_not_manage_tiers)
    pure tier

  pub update : ℕ → UpdateTicketTier → JwtAccessPayload → Action State Reason TicketTier
  unfolding owned_or_throw merge
  update id dto caller = do
    tier ← owned_or_throw id caller
    modify (λ s. record s { tiers = db.tiers.save (merge dto tier) s.tiers })
    pure (merge dto tier)

  pub delete : ℕ → JwtAccessPayload → Action State Reason (Unit {0})
  unfolding owned_or_throw
  delete id caller = do
    tier ← owned_or_throw id caller
    modify (λ s. record s { tiers = db.tiers.remove (λ t. t.id == id) s.tiers })
