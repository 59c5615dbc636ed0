-- ===== src/Events.antt =====
-- services/event-service/src/events/events.service.ts, method by method: the events of the restaurants, which
-- the public sees once they are published.
pub mod Types
pub mod Tiers
pub mod Visible
use ceylon_events.Common.{
  ℕ, zero, suc, ◌+◌, ◌-◌, ◌*◌, Bool, true, false, not, ◌&&◌, ◌||◌, Option, none, some, List, [],
  ◌∷◌, take, drop, length, ◌==◌, or_else, if◌then◌else◌, Action, ok, err, not_found, forbidden,
  internal_error, pure, gets, modify, throw_if, or_throw, ◌>>=◌, ◌>>◌,
}
use ceylon_events.Shared.{
  PaginatedResult, paginated, EventStatus, draft, is_published, JwtAccessPayload, is_platform_admin,
  can_manage_restaurant, may_manage,
}
use Types.{
  Event, CreateEvent, UpdateEvent, Reason, Database, State, may_not_create, may_not_update,
  event_not_found,
}

abbrev is_own_or_published : Option ℕ → Event → Bool
is_own_or_published none e = is_published e.status
is_own_or_published (some own) e = is_published e.status || e.restaurant_id == own

-- The condition of the listing that depends on the caller.
abbrev pub sees : Option JwtAccessPayload → Event → Bool
sees none e = is_published e.status
sees (some caller) e =
    if is_platform_admin caller then true else is_own_or_published caller.restaurant_id e

abbrev pub is_at : Option ℕ → Event → Bool
is_at none e = true
is_at (some restaurant_id) e = e.restaurant_id == restaurant_id

merge : UpdateEvent → Event → Event
merge dto event = record event {
  title = or_else dto.title event.title;
  description = or_else dto.description event.description;
  banner_image_url = or_else dto.banner_image_url event.banner_image_url;
  seat_map_version_id = or_else dto.seat_map_version_id event.seat_map_version_id;
  starts_at = or_else dto.starts_at event.starts_at;
}

module _ (db : Database) where
  insert_event : Event → Action State Reason Event
  insert_event event s = elim (db.events.insert event s.events) [
    | none ↦ (err internal_error, s)
    | some table ↦ (ok event, record s { events = table })
  ]

  pub create : CreateEvent → JwtAccessPayload → Action State Reason Event
  unfolding insert_event
  create dto caller = do
    throw_if (not (can_manage_restaurant caller dto.restaurant_id)) (forbidden may_not_create)
    id ← gets (λ s. db.events.fresh s.events)
    insert_event (record {
      id = id;
      restaurant_id = dto.restaurant_id;
      seat_map_version_id = dto.seat_map_version_id;
      title = dto.title;
      description = dto.description;
      banner_image_url = dto.banner_image_url;
      starts_at = dto.starts_at;
      status = draft;
    })

  -- What the query of `findAll` selects, before it is cut into pages.
  pub listed : Option ℕ → Option JwtAccessPayload → State → List Event
  listed restaurant_id caller s =
      db.events.find (λ e. is_at restaurant_id e && sees caller e) s.events

  pub find_all : ℕ → ℕ → Option ℕ → Option JwtAccessPayload → State → PaginatedResult Event
  unfolding listed
  find_all page page_size restaurant_id caller s =
      paginated page page_size (listed restaurant_id caller s)

  unfoldable pub get_or_throw : ℕ → Action State Reason Event
  get_or_throw id = do
    found ← gets (λ s. db.events.find_one (λ e. e.id == id) s.events)
    or_throw found (not_found event_not_found)

  unfoldable pub find_visible_or_throw : ℕ → Option JwtAccessPayload → Action State Reason Event
  unfolding get_or_throw
  find_visible_or_throw id caller = do
    event ← get_or_throw id
    throw_if (not (is_published event.status) && not (may_manage caller event.restaurant_id))
        (not_found event_not_found)
    pure event

  pub find_by_id_or_throw : ℕ → Action State Reason Event
  find_by_id_or_throw id = get_or_throw id

  abbrev save_event : Event → State → State
  save_event event s = record s { events = db.events.save event s.events }

  pub update : ℕ → UpdateEvent → JwtAccessPayload → Action State Reason Event
  unfolding get_or_throw merge
  update id dto caller = do
    event ← get_or_throw id
    throw_if (not (can_manage_restaurant caller event.restaurant_id)) (forbidden may_not_update)
    modify (save_event (merge dto event))
    pure (merge dto event)

  pub update_status : ℕ → EventStatus → JwtAccessPayload → Action State Reason Event
  unfolding get_or_throw
  update_status id status caller = do
    event ← get_or_throw id
    throw_if (not (can_manage_restaurant caller event.restaurant_id)) (forbidden may_not_update)
    let changed : Event = record event { status = status }
    modify (save_event changed)
    pure changed
