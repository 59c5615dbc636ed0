-- ===== src/Events/Visible.antt =====
-- Who sees an event: the page of one event and the listing agree.
use ceylon_events.Common.{
  ◌≡◌, ◌⊎◌, inl, inr, ◌&&◌, ◌||◌, Option, none, some, arith, ok, err, not_found, Elem, All-Elem,
  Selected, IsRepository, row, find_one-key, no_clash, Bool-cases,
}
use ceylon_events.Shared.{JwtAccessPayload, is_published, can_manage_restaurant, may_manage}
use ceylon_events.Events.Types.{Event, Database, State, event_not_found}
use ceylon_events.Events.{listed, find_visible_or_throw, get_or_throw, sees, is_at}

sees_lem :
    (caller : Option JwtAccessPayload) (e : Event)
    → sees caller e ≡ (is_published e.status || may_manage caller e.restaurant_id)
unfolding can_manage_restaurant
sees_lem none e = ground arith
sees_lem (some caller) e = ground arith

module _ (db : Database) (lawful : IsRepository (λ e. e.id) no_clash db.events) where
  -- Whoever asks, with or without a token: an event can be opened exactly if it is among the events
  -- that are listed to them; otherwise it is answered as if there were none. Nothing changes.
  pub find_visible_or_throw-listed :
      (e : Event) (caller : Option JwtAccessPayload) (s : State)
      → row (λ x. x.id) e.id s.events ≡ some e
      → ((find_visible_or_throw db e.id caller s ≡ (ok e, s)) × Elem e (listed db none caller s))
        ⊎ ((find_visible_or_throw db e.id caller s ≡ (err (not_found event_not_found), s))
            × ¬ Elem e (listed db none caller s))
  unfolding find_visible_or_throw get_or_throw listed
  find_visible_or_throw-listed e caller s at =
      let found = find_one-key (λ x. x.id) lawful e.id s.events in
      let p = λ (x : Event). is_at none x && sees caller x in
      elim (Bool-cases (is_published e.status || may_manage caller e.restaurant_id)) [
        | inl seen ↦ inl (
          ground (arith, found),
          lawful.find-Elem p s.events e.id e at (ground (arith, sees_lem caller e)),
        )
        | inr unseen ↦ inr (
          ground (arith, found),
          λ i.
              let (here, chosen) =
                All-Elem (Selected (λ x. x.id) p s.events) _ e (lawful.find-Selected p s.events)
                  i in
              ground (arith, sees_lem caller e),
        )
      ]
