-- ===== src/Tickets/Door.antt =====
-- Check-in at the door.
use ceylon_events.Common.{
  ℕ, ◌≡◌, refl, ◌∙◌, sym, ap, inl, inr, subst, true, false, Option, some, arith, ◌==◌,
  if◌then◌else◌, ok, err, forbidden, conflict, IsRepository, row, Option-cases, Bool-cases,
  Repository, str_eq, str_eq_iff,
}
use ceylon_events.Shared.{is_checked_in, JwtAccessPayload, can_manage_restaurant}
use ceylon_events.Tickets.Types.{
  Ticket, UpstreamEvent, Upstream, State, same_ticket, other_restaurant, already_checked_in,
}
use ceylon_events.Tickets.{
  fetch_event, to_lookup_result, admit, find_ticket, get_ticket_and_event_or_throw, check_in,
}

abbrev pub ticket_row : ℕ → State → Option Ticket
ticket_row k s = row (λ t. t.id) k s.tickets

-- The unique index of the tokens.
unfoldable pub UniqueTokens : State → Type 0
UniqueTokens s =
    (a b : Ticket)
    → ticket_row a.id s ≡ some a
    → ticket_row b.id s ≡ some b
    → a.qr_token ≡ b.qr_token
    → a ≡ b

module _ (u : Upstream) (db : Repository Ticket)
    (lawful : IsRepository (λ t. t.id) same_ticket db) where
  -- The ticket of a token is the one that is found.
  found_ticket :
      (s : State) (t : Ticket)
      → UniqueTokens s
      → ticket_row t.id s ≡ some t
      → find_ticket u db t.qr_token s ≡ some t
  unfolding UniqueTokens
  found_ticket s t unique at = elim (Option-cases (find_ticket u db t.qr_token s)) [
    | inl e ↦
        let missed =
          lawful.find_one-none (λ x. str_eq x.qr_token t.qr_token) s.tickets t.id t e at in
        let same = (str_eq_iff t.qr_token t.qr_token).1 refl in cc
    | inr (x, e) ↦
        let (here, same) = lawful.find_one-some (λ x. str_eq x.qr_token t.qr_token) s.tickets x e in
        e ∙ ap some (unique x t here at ((str_eq_iff x.qr_token t.qr_token).0 same))
  ]

  -- `check_in` of a ticket on every branch: what it needs, what it writes and what it answers.
  check_in_lem :
      (s : State) (t : Ticket) (event : UpstreamEvent) (caller : JwtAccessPayload) (now : ℕ)
      → UniqueTokens s
      → ticket_row t.id s ≡ some t
      → fetch_event (u.get_event t.event_id) ≡ ok event
      → check_in u db t.qr_token caller now s ≡ (
          if can_manage_restaurant caller event.restaurant_id
          then if is_checked_in t.status
            then (err (conflict (already_checked_in t.checked_in_at)), s)
            else (
              ok (to_lookup_result (admit caller now t) event),
              record s { tickets = db.save (admit caller now t) s.tickets },
            )
          else (err (forbidden other_restaurant), s))
  unfolding check_in get_ticket_and_event_or_throw
  check_in_lem s t event caller now unique at fetched = ground (arith, found_ticket s t unique at)

  -- What `check_in` leaves under each key.
  row-admit :
      (s : State) (t : Ticket) (caller : JwtAccessPayload) (now k : ℕ)
      → ticket_row t.id s ≡ some t
      → ticket_row k (record s { tickets = db.save (admit caller now t) s.tickets })
        ≡ (if t.id == k then some (admit caller now t) else ticket_row k s)
  row-admit s t caller now k at = lawful.row-save (admit caller now t) s.tickets k

  -- The tokens stay unique.
  UniqueTokens-admit :
      (s : State) (t : Ticket) (caller : JwtAccessPayload) (now : ℕ)
      → UniqueTokens s
      → ticket_row t.id s ≡ some t
      → UniqueTokens (record s { tickets = db.save (admit caller now t) s.tickets })
  unfolding UniqueTokens
  UniqueTokens-admit s t caller now unique at a b here there same =
      let admitted : Ticket = admit caller now t in
      let first = sym here ∙ lawful.row-save admitted s.tickets a.id in
      let second = sym there ∙ lawful.row-save admitted s.tickets b.id in
      elim (Bool-cases (t.id == a.id)) [
        | inl p ↦ elim (Bool-cases (t.id == b.id)) [
          | inl q ↦ ground arith
          | inr q ↦ let e = unique t b at (ground arith) (ground arith) in ground arith
        ]
        | inr p ↦ elim (Bool-cases (t.id == b.id)) [
          | inl q ↦ let e = unique a t (ground arith) at (ground arith) in ground arith
          | inr q ↦ unique a b (ground arith) (ground arith) same
        ]
      ]

  -- Where tokens are unique and the ticket's event is known, staff that may manage its restaurant
  -- check the ticket in; after that every attempt with its token, by anybody at any time, fails and
  -- changes nothing: staff get a conflict that tells when, others are refused.
  pub check_in-once :
      (s : State) (t : Ticket) (event : UpstreamEvent) (caller caller' : JwtAccessPayload)
      (now now' : ℕ)
      → UniqueTokens s
      → ticket_row t.id s ≡ some t
      → fetch_event (u.get_event t.event_id) ≡ ok event
      → is_checked_in t.status ≡ false
      → can_manage_restaurant caller event.restaurant_id ≡ true
      → let (r, s') = check_in u db t.qr_token caller now s in
        (r ≡ ok (to_lookup_result (admit caller now t) event))
        × (ticket_row t.id s' ≡ some (admit caller now t))
        × (check_in u db t.qr_token caller' now' s' ≡ (
          if can_manage_restaurant caller' event.restaurant_id
              then err (conflict (already_checked_in (some now)))
              else err (forbidden other_restaurant),
          s',
        ))
  check_in-once s t event caller caller' now now' unique at fetched fresh allowed =
      let t' : Ticket = admit caller now t in
      let s1 : State = record s { tickets = db.save t' s.tickets } in
      let first : check_in u db t.qr_token caller now s ≡ (ok (to_lookup_result t' event), s1) =
        ground (arith, check_in_lem s t event caller now unique at fetched) in
      let kept : ticket_row t.id s1 ≡ some t' = ground (arith, row-admit s t caller now t.id at) in
      let again =
        check_in_lem s1 t' event caller' now' (UniqueTokens-admit s t caller now unique at) kept
          fetched in
      let state = ap (λ x. x.1) first in
      (
        ap (λ x. x.0) first,
        ap (ticket_row t.id) state ∙ kept,
        subst
            (λ x. check_in u db t.qr_token caller' now' x ≡ (
              if can_manage_restaurant caller' event.restaurant_id
                  then err (conflict (already_checked_in (some now)))
                  else err (forbidden other_restaurant),
              x,
            ))
            (sym state) (again ∙ ground arith),
      )
