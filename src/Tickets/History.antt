-- ===== src/Tickets/History.antt =====
-- Tickets over histories of the requests that checkin-service serves.
use ceylon_events.Common.{
  ℕ, ◌≡◌, refl, ◌∙◌, ap, inl, inr, true, some, List, [], ◌∷◌, arith, err, Exception, body, status,
  unreachable, Response, IsRepository, Option-cases, Result-cases, Repository, String, str_eq,
}
use ceylon_events.Shared.{is_checked_in, JwtAccessPayload}
use ceylon_events.Tickets.Types.{Ticket, Upstream, State, same_ticket, UpstreamOrder, Reason}
use ceylon_events.Tickets.{
  fetch_event, admit, find_ticket, get_ticket_and_event_or_throw, check_in, get_for_order,
  fetch_order_as_caller,
}
use ceylon_events.Tickets.Door.{ticket_row}
use ceylon_events.Tickets.Draws.{Kept}
use ceylon_events.Tickets.Issue.{get_for_order-run}

-- `checks_in token caller now` and `views order authorization`.
pub data Request : Type 0 where
  checks_in : String → JwtAccessPayload → ℕ → Request
  views : ℕ → ℕ → Request

module _ (u : Upstream) (db : Repository Ticket) where
  pub serve : Request → State → State
  serve (checks_in token caller now) s = (check_in u db token caller now s).1
  serve (views order_id authorization) s =
      (get_for_order u db (λ i t. t) order_id authorization s).1

  pub serve_all : List Request → State → State
  serve_all [] s = s
  serve_all (r ∷ rs) s = serve_all rs (serve r s)

  module _ (lawful : IsRepository (λ t. t.id) same_ticket db) where
    check_in-admitted :
        (token : String) (caller : JwtAccessPayload) (now : ℕ) (s : State) (t : Ticket)
        → ticket_row t.id s ≡ some t
        → is_checked_in t.status ≡ true
        → ticket_row t.id (check_in u db token caller now s).1 ≡ some t
    unfolding check_in get_ticket_and_event_or_throw
    check_in-admitted token caller now s t at done =
        elim (Option-cases (find_ticket u db token s)) [
          | inl e ↦ ground arith
          | inr (x, e) ↦
              let (here, same) =
                lawful.find_one-some (λ y. str_eq y.qr_token token) s.tickets x e in
              elim (Result-cases (fetch_event (u.get_event x.event_id))) [
                | inr (problem, q) ↦ ground arith
                | inl (event, q) ↦
                    ground (arith, lawful.row-save (admit caller now x) s.tickets t.id)
              ]
        ]

    not_fetched :
        (order_id authorization : ℕ) (s : State) (e : Exception Reason)
        → fetch_order_as_caller (u.get_order order_id authorization) ≡ err e
        → (get_for_order u db (λ i t. t) order_id authorization s).1 ≡ s
    unfolding get_for_order
    not_fetched order_id authorization s e h = ground arith

    get_for_order-Kept :
        (order_id authorization : ℕ) (s : State)
        → Kept s.tickets (get_for_order u db (λ i t. t) order_id authorization s).1.tickets
    get_for_order-Kept order_id authorization s = go (u.get_order order_id authorization) refl
      where
        go :
            (r : Response UpstreamOrder)
            → u.get_order order_id authorization ≡ r
            → Kept s.tickets (get_for_order u db (λ i t. t) order_id authorization s).1.tickets
        go (body order) e =
            elim (get_for_order-run u db lawful (λ i t. t) (λ i t k y at. at) order_id authorization
              order s e) [
                | inl (unsettled, run) ↦ λ k y at. ap (λ x. ticket_row k x.1) run ∙ at
                | inr (settled, tickets, s', run, kept, served) ↦
                    λ k y at. ap (λ x. ticket_row k x.1) run ∙ kept k y at
              ]
        go (status n) e =
            elim (Result-cases (fetch_order_as_caller (u.get_order order_id authorization))) [
              | inr (problem, q) ↦
                  λ k y at. ap (ticket_row k) (not_fetched order_id authorization s problem q) ∙ at
              | inl (order, q) ↦ absurd (unfold fetch_order_as_caller in ground arith)
            ]
        go unreachable e =
            elim (Result-cases (fetch_order_as_caller (u.get_order order_id authorization))) [
              | inr (problem, q) ↦
                  λ k y at. ap (ticket_row k) (not_fetched order_id authorization s problem q) ∙ at
              | inl (order, q) ↦ absurd (unfold fetch_order_as_caller in ground arith)
            ]

    -- Once a ticket is checked in, no history of check-ins and of buyers viewing orders changes it:
    -- it keeps the time and the staff member of its one check-in, and its token.
    pub admitted_forever :
        (rs : List Request) (s : State) (t : Ticket)
        → ticket_row t.id s ≡ some t
        → is_checked_in t.status ≡ true
        → ticket_row t.id (serve_all rs s) ≡ some t
    unfolding serve serve_all
    admitted_forever [] s t at done = at
    admitted_forever (checks_in token caller now ∷ rs) s t at done =
        admitted_forever rs (check_in u db token caller now s).1 t
          (check_in-admitted token caller now s t at done) done
    admitted_forever (views order_id authorization ∷ rs) s t at done =
        admitted_forever rs (get_for_order u db (λ i x. x) order_id authorization s).1 t
          (get_for_order-Kept order_id authorization s t.id t at) done
