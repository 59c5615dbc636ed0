-- ===== src/Tests/Entry.antt =====
-- checkin-service on one confirmed order.
use ceylon_events.Common.{
  ℕ, zero, suc, ◌<◌, ◌≡◌, refl, ap, ◌∙◌, ◌≢◌, inl, inr, false, none, some, List, [], ◌∷◌, length,
  codes, String, str_eq, str_eq_iff, Bool-cases, arith, ok, err, conflict, body, Repository,
}
use ceylon_events.Common.Memory.{memory, memory-IsRepository}
use ceylon_events.Shared.{JwtAccessPayload, OrderStatus, can_manage_restaurant, issued}
use ceylon_events.Tickets.Types.{
  Ticket, UpstreamOrder, UpstreamOrderItem, UpstreamEvent, Upstream, TicketWithQr, State,
  same_ticket, already_checked_in,
}
use ceylon_events.Tickets.{check_in, fetch_event, admit, get_for_order}
use ceylon_events.Tickets.Door.{ticket_row, UniqueTokens, check_in-once}
use ceylon_events.Tickets.History.{checks_in, views, serve_all, admitted_forever}
use ceylon_events.Tickets.Draws.{Undrawn, IsRandom}
use ceylon_events.Tickets.Issue.{AllShown, get_for_order_lem}

abbrev item_6 : UpstreamOrderItem
item_6 = record { id = 6; order_id = 40; ticket_tier_id = 9; seat_id = none; seat_label = none }

abbrev order_40 : UpstreamOrder
order_40 = record {
  id = 40;
  buyer_id = 70;
  event_id = 5;
  status = OrderStatus.confirmed;
  items = item_6 ∷ [];
}

abbrev gala : UpstreamEvent
gala = record { id = 5; restaurant_id = 3; title = "Gala" }

abbrev upstream : Upstream
upstream = record {
  get_order = λ id authorization. body order_40;
  get_event = λ id. body gala;
  random_uuid = λ n. "Q";
  to_data_url = λ text. text;
}

abbrev tickets_table : Repository Ticket
tickets_table = memory (λ t. t.id) same_ticket

abbrev ticket_1 : Ticket
ticket_1 = record {
  id = 1;
  order_id = 40;
  order_item_id = 6;
  buyer_id = 70;
  event_id = 5;
  ticket_tier_id = 9;
  seat_id = none;
  seat_label = none;
  qr_token = "Q";
  status = issued;
  checked_in_at = none;
  checked_in_by_user_id = none;
}

abbrev unused : State
unused = record { tickets = []; uuids = 0 }

abbrev printed : State
printed = record { tickets = ticket_1 ∷ []; uuids = 1 }

abbrev staff : JwtAccessPayload
staff = record { sub = 80; roles = []; restaurant_id = some 3 }

printed-UniqueTokens : UniqueTokens printed
unfolding UniqueTokens
printed-UniqueTokens a b here there same = ground arith

check_in-once_example :
    let s' = (check_in upstream tickets_table "Q" staff 500 printed).1 in
    check_in upstream tickets_table "Q" staff 600 s'
    ≡ (err (conflict (already_checked_in (some 500))), s')
unfolding can_manage_restaurant fetch_event
check_in-once_example =
    (check_in-once upstream tickets_table (memory-IsRepository (λ t. t.id) same_ticket) printed
      ticket_1 gala staff staff 500 600 printed-UniqueTokens refl refl refl refl).2

-- The nth token is n letters long.
abbrev letters : ℕ → String
letters zero = String.[]
letters (suc n) = String.◌∷◌ "a" (letters n)

codes-letters : (n : ℕ) → length (codes (letters n)) ≡ n
codes-letters zero = refl
codes-letters (suc n) = ap suc (codes-letters n)

letters-ne : (m n : ℕ) → m < n → str_eq (letters n) (letters m) ≡ false
letters-ne m n h = elim (Bool-cases (str_eq (letters n) (letters m))) [
  | inr e ↦ e
  | inl e ↦
      let same = ap (λ t. length (codes t)) ((str_eq_iff (letters n) (letters m)).0 e) in
      absurd (omega (arith, same, codes-letters n, codes-letters m))
]

starts-with_a : (n : ℕ) → codes (letters n) ≢ b'Q' ∷ []
starts-with_a zero h = cc
starts-with_a (suc n) h = ground arith

letters-ne_q : (n : ℕ) → str_eq (letters n) "Q" ≡ false
letters-ne_q n = elim (Bool-cases (str_eq (letters n) "Q")) [
  | inr e ↦ e
  | inl e ↦ absurd (starts-with_a n (ap codes ((str_eq_iff (letters n) "Q").0 e)))
]

-- One of the two items has its ticket.
abbrev two_items : UpstreamOrder
two_items = record order_40 { items = item_6 ∷ record item_6 { id = 7 } ∷ [] }

abbrev drawing : Upstream
drawing = record upstream { get_order = λ id authorization. body two_items; random_uuid = letters }

drawing-IsRandom : IsRandom drawing (λ i t. t)
drawing-IsRandom = record { no_repeat = letters-ne; others-Undrawn = λ i n t h. h }

printed-Undrawn : Undrawn drawing 1 (ticket_1 ∷ [])
printed-Undrawn n k y at h =
    let token : y.qr_token ≡ "Q" = ground arith in ap (str_eq (letters n)) token ∙ letters-ne_q n

get_for_order_lem_example :
    (shown : List TicketWithQr) × (s' : State) × (get_for_order drawing tickets_table
        (λ i t. t)
        40
        1
        printed
      ≡ (ok shown, s'))
    × AllShown drawing s'.tickets two_items.items shown
get_for_order_lem_example =
    elim (get_for_order_lem drawing tickets_table (memory-IsRepository (λ t. t.id) same_ticket)
      (λ i t. t) (λ i t k y at. at) 40 1 two_items printed drawing-IsRandom printed-Undrawn refl) [
        | inl (unsettled, run) ↦ absurd (unsettled refl)
        | inr (settled, shown, s', run, kept, served) ↦ (shown, s', run, served)
      ]

abbrev inside : State
inside = record { tickets = admit staff 500 ticket_1 ∷ []; uuids = 1 }

admitted_forever_example :
    ticket_row 1
      (serve_all upstream tickets_table (checks_in "Q" staff 600 ∷ views 40 1 ∷ []) inside)
    ≡ some (admit staff 500 ticket_1)
admitted_forever_example =
    admitted_forever upstream tickets_table (memory-IsRepository (λ t. t.id) same_ticket)
      (checks_in "Q" staff 600 ∷ views 40 1 ∷ []) inside (admit staff 500 ticket_1) refl refl
