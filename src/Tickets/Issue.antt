-- ===== src/Tickets/Issue.antt =====
-- The tickets of an order.
use ceylon_events.Common.{
  ℕ, ◌≡◌, refl, ◌≢◌, ap, ◌⊎◌, inl, inr, false, Option, none, some, List, [], ◌∷◌, map, arith, ◌==◌,
  ok, body, All, IsRepository, row, Bool-cases, Repository,
}
use ceylon_events.Shared.{OrderStatus, is_confirmed_order, is_confirmed_order-eq}
use ceylon_events.Tickets.Types.{
  Ticket, UpstreamOrder, UpstreamOrderItem, TicketWithQr, Upstream, State, same_ticket,
}
use ceylon_events.Tickets.Draws.{Kept, IsFor, Undrawn, IsRandom, IsSomeFor, ticket_for-Got}
use ceylon_events.Tickets.{
  push, tickets_for, with_qr, get_for_order, issue_all, fetch_order_as_caller,
}

-- One for one and in their order, the tickets are for the items.
abbrev AllFor : List Ticket → List UpstreamOrderItem → List Ticket → Type 0
AllFor table [] [] = Unit
AllFor table [] (t ∷ ts) = ⊥
AllFor table (i ∷ is) [] = ⊥
AllFor table (i ∷ is) (t ∷ ts) = IsFor table i t × AllFor table is ts

-- The buyer is shown a stored ticket of the item, with the code of its token.
pub record IsShown (u : Upstream) (table : List Ticket) (item : UpstreamOrderItem)
    (shown : TicketWithQr) : Type 0 where
  pub ticket : Ticket
  pub stored : row (λ x. x.id) shown.id table ≡ some ticket
  pub of_item : ticket.order_item_id ≡ item.id
  pub order_item_id : shown.order_item_id ≡ item.id
  pub status : shown.status ≡ ticket.status
  pub qr_code_data_url : shown.qr_code_data_url ≡ u.to_data_url ticket.qr_token

abbrev pub AllShown : Upstream → List Ticket → List UpstreamOrderItem → List TicketWithQr → Type 0
AllShown u table [] [] = Unit
AllShown u table [] (r ∷ rs) = ⊥
AllShown u table (i ∷ is) [] = ⊥
AllShown u table (i ∷ is) (r ∷ rs) = IsShown u table i r × AllShown u table is rs

All-map :
    {A : Type 0} {P Q : A → Type 0}
    → ((i : A) → P i → Q i)
    → (items : List A) → All P items
    → All Q items
All-map f [] h = h
All-map f (i ∷ items) (h, hs) = (f i h, All-map f items hs)

IsSomeFor-Kept :
    (t t' : List Ticket) (item : UpstreamOrderItem) (x : Ticket)
    → Kept t t'
    → IsFor t item x
    → IsFor t' item x
IsSomeFor-Kept t t' item x kept (of_item, at) = (of_item, kept x.id x at)

is_confirmed_order-ne : (t : OrderStatus) → is_confirmed_order t ≡ false → t ≢ OrderStatus.confirmed
is_confirmed_order-ne t h q = ground (arith, ap is_confirmed_order q)

module _ (u : Upstream) (db : Repository Ticket) (lawful : IsRepository (λ t. t.id) same_ticket db)
    (others : ℕ → List Ticket → List Ticket)
    (keeps : (i : ℕ) (t : List Ticket) → Kept t (others i t)) where
  All-Kept :
      (t t' : List Ticket)
      → Kept t t'
      → (existing : List Ticket) → All (λ x. row (λ y. y.id) x.id t ≡ some x) existing
      → All (λ x. row (λ y. y.id) x.id t' ≡ some x) existing
  All-Kept t t' kept [] h = h
  All-Kept t t' kept (x ∷ existing) (h, hs) = (kept x.id x h, All-Kept t t' kept existing hs)

  push-AllFor :
      (found : Option Ticket) (t t' tickets : List Ticket) (item : UpstreamOrderItem)
      (items : List UpstreamOrderItem)
      → Kept t t'
      → IsSomeFor t item found
      → AllFor t' items tickets
      → AllFor t' (item ∷ items) (push u db found tickets)
  push-AllFor none t t' tickets item items kept gets rest = absurd gets
  push-AllFor (some x) t t' tickets item items kept gets rest =
      (IsSomeFor-Kept t t' item x kept gets, rest)

  tickets_for-AllFor :
      (existing : List Ticket) (order : UpstreamOrder) (items : List UpstreamOrderItem) (s : State)
      → All (λ x. row (λ y. y.id) x.id s.tickets ≡ some x) existing
      → (tickets : List Ticket) × (s' : State) × (tickets_for u db others existing order items s
          ≡ (ok tickets, s'))
        × Kept s.tickets s'.tickets
        × (IsRandom u others → Undrawn u s.uuids s.tickets → AllFor s'.tickets items tickets)
  unfolding tickets_for
  tickets_for-AllFor existing order [] s stored = ([], s, refl, λ k y at. at, λ random undrawn. tt)
  tickets_for-AllFor existing order (item ∷ items) s stored =
      let (found, s1, first, kept, gets) =
        ticket_for-Got u db lawful others keeps existing order item s stored in
      let (tickets, s2, rest, kept', others_get) =
        tickets_for-AllFor existing order items s1
          (All-Kept s.tickets s1.tickets kept existing stored) in
      (
        push u db found tickets,
        s2,
        ground (arith, first, rest),
        λ k y at. kept' k y (kept k y at),
        λ random undrawn.
            let (undrawn', mine) = gets random undrawn in
            push-AllFor found s1.tickets s2.tickets tickets item items kept' mine
              (others_get random undrawn'),
      )

  AllFor-AllShown :
      (table : List Ticket) (items : List UpstreamOrderItem) (tickets : List Ticket)
      → AllFor table items tickets
      → AllShown u table items (map (with_qr u db) tickets)
  unfolding with_qr
  AllFor-AllShown table [] [] all = tt
  AllFor-AllShown table [] (t ∷ ts) all = absurd all
  AllFor-AllShown table (i ∷ is) [] all = absurd all
  AllFor-AllShown table (i ∷ is) (t ∷ ts) ((of_item, at), all) = (
    record {
      ticket = t;
      stored = at;
      of_item = of_item;
      order_item_id = of_item;
      status = refl;
      qr_code_data_url = refl;
    },
    AllFor-AllShown table is ts all,
  )

  -- A call for an order that is not confirmed, and for one that is.
  pub get_for_order-run :
      (order_id authorization : ℕ) (order : UpstreamOrder) (s : State)
      → u.get_order order_id authorization ≡ body order
      → ((order.status ≢ OrderStatus.confirmed)
          × (get_for_order u db others order_id authorization s ≡ (ok [], s)))
        ⊎ ((order.status ≡ OrderStatus.confirmed)
            × (shown : List TicketWithQr) × (s' : State) × (get_for_order u db others order_id
                  authorization s
                ≡ (ok shown, s'))
            × Kept s.tickets s'.tickets
            × (IsRandom u others
                → Undrawn u s.uuids s.tickets
                → AllShown u s'.tickets order.items shown))
  unfolding get_for_order issue_all fetch_order_as_caller
  get_for_order-run order_id authorization order s answered =
      elim (Bool-cases (is_confirmed_order order.status)) [
        | inr unsettled ↦
            inl (is_confirmed_order-ne order.status unsettled, ground (arith, answered))
        | inl settled ↦
            let existing = db.find (λ t. t.order_id == order.id) s.tickets in
            let stored =
              All-map (λ t selected. selected.0) existing
                (lawful.find-Selected (λ t. t.order_id == order.id) s.tickets) in
            let (tickets, s', run, kept, served) =
              tickets_for-AllFor existing order order.items s stored in
            inr (
              is_confirmed_order-eq order.status settled,
              map (with_qr u db) tickets,
              s',
              ground arith,
              kept,
              λ random undrawn.
                  AllFor-AllShown s'.tickets order.items tickets (served random undrawn),
            )
      ]

  -- A buyer who looks at an order that order-service returns gets no ticket, and nothing is
  -- written, before it is confirmed. Once it is, the call returns and keeps every ticket there was;
  -- and it shows exactly one ticket for each item of the order, in the order of the items: a stored
  -- one of the item, with the code of its token. Other requests may add tickets before each insert,
  -- for the same items too, and take none away. `randomUUID()` is taken to draw no token twice, and
  -- none that is stored already or written by others.
  pub get_for_order_lem :
      (order_id authorization : ℕ) (order : UpstreamOrder) (s : State)
      → IsRandom u others
      → Undrawn u s.uuids s.tickets
      → u.get_order order_id authorization ≡ body order
      → ((order.status ≢ OrderStatus.confirmed)
          × (get_for_order u db others order_id authorization s ≡ (ok [], s)))
        ⊎ ((order.status ≡ OrderStatus.confirmed)
            × (shown : List TicketWithQr) × (s' : State) × (get_for_order u db others order_id
                  authorization s
                ≡ (ok shown, s'))
            × Kept s.tickets s'.tickets
            × AllShown u s'.tickets order.items shown)
  get_for_order_lem order_id authorization order s random undrawn answered =
      elim (get_for_order-run order_id authorization order s answered) [
        | inl unsettled ↦ inl unsettled
        | inr (settled, shown, s', run, kept, served) ↦
            inr (settled, shown, s', run, kept, served random undrawn)
      ]
