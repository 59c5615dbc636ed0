-- ===== src/Tickets/Draws.antt =====
-- What an item of an order gets: a ticket that is there, or a new one with a token that is drawn.
use ceylon_events.Common.{
  ℕ, ◌≤◌, ◌<◌, ◌≡◌, refl, sym, subst, ap, ◌∙◌, inl, inr, false, Option, none, some, List, [], ◌∷◌,
  arith, ◌==◌, ◌+◌, ok, All, Result, insert-fresh_row, IsRepository, row, row-key, Option-cases,
  Bool-cases, Repository, str_eq,
}
use ceylon_events.Tickets.Types.{
  Ticket, UpstreamOrder, UpstreamOrderItem, Upstream, State, Reason, same_ticket,
}
use ceylon_events.Tickets.{by_item, new_ticket, issue, ticket_for}

-- The rows of a table are in another one.
abbrev pub Kept : List Ticket → List Ticket → Type 0
Kept t t' = (k : ℕ) (y : Ticket) → row (λ x. x.id) k t ≡ some y → row (λ x. x.id) k t' ≡ some y

-- The ticket is in the table, and is for the item.
abbrev pub IsFor : List Ticket → UpstreamOrderItem → Ticket → Type 0
IsFor table item t = (t.order_item_id ≡ item.id) × (row (λ x. x.id) t.id table ≡ some t)

-- No ticket has a token of the draws from `drawn` on.
abbrev pub Undrawn : Upstream → ℕ → List Ticket → Type 0
Undrawn u drawn table =
    (n k : ℕ) (y : Ticket)
    → row (λ x. x.id) k table ≡ some y
    → drawn ≤ n
    → str_eq (u.random_uuid n) y.qr_token ≡ false

-- `randomUUID()` draws no token twice, and other requests write none that is drawn here.
pub record IsRandom (u : Upstream) (others : ℕ → List Ticket → List Ticket) : Type 0 where
  pub no_repeat : (m n : ℕ) → m < n → str_eq (u.random_uuid n) (u.random_uuid m) ≡ false
  pub others-Undrawn : (i n : ℕ) (t : List Ticket) → Undrawn u n t → Undrawn u n (others i t)

-- What one item gets.
abbrev pub IsSomeFor : List Ticket → UpstreamOrderItem → Option Ticket → Type 0
IsSomeFor table item none = ⊥
IsSomeFor table item (some t) = IsFor table item t

by_item-IsFor :
    (existing table : List Ticket) (item : UpstreamOrderItem) (t : Ticket)
    → All (λ x. row (λ y. y.id) x.id table ≡ some x) existing
    → by_item existing item.id ≡ some t
    → IsFor table item t
by_item-IsFor [] table item t stored e = cc
by_item-IsFor (x ∷ existing) table item t (at, stored) e =
    elim (Option-cases (by_item existing item.id)) [
      | inr (later, e') ↦ by_item-IsFor existing table item t stored (ground (arith, e'))
      | inl e' ↦ (ground (arith, e'), ground (arith, e'))
    ]

module _ (u : Upstream) (db : Repository Ticket) (lawful : IsRepository (λ t. t.id) same_ticket db)
    (others : ℕ → List Ticket → List Ticket)
    (keeps : (i : ℕ) (t : List Ticket) → Kept t (others i t)) where
  -- What a method call returned, and left; where tokens are random, the item has its ticket.
  abbrev pub Got : UpstreamOrderItem → State → Result Reason (Option Ticket) × State → Type 0
  Got item s out =
      (found : Option Ticket) × (s' : State) × (out ≡ (ok found, s'))
      × Kept s.tickets s'.tickets
      × (IsRandom u others
          → Undrawn u s.uuids s.tickets
          → Undrawn u s'.uuids s'.tickets × IsSomeFor s'.tickets item found)

  -- Where the insert failed, and the token was not taken, another ticket has the item.
  clash-IsSomeFor :
      (table : List Ticket) (item : UpstreamOrderItem) (ticket : Ticket) (n : ℕ)
      → ticket.id ≡ db.fresh table
      → ticket.order_item_id ≡ item.id
      → ticket.qr_token ≡ u.random_uuid n
      → db.insert ticket table ≡ none
      → Undrawn u n table
      → IsSomeFor table item (db.find_one (λ t. t.order_item_id == item.id) table)
  clash-IsSomeFor table item ticket n fresh of_item drawn failed undrawn =
      elim (Option-cases (db.find_one (λ t. t.order_item_id == item.id) table)) [
        | inr (t, e) ↦
            let (at, same) = lawful.find_one-some (λ t. t.order_item_id == item.id) table t e in
            subst (IsSomeFor table item) (sym e) (ground arith, at)
        | inl e ↦
            let (k, y, at, taken) = lawful.insert-none ticket table failed in
            let missed = lawful.find_one-none (λ t. t.order_item_id == item.id) table k y e at in
            let other = undrawn n k y at (omega arith) in
            absurd (
              ground (
                arith,
                lawful.row-fresh table,
                row-key (λ x. x.id) table k y at,
                ap (λ q. str_eq q y.qr_token) drawn,
              ))
      ]

  -- A new ticket takes the token of its draw only.
  insert-Undrawn :
      (table table' : List Ticket) (ticket : Ticket) (n : ℕ)
      → IsRandom u others
      → ticket.qr_token ≡ u.random_uuid n
      → db.insert ticket table ≡ some table'
      → Undrawn u n table
      → Undrawn u (n + 1) table'
  insert-Undrawn table table' ticket n random drawn e undrawn m k y at later =
      let law = lawful.row-insert ticket table table' k e in
      elim (Bool-cases (ticket.id == k)) [
        | inl hit ↦
            let same : ticket ≡ y = ground arith in
            ap (λ t. str_eq (u.random_uuid m) t.qr_token) (sym same)
            ∙ ap (str_eq (u.random_uuid m)) drawn
            ∙ random.no_repeat n m (omega arith)
        | inr miss ↦ undrawn m k y (ground arith) (omega arith)
      ]

  issue-Got :
      (order : UpstreamOrder) (item : UpstreamOrderItem) (s : State)
      → Got item s (issue u db others order item s)
  issue-Got order item s =
      let table = others item.id s.tickets in
      let ticket = new_ticket u db order item (record { tickets = table; uuids = s.uuids }) in
      elim (Option-cases (db.insert ticket table)) [
        | inr (table', e) ↦
            let (in_it, stay) = insert-fresh_row (λ x. x.id) lawful ticket table table' refl e in
            (
              some ticket,
              record { tickets = table'; uuids = s.uuids + 1 },
              ground (arith, e),
              λ k y at. stay k y (keeps item.id s.tickets k y at),
              λ random undrawn. (
                insert-Undrawn table table' ticket s.uuids random refl e
                    (random.others-Undrawn item.id s.uuids s.tickets undrawn),
                (refl, in_it),
              ),
            )
        | inl e ↦ (
          db.find_one (λ t. t.order_item_id == item.id) table,
          record { tickets = table; uuids = s.uuids + 1 },
          ground (arith, e),
          keeps item.id s.tickets,
          λ random undrawn.
              let still = random.others-Undrawn item.id s.uuids s.tickets undrawn in
              (
                λ n k y at later. still n k y at (omega arith),
                clash-IsSomeFor table item ticket s.uuids refl refl refl e still,
              ),
        )
      ]

  pub ticket_for-Got :
      (existing : List Ticket) (order : UpstreamOrder) (item : UpstreamOrderItem) (s : State)
      → All (λ x. row (λ y. y.id) x.id s.tickets ≡ some x) existing
      → Got item s (ticket_for u db others existing order item s)
  ticket_for-Got existing order item s stored = elim (Option-cases (by_item existing item.id)) [
    | inr (t, e) ↦ (
      some t,
      s,
      ground (arith, e),
      λ k y at. at,
      λ random undrawn. (undrawn, by_item-IsFor existing s.tickets item t stored e),
    )
    | inl e ↦
        let (found, s', same, kept, gets) = issue-Got order item s in
        (found, s', ground (arith, e, same), kept, gets)
  ]
