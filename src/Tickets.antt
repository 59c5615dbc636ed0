-- ===== src/Tickets.antt =====
-- checkin-service: services/checkin-service/src/tickets/tickets.service.ts. Tickets are written when a
-- buyer first looks at a confirmed order, and checked in at the door.
pub mod Types
pub mod Door
pub mod Draws
pub mod Issue
pub mod History
use ceylon_events.Common.{
  ℕ, ◌+◌, Bool, true, false, not, Option, none, some, List, [], ◌∷◌, map, ◌==◌, if◌then◌else◌,
  String, str_eq, Action, Result, ok, err, not_found, forbidden, conflict, bad_gateway,
  internal_error, pure, gets, lift, modify, throw_if, or_throw, try_catch, ◌>>=◌, ◌>>◌, Repository,
  Response, body, status, unreachable,
}
use ceylon_events.Shared.{
  is_confirmed_order, is_checked_in, TicketStatus, issued, checked_in, JwtAccessPayload,
  can_manage_restaurant,
}
use Types.{
  Ticket, UpstreamOrder, UpstreamOrderItem, UpstreamEvent, TicketWithQr, TicketLookupResult, Reason,
  Upstream, State, order_not_found, may_not_view_tickets, order_service_error,
  order_service_unavailable, event_not_found, event_service_unavailable, ticket_not_found,
  other_restaurant, already_checked_in,
}

unfoldable pub fetch_order_as_caller : Response UpstreamOrder → Result Reason UpstreamOrder
fetch_order_as_caller (body order) = ok order
fetch_order_as_caller (status code) =
    if code == 404
    then err (not_found order_not_found)
    else if code == 403
    then err (forbidden may_not_view_tickets)
    else err (bad_gateway order_service_error)
fetch_order_as_caller unreachable = err (bad_gateway order_service_unavailable)

unfoldable pub fetch_event : Response UpstreamEvent → Result Reason UpstreamEvent
fetch_event (body event) = ok event
fetch_event (status code) =
    if code == 404
    then err (not_found event_not_found)
    else err (bad_gateway event_service_unavailable)
fetch_event unreachable = err (bad_gateway event_service_unavailable)

pub record Located : Type 0 where
  pub ticket : Ticket
  pub event : UpstreamEvent

unfoldable pub to_lookup_result : Ticket → UpstreamEvent → TicketLookupResult
to_lookup_result ticket event = record {
  id = ticket.id;
  order_item_id = ticket.order_item_id;
  event_title = event.title;
  ticket_tier_id = ticket.ticket_tier_id;
  seat_label = ticket.seat_label;
  status = ticket.status;
  checked_in_at = ticket.checked_in_at;
}

-- The ticket as the door leaves it.
abbrev pub admit : JwtAccessPayload → ℕ → Ticket → Ticket
admit caller now ticket = record ticket {
  status = checked_in;
  checked_in_at = some now;
  checked_in_by_user_id = some caller.sub;
}

-- `new Map(existing.map(…))`: of two tickets of an item the later stays.
abbrev pub by_item : List Ticket → ℕ → Option Ticket
by_item [] item_id = none
by_item (ticket ∷ tickets) item_id =
    let rest = by_item tickets item_id in
    elim rest [
      | some later ↦ some later
      | none ↦ if ticket.order_item_id == item_id then some ticket else none
    ]

module _ (u : Upstream) (db : Repository Ticket) where
  abbrev pub new_ticket : UpstreamOrder → UpstreamOrderItem → State → Ticket
  new_ticket order item s = record {
    id = db.fresh s.tickets;
    order_id = order.id;
    order_item_id = item.id;
    buyer_id = order.buyer_id;
    event_id = order.event_id;
    ticket_tier_id = item.ticket_tier_id;
    seat_id = item.seat_id;
    seat_label = item.seat_label;
    qr_token = u.random_uuid s.uuids;
    status = issued;
    checked_in_at = none;
    checked_in_by_user_id = none;
  }

  abbrev pub draw : State → State
  draw s = record s { uuids = s.uuids + 1 }

  abbrev pub insert_ticket : Ticket → Action State Reason (Option Ticket)
  insert_ticket ticket s = elim (db.insert ticket s.tickets) [
    | none ↦ (err internal_error, draw s)
    | some table ↦ (ok (some ticket), record s { tickets = table; uuids = s.uuids + 1 })
  ]

  abbrev pub find_winner : UpstreamOrderItem → Action State Reason (Option Ticket)
  find_winner item s = (ok (db.find_one (λ t. t.order_item_id == item.id) s.tickets), s)

  -- What other requests commit just before the insert of an item is `others`.
  abbrev pub issue :
      (ℕ → List Ticket → List Ticket)
      → UpstreamOrder
      → UpstreamOrderItem
      → Action State Reason (Option Ticket)
  issue others order item = do
    modify (λ s. record s { tickets = others item.id s.tickets })
    ticket ← gets (new_ticket order item)
    try_catch (insert_ticket ticket) (find_winner item)

  abbrev pub ticket_for :
      (ℕ → List Ticket → List Ticket)
      → List Ticket
      → UpstreamOrder
      → UpstreamOrderItem
      → Action State Reason (Option Ticket)
  ticket_for others existing order item s = elim (by_item existing item.id) [
    | some already ↦ (ok (some already), s)
    | none ↦ issue others order item s
  ]

  -- `push`, where there is a ticket to push.
  abbrev pub push : Option Ticket → List Ticket → List Ticket
  push none tickets = tickets
  push (some ticket) tickets = ticket ∷ tickets

  pub tickets_for :
      (ℕ → List Ticket → List Ticket)
      → List Ticket
      → UpstreamOrder
      → List UpstreamOrderItem
      → Action State Reason (List Ticket)
  tickets_for others existing order [] = pure []
  tickets_for others existing order (item ∷ items) = do
    ticket ← ticket_for others existing order item
    tickets ← tickets_for others existing order items
    pure (push ticket tickets)

  unfoldable pub with_qr : Ticket → TicketWithQr
  with_qr ticket = record {
    id = ticket.id;
    order_item_id = ticket.order_item_id;
    event_id = ticket.event_id;
    ticket_tier_id = ticket.ticket_tier_id;
    seat_id = ticket.seat_id;
    seat_label = ticket.seat_label;
    status = ticket.status;
    checked_in_at = ticket.checked_in_at;
    qr_code_data_url = u.to_data_url ticket.qr_token;
  }

  issue_all :
      (ℕ → List Ticket → List Ticket) → UpstreamOrder → Action State Reason (List TicketWithQr)
  unfolding tickets_for
  issue_all others order = do
    existing ← gets (λ s. db.find (λ t. t.order_id == order.id) s.tickets)
    tickets ← tickets_for others existing order order.items
    pure (map with_qr tickets)

  pub get_for_order :
      (ℕ → List Ticket → List Ticket) → ℕ → ℕ → Action State Reason (List TicketWithQr)
  unfolding issue_all
  get_for_order others order_id authorization = do
    order ← lift (fetch_order_as_caller (u.get_order order_id authorization))
    if is_confirmed_order order.status then issue_all others order else pure []

  abbrev pub find_ticket : String → State → Option Ticket
  find_ticket qr_token s = db.find_one (λ t. str_eq t.qr_token qr_token) s.tickets

  pub get_ticket_and_event_or_throw : String → JwtAccessPayload → Action State Reason Located
  get_ticket_and_event_or_throw qr_token caller = do
    found ← gets (find_ticket qr_token)
    ticket ← or_throw found (not_found ticket_not_found)
    event ← lift (fetch_event (u.get_event ticket.event_id))
    throw_if (not (can_manage_restaurant caller event.restaurant_id)) (forbidden other_restaurant)
    pure (record { ticket = ticket; event = event })

  pub lookup : String → JwtAccessPayload → Action State Reason TicketLookupResult
  unfolding get_ticket_and_event_or_throw
  lookup qr_token caller = do
    located ← get_ticket_and_event_or_throw qr_token caller
    pure (to_lookup_result located.ticket located.event)

  pub check_in : String → JwtAccessPayload → ℕ → Action State Reason TicketLookupResult
  unfolding get_ticket_and_event_or_throw
  check_in qr_token caller now = do
    located ← get_ticket_and_event_or_throw qr_token caller
    throw_if (is_checked_in located.ticket.status)
        (conflict (already_checked_in located.ticket.checked_in_at))
    let ticket = admit caller now located.ticket
    modify (λ s. record s { tickets = db.save ticket s.tickets })
    pure (to_lookup_result ticket located.event)
