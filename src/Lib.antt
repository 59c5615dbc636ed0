-- ===== src/Lib.antt =====
-- Ceylon Events, a platform on which restaurants sell tickets and tables for their events: a model of the
-- services that sell, with proofs about it.
--
-- Parts. Restaurants publish events with tiers of tickets (event-service). A buyer picks seats on a map
-- that the restaurant drew and published, and holds them (venue-service), orders tickets for the seats or
-- for tiers without seats, with a promo code if there is one (order-service), pays by PayHere or sends a
-- proof of a bank transfer (payment-service, which then has order-service confirm the order and venue-
-- service mark its seats sold), and is checked in at the door with the QR codes of the tickets (checkin-
-- service). Tickets may come with offers that the staff redeem (offers-service), and with food that buyers
-- order ahead or waiters order at a table (food-order-service), from the menus of the restaurants
-- (restaurant-service). Accounts, sessions and invitations are those of identity-service; after the event
-- buyers rate it and its food (ratings-service), and restaurants read reports of their sales (reporting-
-- service). The services tell users of what happens through notification-service. Browsers reach the
-- services through the gateway (api-gateway), and put their pictures into an object store with URLs from
-- media-service. Each service has its own tables; they call each other over HTTP.
--
-- Files, by the code they model:
--   Shared: libs/shared-types/src/enums.ts, roles.ts, auth.ts, and the checks on a caller that the services
--     repeat in services/*/src/common/auth-helpers.ts.
--   Venue/Holds, Venue/Tables: services/venue-service/src/holds/holds.service.ts, and
--     `aggregateTableStatuses` of libs/shared-types/src/venue.ts. Venue/Redis is what the service uses of
--     Redis.
--   Venue/Maps: services/venue-service/src/seat-maps/seat-maps.service.ts: what its methods share, and the reads; its
--     edits are in Venue/Maps/Edit, the publication of a version in Venue/Maps/Publish. Venue/Maps/Types: its entities,
--     request bodies and snapshots.
--   Orders/Cart, Orders/Create, Orders/Lifecycle, Orders/Reports, Orders/Upstream:
--     services/order-service/src/orders/orders.service.ts.
--     Orders/Types: its entities, request bodies and upstream shapes.
--   Orders/PromoCodes: services/order-service/src/promo-codes/promo-codes.service.ts.
--   Payments/Service: services/payment-service/src/payments/payments.service.ts, with its notifications in
--     Payments/Service/Webhook and its proofs of payment in Payments/Service/Proofs. Payments/PayHere:
--     payhere/payhere.util.ts there.
--   Tickets: services/checkin-service/src/tickets/tickets.service.ts.
--   Offers: services/offers-service/src/offers/offers.service.ts. Offers/Types: its entities, request bodies and
--     upstream shapes.
--   Food, Food/Menu, Food/Submit, Food/Waiter, Food/Kitchen:
--     services/food-order-service/src/food-orders/food-orders.service.ts. Food/Types: the same for it.
--   Identity: services/identity-service/src/auth/auth.service.ts and users/users.service.ts. Identity/Types: the
--     same for it.
--   Ratings: services/ratings-service/src/ratings/ratings.service.ts. Ratings/Types: the same for it.
--   Restaurants: services/restaurant-service/src/restaurants/restaurants.service.ts. Restaurants/Menu: its
--     menu/menu.service.ts. Restaurants/Types: the same for them.
--   Reports: services/reporting-service/src/reports/reports.service.ts. Reports/Types: what it reads, and
--     libs/shared-types/src/report.ts.
--   Notifications: services/notification-service/src/notifications/notifications.service.ts. Notifications/Types: the
--     same for it.
--   Media: services/media-service/src/uploads/media-storage.service.ts. Gateway, Gateway/Types:
--     services/api-gateway/src/proxy/proxy.service.ts.
--   Events, Events/Tiers: services/event-service/src/events/events.service.ts and ticket-tiers/ticket-tiers.service.ts.
--     Events/Types: the same for them.
--   Canvas: drag, undo and redo of libs/seatmap-ui/src/SeatMapCanvas.tsx.
--   Common: what NestJS, TypeORM and JavaScript give every service. Tests: the services on concrete inputs.
-- A child of such a module is named for what it proves.
--
-- Correspondence. A method `fooBar` is the definition `foo_bar`; its early returns and exceptions are those
-- of the code, in their order, and a state that was written before an exception stays written, since no
-- transaction spans two writes of a method. Ids are numbers in place of UUIDs, times are milliseconds, amounts are
-- minor units; an amount that may fall below zero is an integer. The text of a message is its constructor in
-- a type `Reason`; log lines are left out, as are the texts that a service sends to notification-service and the
-- columns that the database fills, but for the times of a notification and of a version of a seat map. The
-- order in which a query lists its rows is not modelled.
--
-- Parameters. A table is a list of rows seen through `Repository`, whose laws `IsRepository` are what the
-- services rely on in TypeORM and Postgres (Common/Table); `Redis` and `IsRedis` are the same for Redis. A
-- repository and a Redis in memory meet these laws (Common/Memory, Venue/Redis/Memory), and the tests run on
-- them. Other services are records of answers, `Upstream`, over a world that their requests may change. MD5,
-- upper case, UUIDs as text and QR images are functions that the models take as arguments; so are bcrypt, JWT
-- signatures, SHA-256 and random draws, the record `Crypto` of Identity/Types; and the object store, axios and
-- what every JavaScript object inherits.
--
-- Concurrency. Where a method reads and then writes, and it matters what comes between, the other requests
-- are an argument `others` of the method: the two steps of the hold operations, each insert of a ticket,
-- the count and the insert of a redemption, and the two looks for the key of a waiter's order. The
-- publication of a seat map has two steps, `begin_publish` and `commit_publish`, which Venue/Maps/Publish/Races
-- interleaves. Elsewhere a method runs as one step, and histories are lists of requests.
--
-- Bounds. Loops are recursion on the list they go through. Only the printing of decimal digits in
-- Payments/PayHere has fuel, one more than the number to print; Payments/PayHere/Amounts shows that no
-- digit is lost.
--
-- Not modelled: the health pages; the web applications, and of the canvas of seat maps all but its
-- moves; the routing, validation and guards that NestJS does; what the clients of the object store and of
-- other services do on the wire.
pub mod Common
pub mod Canvas
pub mod Shared
pub mod Venue
pub mod Orders
pub mod Payments
pub mod Tickets
pub mod Media
pub mod Notifications
pub mod Offers
pub mod Food
pub mod Restaurants
pub mod Gateway
pub mod Identity
pub mod Ratings
pub mod Reports
pub mod Events
mod Tests
