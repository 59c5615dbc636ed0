-- ===== src/Tests.antt =====
-- The services run on concrete inputs, over the repositories and the Redis in memory.
mod Seats
mod Ordering
mod Paying
mod Entry
mod Bundles
mod Dining
mod Accounts
mod Stars
mod Listings
mod Drawing
mod Reporting
mod Menus
mod Uploads
mod Routing
mod Inbox
mod Builder
