-- ===== src/Venue/Holds/Availability.antt =====
-- `getAvailability` reads all seats at once; it agrees with looking at each seat by itself.
use ceylon_events.Venue.Redis.{Redis}
use ceylon_events.Venue.Holds.{Venue}
