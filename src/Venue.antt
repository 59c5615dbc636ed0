-- ===== src/Venue.antt =====
-- services/venue-service: seat holds in Redis, sold seats in Postgres (src/holds), and the table
-- states that other services derive from them (libs/shared-types/src/venue.ts), and seat maps
-- (src/seat-maps).
pub mod Redis
pub mod Holds
pub mod Tables
pub mod Maps
