-- ===== src/Tests.antt =====
-- A service with a small world outside, runs of it, and the theorems at concrete data. The world is
-- a counter: ids and times are read off it.
mod Demo
mod Uploading
mod Outcomes
mod Listing
mod Trees
mod Serving
mod Messages
mod Starting
mod Databases
