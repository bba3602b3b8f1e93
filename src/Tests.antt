-- ===== src/Tests.antt =====
-- Runs of the definitions at concrete inputs, and the instances of the theorems at them.
mod Bookings
mod Slots
mod Libraries
mod Applications
mod Schedules
mod Tenancies
mod Shops
mod Outboxes
mod Staff
mod Notices
