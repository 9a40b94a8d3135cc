-- ===== src/Tests.antt =====
-- Sample data, tests by evaluation, and the theorems applied to concrete inputs.
mod Samples
mod Days
mod Placing
mod Planning
mod Snapshots
mod Changes
mod Vacations
mod Chats
mod Messages
mod Stores
mod Confirming
mod Adding
mod Stored
mod Chained
mod Calls
