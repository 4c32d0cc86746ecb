-- ===== src/Tests.antt =====
-- Runs of the model at concrete inputs, and the theorems applied there.
mod Sample
mod Codec
mod Messages
mod Ranges
mod Appends
mod Requests
mod Pages
mod Snapshots
mod Service
mod Migrations
