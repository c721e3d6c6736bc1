-- ===== src/Examples.antt =====
-- The theorems applied to concrete runs, reports, leases, requests, messages and completions.
mod Codec
mod Runs
mod Leases
mod Outbox
mod Requests
mod Operation
mod Flow
mod Tasks
mod Outages
mod Identity
mod Cards
mod Dependencies
mod Flush
mod Reconciling
