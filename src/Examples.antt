-- ===== src/Examples.antt =====
-- The theorems at concrete inputs, and tests of the definitions.
mod QueryIds
mod Wallets
mod Drawings
mod Gas
mod Library
mod Traces
mod Ingests
mod Payments
mod Cells
mod Broadcasts
mod Requests
mod Polls
mod Deliveries
mod Retries
