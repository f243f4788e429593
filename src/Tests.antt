-- ===== src/Tests.antt =====
-- Runs on concrete inputs, and each theorem with hypotheses at one of them.
mod Translation
mod Stores
mod Offers
mod Trips
mod Trees
mod Serving
mod Fares
mod Templates
mod Loading
mod Starting
mod Clients
