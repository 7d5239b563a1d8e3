-- ===== src/Tests.antt =====
-- Runs on small inputs, and the theorems at inputs that meet their hypotheses.
mod Books
mod Engines
mod Mirrors
mod Vectors
mod Gateways
mod Feeds
mod Requests
mod Servers
mod Rounds
mod Exchanges
