-- ===== src/Gateway.antt =====
-- src/network/gateway: the OUCH gateway's parts.
pub mod Fifo
pub mod Tokens
pub mod Server
pub mod Framing
pub mod Routing
pub mod Rounds
pub mod Sequencing
pub mod Isolation
