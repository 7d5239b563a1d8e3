-- ===== src/Protocol.antt =====
-- src/network/protocol: the translation between domain messages and the OUCH and ITCH messages.
-- The structs of the two protocols, their layout and the byte swaps are QuantLink's: a message
-- here has the struct's fields with the values in host order, as wide as the field is.
pub mod Itch
pub mod Ouch
pub mod Ownership
pub mod Echo
pub mod Bounds
