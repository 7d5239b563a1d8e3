-- ===== src/Market.antt =====
-- src/network/market: the market data publisher and the snapshot streamer.
pub mod Shadow
pub mod Replay
pub mod Window
pub mod Publisher
pub mod Recovery
pub mod Source
pub mod Mirror
pub mod Snapshot
pub mod Sockets
pub mod Requests
pub mod Replies
