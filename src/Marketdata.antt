-- ===== src/Marketdata.antt =====
-- src/marketdata: the candles of the trade stream, and the client that receives it.
pub mod Candles
pub mod Client
pub mod Handlers
