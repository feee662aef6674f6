-- ===== src/Core.antt =====
-- core.go: the messages that every protocol shares.
pub mod SetupConnection
pub mod SetupConnectionSuccess
pub mod SetupConnectionError
pub mod ChannelEndpointChanged
pub mod Reconnect
