-- ===== src/Streams.antt =====
-- The streams of messages that the host subscribes to: connections.go and log_stream.go. Both keep one
-- goroutine that sends, and wait for the one before it.
pub mod Worker
pub mod Connections
pub mod Logs
pub mod Close
pub mod Tests
