-- ===== src/LogBridge.antt =====
-- log_bridge.go and log_file.go: the bus of log events and its sinks, logcat and a rotating file.
pub mod Capture
pub mod Level
pub mod Sink
pub mod Bus
pub mod Loop
mod Tests
