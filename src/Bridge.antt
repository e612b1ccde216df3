-- ===== src/Bridge.antt =====
-- The cgo bridge of lib.go and action.go: the methods and actions of the host, the replies they get, and
-- the TUN session with the callback it owns.
pub mod Method
pub mod Reply
pub mod Host
pub mod Actions
pub mod Tun
pub mod Tunnel
pub mod Listener
pub mod Tests
