-- ===== src/Proxies.antt =====
-- The proxies, groups and providers of the tunnel: proxies.go, providers.go and groups_delay.go.
pub mod Snapshot
pub mod Change
pub mod Delay
pub mod Groups
pub mod Providers
pub mod Tests
pub mod GroupTests
