-- ===== src/Config.antt =====
-- The configuration of common.go and config_apply.go: which config is in use, and the order of the groups
-- that the host shows.
pub mod Read
pub mod Apply
pub mod InUse
pub mod Order
pub mod Update
pub mod Tests
pub mod UpdateTests
