-- ===== src/GroupTest.antt =====
-- grouptest/grouptest.go: measuring proxy groups the way mihomo's own health check does.
pub mod Order
pub mod Run
pub mod Pick
mod Tests
