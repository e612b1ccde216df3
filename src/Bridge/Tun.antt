-- ===== src/Bridge/Tun.antt =====
-- The TUN session of lib.go: `TunHandler`, `handleStartTun`, `handleStopTun`, `quickSetup`, and the
-- listeners of tunnel_state.go that it switches. A function that holds `tunLock`, `runLock` or the
-- semaphore is one step.
pub mod Session
pub mod Packages
pub mod Fence
pub mod Owned
pub mod Setup
