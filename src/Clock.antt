-- ===== src/Clock.antt =====
-- The logical clock of the kernel module, logical_clock/module.
pub mod State
pub mod Search
pub mod Notify
pub mod Fence
pub mod Counter
pub mod Entry
pub mod Tests
