-- ===== src/Tests.antt =====
-- Concrete data, and the theorems at it.
pub mod Data
pub mod Queue
pub mod Delivery
pub mod Wire
pub mod Rmc
pub mod Nex
pub mod SharedState
pub mod Splatoon
