-- ===== src/Examples.antt =====
-- Tests: the theorems at concrete inputs.
pub mod Data
pub mod Members
pub mod Spread
pub mod Protocol
pub mod Rings
pub mod Leaving
pub mod Pings
pub mod Healing
