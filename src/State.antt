-- ===== src/State.antt =====
-- The state of the driver that outlives a restart (pkg/state).
pub mod Strings
pub mod Types
pub mod Table
pub mod Store
pub mod Laws
pub mod Spec
pub mod EqualIds
