-- ===== src/Xfs.antt =====
-- The XFS quota helper (pkg/xfs).
pub mod Units
pub mod Ids
pub mod Projects
pub mod Quotaer
