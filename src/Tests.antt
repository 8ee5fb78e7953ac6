-- ===== src/Tests.antt =====
-- The theorems at concrete inputs.
pub mod World
pub mod Codes
pub mod Access
pub mod Enrolling
pub mod Routes
pub mod Outside
pub mod Files
pub mod Revoking
pub mod Describing
