-- ===== src/Tests.antt =====
-- Runs of the modelled code on concrete data, and the theorems at concrete inputs.
pub mod Access
pub mod Keys
pub mod Limits
pub mod Reaction
pub mod Bin
pub mod Live
pub mod Mail
pub mod Uploads
