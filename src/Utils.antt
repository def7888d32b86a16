-- ===== src/Utils.antt =====
-- The helpers of utils.
pub mod Uuid
pub mod Numbers
pub mod Strings
mod Tests
