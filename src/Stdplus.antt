-- ===== src/Stdplus.antt =====
-- The helpers of src/stdplus.
pub mod Ranges
pub mod Eint
mod Tests
