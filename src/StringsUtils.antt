-- ===== src/StringsUtils.antt =====
-- src/strings_utils.cpp.
pub mod Hex
mod Tests
