-- ===== src/Wrappers.antt =====
-- The library that the guest wrappers share, wrappers/fxlib.
pub mod Hook
pub mod Md5
