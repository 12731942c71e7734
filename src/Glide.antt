-- ===== src/Glide.antt =====
-- The host side of the 3Dfx Glide device, qemu-0/hw/3dfx.
pub mod StBuf
pub mod FEnum
pub mod Symbols
pub mod Dispatch
pub mod Args
pub mod Vertex3x
pub mod FRet
pub mod Guest
