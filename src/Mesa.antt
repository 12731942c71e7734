-- ===== src/Mesa.antt =====
-- The host side of the MESA GL device, qemu-1/hw/mesa.
pub mod MapBo
pub mod SzData
pub mod VertArry
pub mod VtxArry
pub mod FEnum
pub mod Symbols
pub mod Args
pub mod Regs
pub mod Guest
