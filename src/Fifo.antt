-- ===== src/Fifo.antt =====
-- The channel between a guest wrapper and its host device: one shared memory, in which the guest
-- queues calls and the host runs them. Both devices use this protocol, with their own size of the
-- call area: glidept_mm.c with the wrappers of wrappers/3dfx, mesapt_mm.c with wrapgl32.c.
pub mod Defs
pub mod Guest
pub mod Host
pub mod Calls
pub mod Frame
pub mod Copy
pub mod Send
pub mod Drain
pub mod Session
mod Tests
pub use Defs.*
