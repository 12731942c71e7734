-- ===== src/Mesa/VtxArry.antt =====
-- The vertex arrays that the guest pushes through the shared memory: wrapgl32.c and mesapt_mm.c.
mod State
mod Host
mod Guest
mod Sync
mod Attribs
mod Prep
mod Rounds
mod Room
mod Tests
