-- ===== src/Registry.antt =====
-- The singly linked registries of the host: `gllstbuf.c`, `mglmapbo.c` and `mglvarry.c` each walk a
-- list to the first node that a test accepts, and append a fresh node behind the last one if
-- there is none. The walk is written once; each component gives the test and the fresh node.
mod Defs
mod Laws
mod Addresses
pub use Defs.*
pub use Laws.*
pub use Addresses.*
