-- ===== src/Mesa/FEnum.antt =====
-- mglfunci.h: the numbers of the OpenGL functions that send data of a counted size.
mod PartA
mod PartB
mod PartC
mod PartD
mod PartE
mod PartF
mod PartG
pub use PartA.*
pub use PartB.*
pub use PartC.*
pub use PartD.*
pub use PartE.*
pub use PartF.*
pub use PartG.*
