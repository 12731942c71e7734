-- ===== src/Glide/FEnum.antt =====
-- g2xfuncs.h: FEnum_grX of the source is gr_x here.
mod Lower
mod Upper
mod More
mod Rest
pub use Lower.*
pub use Upper.*
pub use More.*
pub use Rest.*
