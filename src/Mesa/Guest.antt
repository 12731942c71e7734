-- ===== src/Mesa/Guest.antt =====
-- wrapgl32.c: wrapper functions that send data of a fixed or a counted size, and those that only
-- hand their arguments on.
mod Ops
mod FixedA
mod FixedB
mod FixedC
mod FixedD
mod FixedE
mod CountedA
mod CountedB
mod CountedC
mod Clear
mod Unprepared
mod Plain
mod Table
mod Agree
mod Laws
mod Clears
mod Counts
mod Quiet
mod Tests
