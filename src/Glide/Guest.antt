-- ===== src/Glide/Guest.antt =====
-- glidedll.c: the guest's wrapper library for Glide 2.43.
mod Ops
mod Plain
mod Draw
mod Tex
mod System
mod Synced
mod Quiet
mod Drawn
mod Textured
mod Opened
mod Rows
mod Laws
mod Records
mod Tests
