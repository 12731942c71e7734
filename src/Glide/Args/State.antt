-- ===== src/Glide/Args/State.antt =====
-- glidept_mm.c: the state of the device that processArgs reads and writes. Pointers are offsets
-- from the places that they point into.
use qemu_win.Prelude.{
  ℕ, ◌+◌, ◌*◌, ◌/◌, ◌%◌, Bool, Option, some, List, ◌∷◌, ◌==◌, if◌then◌else◌, update, u32,
}

-- `s->hshm` plus an offset, `outshm` plus an offset, what LookupGrState and LookupVtxLayout return
-- for a handle, `s->vtxCache`, and a number that is no pointer of the host
pub data Ptr : Type 0 where
  hshm : ℕ → Ptr
  outshm : ℕ → Ptr
  gr_state : ℕ → Ptr
  vtx_layout : ℕ → Ptr
  vtx_cache : Ptr
  plain : ℕ → Ptr

-- What a case does to memory, files and the window; a list of effects has the latest first.
pub data Effect : Type 0 where
  -- `memcpy(outshm + to, hshm + from, cb)`
  copy_out : ℕ → ℕ → ℕ → Effect
  -- the header of the texture at `outshm`, and its data
  tex_info : Option Ptr → Effect
  -- the size of the host's LFB description at an offset of `outshm`
  lfb_info : ℕ → Effect
  -- the same with the write mode and the origin
  lfb_info_full : ℕ → ℕ → ℕ → Effect
  -- the vertices of a polygon are gathered by their indices
  gather_vertices : ℕ → Effect
  -- pointers to `n` vertices of a size, at `outshm`
  vertex_ptrs : ℕ → ℕ → Effect
  -- the address of `hshm` is stored at an offset of it
  store_hshm : ℕ → Effect
  push_cfg : Effect
  push_tex_file : Effect
  -- the description of a 3df file is cleared, or gets the host's buffer
  info_3df_clear : Effect
  info_3df_data : Effect
  flush_lfb : Effect
  write_frame : Effect
  frame_stat : Effect
  renderer_stat : ℕ → Effect

-- GlideLfbState
pub record LfbDev : Type 0 where
  pub origin : ℕ
  pub write_mode : ℕ
  pub by_pass : ℕ
  pub gr_buffer : ℕ
  pub gr_lock : ℕ
  pub guest_lfb : ℕ
  -- index 0 reads, index 1 writes
  pub lock : ℕ → ℕ
  pub begun : Bool
  pub emu211 : Bool

-- GlidePTState
pub record GlidePt : Type 0 where
  pub fenum : ℕ
  pub arg : ℕ → ℕ
  -- `none`: not set since the call began
  pub parg : ℕ → Option Ptr
  pub datacb : ℕ
  pub fret : ℕ
  pub init_dll : ℕ
  pub lfb_dirty : ℕ
  pub lfb_real : Bool
  pub lfb_noaux : Bool
  pub lfb_merge : Bool
  -- whether `GrTex.fbuf` is set, and `GrTex.flen`
  pub fbuf : Bool
  pub flen : ℕ
  pub lfb_dev : LfbDev
  pub effects : List Effect

pub record Host : Type 0 where
  -- size_vertex3x()
  pub vertex3x : ℕ
  -- the word that `hshm` points to
  pub first_word : ℕ
  -- `mem_required` of the 3df file that was described last
  pub mem_required : ℕ
  -- glide_vsyncoff() and glide_lfbdirty()
  pub vsync_off : Bool
  pub lfb_dirty_mask : ℕ

abbrev pub Case : Type 0
Case = List ℕ × (GlidePt → GlidePt)

-- ALIGNED, exact and in 32 bits
abbrev pub aligned : ℕ → ℕ
aligned x = if (x % 8) == 0 then x else (x / 8 + 1) * 8

abbrev pub aligned32 : ℕ → ℕ
aligned32 x = u32 (aligned (u32 x))

abbrev pub set_parg : ℕ → Ptr → GlidePt → GlidePt
set_parg i p s = record s { parg = update s.parg i (some p) }

abbrev pub set_arg : ℕ → ℕ → GlidePt → GlidePt
set_arg i v s = record s { arg = update s.arg i v }

abbrev pub set_datacb : ℕ → GlidePt → GlidePt
set_datacb cb s = record s { datacb = u32 cb }

abbrev pub effect : Effect → GlidePt → GlidePt
effect e s = record s { effects = e ∷ s.effects }

abbrev pub effect_if : Bool → Effect → GlidePt → GlidePt
effect_if b e s = record s { effects = if b then e ∷ s.effects else s.effects }
