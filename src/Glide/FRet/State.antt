-- ===== src/Glide/FRet/State.antt =====
-- glidept_mm.c: the state that processFRet changes beyond that of processArgs, what it finds, and
-- what it does outside. The two entries of an array are a function of the index.
use qemu_win.Prelude.{ℕ, Bool, ◌&&◌, List, ◌∷◌, ◌!=◌, if◌then◌else◌, update}
use qemu_win.Glide.Args.State.{GlidePt, LfbDev}

pub data RetEffect : Type 0 where
  free_vertices : RetEffect
  keep_version : RetEffect
  renderer_stat : ℕ → RetEffect
  -- init_window of a resolution, fini_window
  open_window : ℕ → RetEffect
  close_window : RetEffect
  -- the shared frame buffer is cleared from an offset on, for as many bytes
  clear_frame : ℕ → RetEffect
  -- Glide 3: init_g3ext, and the strings for the guest
  init_ext : RetEffect
  start_stat : RetEffect
  last_stat : RetEffect
  free_states : RetEffect
  clear_args : RetEffect
  remove_cfg : RetEffect
  -- the mapping of a host address for the guest, writable or not
  map_buf : ℕ → ℕ → Bool → RetEffect
  unmap_buf : ℕ → RetEffect
  -- wrReadRegion of a buffer, and the copy from the host's pointer, to an offset of the shared
  -- frame buffer, with the width and the number of rows
  read_region : ℕ → ℕ → ℕ → ℕ → RetEffect
  copy_frame : ℕ → ℕ → ℕ → ℕ → RetEffect
  -- the description that the guest gets: pointer, stride, write mode, origin
  guest_info : ℕ → ℕ → ℕ → ℕ → RetEffect
  -- the description of a 3df file, with its table or without
  info_3df : Bool → RetEffect
  clear_layout : RetEffect
  set_layout : ℕ → ℕ → ℕ → RetEffect

pub record GlideDev : Type 0 where
  pub pt : GlidePt
  -- lfbDev: lfbPtr, stride, and mbufo's hva and mapsz; index 0 reads, index 1 writes
  pub lfb_ptr : ℕ → ℕ
  pub stride : ℕ → ℕ
  pub hva : ℕ → ℕ
  pub mapsz : ℕ → ℕ
  pub lfb_max : ℕ
  pub lfb_w : ℕ
  pub lfb_h : ℕ
  pub gr_res : ℕ
  pub sz_gr_state : ℕ
  pub sz_vtx_layout : ℕ
  pub fifo_max : ℕ
  pub data_max : ℕ
  pub cfg_pushed : Bool
  pub done : List RetEffect

-- what the library and the window answer
pub record RetHost : Type 0 where
  -- the library's description of the locked buffer
  pub info_ptr : ℕ
  pub info_stride : ℕ
  pub info_write_mode : ℕ
  pub info_origin : ℕ
  -- glide_mapbufo(0, 0)
  pub zero_copy : Bool
  pub fps_limit : ℕ
  -- glide_lfbmode(), glide_lfbnoaux(), glide_lfbmerge()
  pub lfb_mode : Bool
  pub lfb_noaux : Bool
  pub lfb_merge : Bool
  -- the width and the height that stand at an index beyond the table of resolutions
  pub beyond : ℕ → ℕ × ℕ
  -- whether `perfs.last` or `perfs.stat` is set
  pub has_stat : Bool
  -- the word at `outshm`, and texTableValid of the described file
  pub out_word : ℕ
  pub has_table : Bool

abbrev pub RetCase : Type 0
RetCase = List ℕ × (GlideDev → GlideDev)

abbrev pub does : RetEffect → GlideDev → GlideDev
does e d = record d { done = e ∷ d.done }

abbrev pub does_if : Bool → RetEffect → GlideDev → GlideDev
does_if b e d = record d { done = if b then e ∷ d.done else d.done }

abbrev pub set_dev : LfbDev → GlideDev → GlideDev
set_dev l d = record d { pt = record d.pt { lfb_dev = l } }

abbrev pub set_fret : ℕ → GlideDev → GlideDev
set_fret v d = record d { pt = record d.pt { fret = v } }

-- `glide_mapbufo(&s->lfbDev->mbufo[i], add)`
module _ (host : RetHost) where
  abbrev pub map_buffer : ℕ → GlideDev → GlideDev
  map_buffer i d =
      does_if (host.zero_copy && d.hva i != 0) (map_buf (d.hva i) (d.mapsz i) (i != 0)) d

  abbrev pub unmap_buffer : ℕ → GlideDev → GlideDev
  unmap_buffer i d =
      let live = host.zero_copy && d.hva i != 0 in
      record d {
        done = if live then unmap_buf (d.hva i) ∷ d.done else d.done;
        hva = update d.hva i (if live then 0 else d.hva i);
      }
