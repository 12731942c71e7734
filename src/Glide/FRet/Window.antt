-- ===== src/Glide/FRet/Window.antt =====
-- glidept_mm.c, processFRet: the cases of the library's life and of the window.
use qemu_win.Prelude.{
  ℕ, ◌*◌, false, not, ◌&&◌, List, [], ◌∷◌, ◌==◌, ◌!=◌, ltb, get_or, if◌then◌else◌, bit_and,
}
use qemu_win.Glide.FEnum
use qemu_win.Glide.Args.State.{aligned, aligned32}
use qemu_win.Glide.Args.Draw.{size_grvertex}
use qemu_win.Glide.FRet.State.{
  free_vertices, keep_version, renderer_stat, open_window, close_window, clear_frame, init_ext,
  start_stat, last_stat, free_states, clear_args, remove_cfg, info_3df, clear_layout, set_layout,
  GlideDev, RetHost, RetCase, does, does_if, set_dev, set_fret,
}

abbrev pub size_grstate : ℕ
size_grstate = 312

-- GR_PASSTHRU, GR_GLIDE_STATE_SIZE, GR_GLIDE_VERTEXLAYOUT_SIZE, GR_VERTEX_PARAMETER
abbrev pub gr_passthru : ℕ
gr_passthru = 3

abbrev pub gr_glide_state_size : ℕ
gr_glide_state_size = 6

abbrev pub gr_glide_vertexlayout_size : ℕ
gr_glide_vertexlayout_size = 7

abbrev pub gr_vertex_parameter : ℕ
gr_vertex_parameter = 0x29

-- tblRes, and glide_winres
abbrev pub tbl_res : List (ℕ × ℕ)
tbl_res =
    (320, 200)
    ∷ (320, 240)
    ∷ (400, 256)
    ∷ (512, 384)
    ∷ (640, 200)
    ∷ (640, 350)
    ∷ (640, 400)
    ∷ (640, 480)
    ∷ (800, 600)
    ∷ (960, 720)
    ∷ (856, 480)
    ∷ (512, 256)
    ∷ (1024, 768)
    ∷ (1280, 1024)
    ∷ (1600, 1200)
    ∷ (400, 300)
    ∷ []

unfoldable pub glide_winres : RetHost → ℕ → ℕ × ℕ
glide_winres host res = get_or tbl_res res (host.beyond res)

-- grEnable, grDisable
abbrev pub enable : GlideDev → GlideDev
enable d =
    does_if (d.pt.arg 0 == gr_passthru)
      (renderer_stat (if d.pt.fenum == FEnum.gr_enable then 1 else 0)) d

-- grSstControl, grSstPassthruMode
abbrev pub sst_control : GlideDev → GlideDev
sst_control d = does (renderer_stat (bit_and (d.pt.arg 0) 1)) d

abbrev pub sst_opened : GlideDev → GlideDev
sst_opened d =
    does (open_window (d.pt.arg 0)) (set_dev (record d.pt.lfb_dev { guest_lfb = d.pt.arg 6 }) d)

module _ (host : RetHost) where
  -- grSstWinOpen, grSstWinOpenExt, for a resolution that the device accepts
  abbrev pub win_opened : GlideDev → GlideDev
  win_opened d =
      let merge = d.pt.init_dll == 0x243a0 && (not host.lfb_mode && host.lfb_merge) in
      let res = glide_winres host (d.pt.arg 1) in
      let h = if ltb 0x300 res.1 then 0x300 else res.1 in
      let t =
        does_if (not host.lfb_mode) (clear_frame (h * 0x800)) (does (open_window (d.pt.arg 1)) d) in
      record t {
        pt = record d.pt {
          lfb_dev = record d.pt.lfb_dev {
            origin = d.pt.arg 4;
            guest_lfb = if d.pt.fenum == FEnum.gr_sst_win_open_ext then d.pt.arg 8 else d.pt.arg 7;
          };
          lfb_real = host.lfb_mode;
          lfb_noaux = host.lfb_noaux;
          lfb_merge = merge;
          lfb_dirty = if host.lfb_mode then d.pt.lfb_dirty else 1;
        };
        gr_res = d.pt.arg 1;
        lfb_w = if host.lfb_mode then d.lfb_w else res.0;
        lfb_h = if host.lfb_mode then d.lfb_h else h;
      }

  abbrev pub win_open : GlideDev → GlideDev
  win_open d = if ltb 0x0f (bit_and (d.pt.arg 1) 0xff) then set_fret 0 d else win_opened d

  abbrev pub glide_inited : GlideDev → GlideDev
  glide_inited d =
      let t = does start_stat (does_if (d.pt.init_dll == 0x301a0) init_ext d) in
      record t {
        pt = record d.pt {
          lfb_dev = record d.pt.lfb_dev {
            begun = false;
            gr_buffer = 1;
            gr_lock = 1;
            guest_lfb = 0;
            lock = λ i. 0;
          };
        };
        sz_gr_state = aligned size_grstate;
        sz_vtx_layout = aligned size_grvertex;
        stride = λ i. 0;
        lfb_ptr = λ i. 0;
        lfb_max = 0;
        fifo_max = 0;
        data_max = 0;
      }

  abbrev pub glide_shutdown : GlideDev → GlideDev
  glide_shutdown d =
      if host.has_stat
      then record (does_if d.cfg_pushed remove_cfg
          (does clear_args (does free_states (does last_stat d)))) {
            pt = record d.pt { arg = λ i. if ltb i 16 then 0 else d.pt.arg i };
            cfg_pushed = false;
          }
      else d

  abbrev pub buffer_swapped : GlideDev → GlideDev
  buffer_swapped = set_fret host.fps_limit

  -- gu3dfGetInfo, gu3dfLoad
  abbrev pub got_info : GlideDev → GlideDev
  got_info d = does_if (d.pt.fret != 0) (info_3df host.has_table) d

  abbrev pub got : GlideDev → GlideDev
  got d = record d {
    sz_gr_state =
        if d.pt.fret != 0 && d.pt.arg 0 == gr_glide_state_size
        then aligned32 host.out_word
        else d.sz_gr_state;
    sz_vtx_layout =
        if d.pt.fret != 0 && d.pt.arg 0 == gr_glide_vertexlayout_size
        then aligned32 host.out_word
        else d.sz_vtx_layout;
  }

  unfoldable pub window_cases : List RetCase
  window_cases =
      (
        FEnum.gr_draw_polygon ∷ FEnum.gr_aadraw_polygon ∷ FEnum.gr_draw_planar_polygon ∷ [],
        does free_vertices,
      )
      ∷ (FEnum.gr_glide_get_version ∷ [], does keep_version)
      ∷ (FEnum.gr_disable ∷ FEnum.gr_enable ∷ [], enable)
      ∷ (FEnum.gr_sst_control ∷ FEnum.gr_sst_passthru_mode ∷ [], sst_control)
      ∷ (FEnum.gr_sst_open ∷ [], sst_opened)
      ∷ (FEnum.gr_sst_win_open ∷ FEnum.gr_sst_win_open_ext ∷ [], win_open)
      ∷ (
        FEnum.gr_sst_win_close ∷ FEnum.gr_sst_win_close3x ∷ [],
        λ d. does last_stat (does close_window d),
      )
      ∷ (FEnum.gr_glide_init ∷ [], glide_inited)
      ∷ (FEnum.gr_glide_shutdown ∷ [], glide_shutdown)
      ∷ (FEnum.gr_buffer_swap ∷ [], buffer_swapped)
      ∷ (FEnum.gu3df_get_info ∷ FEnum.gu3df_load ∷ [], got_info)
      ∷ (FEnum.gr_get ∷ [], got)
      ∷ (FEnum.gr_reset ∷ [], λ d. does_if (d.pt.arg 0 == gr_vertex_parameter) clear_layout d)
      ∷ (
        FEnum.gr_vertex_layout ∷ [],
        λ d. does (set_layout (d.pt.arg 0) (d.pt.arg 1) (d.pt.arg 2)) d,
      )
      ∷ []
