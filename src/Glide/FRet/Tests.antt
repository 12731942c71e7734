-- ===== src/Glide/FRet/Tests.antt =====
-- Calls of the device from beginning to end.
use qemu_win.Prelude.{ℕ, ◌≡◌, refl, true, false, none, [], arith}
use qemu_win.Glide.FEnum
use qemu_win.Glide.Dispatch.{do_glide_func}
use qemu_win.Glide.Args.State.{Host, GlidePt, LfbDev}
use qemu_win.Glide.Args.{process_args}
use qemu_win.Glide.FRet.State.{GlideDev, RetHost}
use qemu_win.Glide.FRet.Window
use qemu_win.Glide.FRet.Laws.{IsValid}
use qemu_win.Glide.FRet.Frame.{serve-IsValid}
use qemu_win.Glide.FRet.{process_fret, prepare, serve}

abbrev a_host : Host
a_host = record {
  vertex3x = 36;
  first_word = 0;
  mem_required = 0;
  vsync_off = false;
  lfb_dirty_mask = 0x80;
}

abbrev a_dev : LfbDev
a_dev = record {
  origin = 0;
  write_mode = 0;
  by_pass = 0;
  gr_buffer = 1;
  gr_lock = 1;
  guest_lfb = 0;
  lock = λ i. 0;
  begun = false;
  emu211 = false;
}

-- a call of the function `f` with the arguments 7, 7, ...
abbrev a_call : ℕ → GlidePt
a_call f = record {
  fenum = f;
  arg = λ i. 7;
  parg = λ i. none;
  datacb = 0;
  fret = 0;
  init_dll = 0x243a0;
  lfb_dirty = 1;
  lfb_real = false;
  lfb_noaux = false;
  lfb_merge = false;
  fbuf = false;
  flen = 0;
  lfb_dev = a_dev;
  effects = [];
}

abbrev a_device : ℕ → GlideDev
a_device f = record {
  pt = a_call f;
  lfb_ptr = λ i. 0;
  stride = λ i. 0;
  hva = λ i. 0;
  mapsz = λ i. 0;
  lfb_max = 0;
  lfb_w = 640;
  lfb_h = 480;
  gr_res = 0;
  sz_gr_state = 0;
  sz_vtx_layout = 0;
  fifo_max = 0;
  data_max = 0;
  cfg_pushed = false;
  done = [];
}

abbrev some_answers : RetHost
some_answers = record {
  info_ptr = 0x7f0012345000;
  info_stride = 2048;
  info_write_mode = 0;
  info_origin = 0;
  zero_copy = true;
  fps_limit = 0;
  lfb_mode = false;
  lfb_noaux = false;
  lfb_merge = false;
  beyond = λ i. (0, 0);
  has_stat = true;
  out_word = 0;
  has_table = false;
}

abbrev a_library : ℕ → ℕ
a_library i = 1

-- grLfbLock maps the host's buffer, and says so in the return value
lock_maps : (serve a_host a_library true some_answers 1 (a_device FEnum.gr_lfb_lock)).pt.fret ≡ 0x21
unfolding serve process_fret prepare process_args
lock_maps = refl

window_height :
    (serve a_host a_library true some_answers 1 (a_device FEnum.gr_sst_win_open)).lfb_h ≡ 480
unfolding serve process_fret prepare process_args Window.glide_winres do_glide_func
window_height = refl

serve-IsValid_example :
    IsValid (serve a_host a_library true some_answers 1 (a_device FEnum.gr_sst_win_open))
unfolding process_args prepare Window.glide_winres do_glide_func
serve-IsValid_example =
    serve-IsValid a_host a_library true some_answers 1 (a_device FEnum.gr_sst_win_open)
      (record { index = omega arith; height = omega arith; width = omega arith; in_frame = tt })
      (λ opens. omega arith)
