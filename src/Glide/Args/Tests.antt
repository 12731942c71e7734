-- ===== src/Glide/Args/Tests.antt =====
-- Runs of processArgs.
use qemu_win.Prelude.{ℕ, ◌+◌, ◌≡◌, refl, true, false, none, [], arith}
use qemu_win.Glide.FEnum.{gr_lfb_begin, gr_lfb_lock, gr_tex_download_mip_map}
use qemu_win.Glide.Dispatch.{library_calls}
use qemu_win.Glide.Args.State.{GlidePt, Host, LfbDev}
use qemu_win.Glide.Args.{process_args}
use qemu_win.Glide.Args.Laws.{all_set, process_args-all_set}

abbrev a_host : Host
a_host = record {
  vertex3x = 36;
  first_word = 64;
  mem_required = 0;
  vsync_off = false;
  lfb_dirty_mask = 0x80;
}

abbrev a_dev : LfbDev
a_dev = record {
  origin = 0;
  write_mode = 4;
  by_pass = 0;
  gr_buffer = 1;
  gr_lock = 1;
  guest_lfb = 0xfb000000;
  lock = λ i. 1;
  begun = false;
  emu211 = true;
}

-- a call of the function `f` with the arguments 0, 1, 2, ...
abbrev a_call : ℕ → GlidePt
a_call f = record {
  fenum = f;
  arg = λ i. i;
  parg = λ i. none;
  datacb = 0;
  fret = 0;
  init_dll = 0x243a0;
  lfb_dirty = 1;
  lfb_real = false;
  lfb_noaux = true;
  lfb_merge = false;
  fbuf = false;
  flen = 0;
  lfb_dev = a_dev;
  effects = [];
}

begin_locks : (process_args a_host (a_call gr_lfb_begin)).fenum ≡ gr_lfb_lock
unfolding process_args
begin_locks = refl

mip_map_bytes : (process_args a_host (a_call gr_tex_download_mip_map)).datacb ≡ 24 + 8
unfolding process_args
mip_map_bytes = refl

process_args-all_set_example :
    all_set
      (process_args a_host (a_call gr_lfb_begin)).parg
      (library_calls true false (process_args a_host (a_call gr_lfb_begin)).fenum)
    ≡ true
process_args-all_set_example = process_args-all_set a_host (a_call gr_lfb_begin) false (omega arith)
