-- ===== src/Glide/Guest/Tests.antt =====
-- Runs of the guest's wrappers.
use qemu_win.Prelude.{◌+◌, ◌*◌, ◌%◌, ◌≡◌, refl, true, false, some, none, [], arith, get_or}
use qemu_win.Glide.Args.State.{Host, GlidePt, LfbDev}
use qemu_win.Glide.Guest.Ops.{Args, Env, Statics}
use qemu_win.Glide.Guest.Plain.{plain_wrappers}
use qemu_win.Glide.Guest.Rows.{wrappers, no_wrapper}
use qemu_win.Glide.Guest.Synced.{Synced}
use qemu_win.Glide.Guest.Tex.{find_tex, gu_tex_allocate_memory}
use qemu_win.Glide.Guest.Laws.{wrapper-Synced}
use qemu_win.Glide.Guest.Records.{IsBounded, or_else, allocated, gu_tex_allocate_memory-find}

abbrev a_host : Host
a_host = record {
  vertex3x = 36;
  first_word = 0;
  mem_required = 0;
  vsync_off = false;
  lfb_dirty_mask = 0x80;
}

abbrev a_dev : LfbDev
a_dev = record {
  origin = 0;
  write_mode = 4;
  by_pass = 0;
  gr_buffer = 1;
  gr_lock = 1;
  guest_lfb = 0xfb000000;
  lock = λ i. 0;
  begun = false;
  emu211 = false;
}

abbrev a_device : GlidePt
a_device = record {
  fenum = 0;
  arg = λ i. 0;
  parg = λ i. none;
  datacb = 0;
  fret = 0;
  init_dll = 0x243a0;
  lfb_dirty = 1;
  lfb_real = false;
  lfb_noaux = true;
  lfb_merge = false;
  fbuf = false;
  flen = 0;
  lfb_dev = a_dev;
  effects = [];
}

abbrev an_env : Env
an_env = record {
  word = λ i. i % 7;
  stack = 0x12ff00;
  ret = 5;
  mem_required = 131;
  opens = false;
  file_len = 0;
  lfb = 0xfb000000;
  basename = 0x401000;
}

abbrev no_textures : Statics
no_textures = record { gu_tex = []; present = true; wnd = 0 }

-- three vertices for a polygon
abbrev some_args : Args
some_args i = 3 + i * 0x1000

texture_found :
    find_tex (gu_tex_allocate_memory no_textures an_env some_args).1.gu_tex 5
    ≡ some (record { mmid = 5; small = 0x6003; large = 0x7003; aspect = 0x8003; format = 0x4003 })
unfolding gu_tex_allocate_memory find_tex
texture_found = refl

-- grAADrawPolygon of three vertices
wrapper-Synced_example :
    Synced an_env.word a_host a_device
      ((get_or wrappers 12 no_wrapper).run no_textures an_env some_args)
      (λ i. 0)
      0
      0
unfolding wrappers plain_wrappers
wrapper-Synced_example =
    wrapper-Synced a_host a_device no_textures an_env some_args (λ i. 0) 0 12 (omega arith)
      (omega arith) (omega arith)

no_textures-IsBounded : IsBounded no_textures
no_textures-IsBounded = omega arith

gu_tex_allocate_memory-find_example :
    let t = (gu_tex_allocate_memory no_textures an_env some_args).1 in
    IsBounded t
    × (t.present ≡ true)
    × (t.wnd ≡ 0)
    × (find_tex t.gu_tex 5 ≡ or_else none (allocated an_env some_args) 5)
unfolding find_tex
gu_tex_allocate_memory-find_example =
    gu_tex_allocate_memory-find no_textures an_env some_args 5 no_textures-IsBounded
