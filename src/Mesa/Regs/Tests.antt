-- ===== src/Mesa/Regs/Tests.antt =====
-- The life of a context, write by write.
use qemu_win.Prelude.{ℕ, ◌≡◌, refl, true, false, ◌&&◌, ◌||◌, ◌==◌, ◌!=◌}
use qemu_win.Mesa.Regs.{
  Regs, Host, another, mesapt_write, write_magic, write_create, write_version, mesagl_magic,
}
use qemu_win.Mesa.Regs.Phase.{current, phase, phase_of, step, event_of}
use qemu_win.Mesa.Regs.Laws.{mesapt_write-phase}
use qemu_win.Mesa.Regs.Queue.{has_queue, is_current, mesapt_write-has_queue}

abbrev debug_message : ℕ
debug_message = 0x18c

abbrev a_host : Host
a_host = record {
  dll_ok = true;
  create_ret = 0;
  current_ret = 0;
  pt_ver = 0x5b5eb5e5;
  timer_ms = 0;
  func = another;
  word = 0;
  choose_ret = 1;
  describe_ret = 1;
  set_ret = 1;
  ext_valid = true;
  mapped = 1;
}

-- the device with the library loaded and a current context
abbrev in_use : Regs
in_use = record {
  mesa_ver = 0x320a0;
  mgl_context = 1;
  mgl_cntx_current = 1;
  mgl_cntx_wgl = 0;
  fenum = 0;
  disp_timer = false;
  pixfmt = 0;
  pixfmt_max = 0;
  proc_ret = 0;
}

-- the library is unloaded while a context is current, and a context is created again
abbrev unloaded_then_created : Regs
unloaded_then_created =
    (mesapt_write debug_message a_host 0xffc mesagl_magic
      (mesapt_write debug_message a_host 0xfbc 0xd0320 in_use).0).0

-- it counts as current, although there was no wglMakeCurrent
reopened : phase unloaded_then_created ≡ current
unfolding mesapt_write write_magic write_create write_version phase phase_of
reopened = refl

mesapt_write-phase_example :
    phase (mesapt_write debug_message a_host 0xfbc 0xd0320 in_use).0
    ≡ step (event_of a_host 0xfbc 0xd0320) (phase in_use)
mesapt_write-phase_example = mesapt_write-phase debug_message a_host 0xfbc 0xd0320 in_use

mesapt_write-has_queue_example :
    has_queue (mesapt_write debug_message a_host 0xff0 mesagl_magic in_use).1 ≡ (
      ((0xff0 == 0xfc0) && (is_current (phase in_use) || mesagl_magic == debug_message))
      || ((0xff0 != 0xfc0)
          && ((0xff0 != 0xfbc) && ((mesagl_magic == mesagl_magic) && is_current (phase in_use)))))
mesapt_write-has_queue_example =
    mesapt_write-has_queue debug_message a_host 0xff0 mesagl_magic in_use
