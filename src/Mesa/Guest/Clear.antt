-- ===== src/Mesa/Guest/Clear.antt =====
-- wrapgl32.c: glClearBufferfv and its like.
use qemu_win.Prelude.{ℕ, ◌*◌, [], ◌∷◌, ◌==◌, if◌then◌else◌}
use qemu_win.Mesa.FEnum
use qemu_win.Mesa.Args.State.{gl_color}
use qemu_win.Mesa.Guest.Ops.{Wrapper, queued}

abbrev pub clear_buffer : ℕ → Wrapper
clear_buffer f strlen a = queued f 3 ((2, if a 0 == gl_color then 4 * 4 else 4) ∷ [])

unfoldable pub gl_clear_bufferfv : Wrapper
gl_clear_bufferfv = clear_buffer FEnum.gl_clear_bufferfv

unfoldable pub gl_clear_bufferiv : Wrapper
gl_clear_bufferiv = clear_buffer FEnum.gl_clear_bufferiv

unfoldable pub gl_clear_bufferuiv : Wrapper
gl_clear_bufferuiv = clear_buffer FEnum.gl_clear_bufferuiv
