-- ===== src/Mesa/Guest/Clears.antt =====
-- wrapgl32.c: glClearBufferfv and its like, against their case in processArgs of mesapt_mm.c.
use qemu_win.Prelude.{
  ℕ, zero, suc, ◌*◌, ◌<◌, ◌≡◌, refl, ◌∙◌, ap, some, List, [], ◌∷◌, arith, ◌==◌, if◌then◌else◌,
  get_or, length,
}
use qemu_win.Fifo.Defs.{num_data, even_up}
use qemu_win.Mesa.Args.State.{gl_color}
use qemu_win.Mesa.Args.{process_data}
use qemu_win.Mesa.Guest.Ops.{Wrapper, Sent, buffers}
use qemu_win.Mesa.Guest.Clear.{
  clear_buffer, gl_clear_bufferfv, gl_clear_bufferiv, gl_clear_bufferuiv,
}
use qemu_win.Mesa.Guest.Table.{sent_words, skipped}

unfoldable pub clear_wrappers : List Wrapper
clear_wrappers = gl_clear_bufferfv ∷ gl_clear_bufferiv ∷ gl_clear_bufferuiv ∷ []

unfoldable pub pushed : Sent → ℕ
pushed s = sent_words (buffers s)

module _ (strlen a : ℕ → ℕ) where
  Cells : Sent → Type 0
  Cells sent =
      (pushed sent ≡ (if a 0 == gl_color then 4 else 2))
      × (skipped strlen a sent ≡ some (if a 0 == gl_color then 4 else 1))

  clear_buffer-Cells :
      (f : ℕ)
      → skipped strlen a (clear_buffer f strlen a)
        ≡ some (num_data (if a 0 == gl_color then 4 * 4 else 4))
      → Cells (clear_buffer f strlen a)
  unfolding Cells pushed num_data even_up
  clear_buffer-Cells f h = (ground arith, h ∙ ap some (ground arith))

  -- For glClearBufferfv, glClearBufferiv and glClearBufferuiv, whatever the arguments are: for a
  -- colour buffer the wrapper pushes four words and the host skips four; for any other buffer the
  -- wrapper pushes two words and the host skips only one, so that the two sides part.
  pub clear_wrapper-words :
      (k : ℕ)
      → k < length clear_wrappers
      → (d : Wrapper)
      → (pushed (get_or clear_wrappers k d strlen a) ≡ (if a 0 == gl_color then 4 else 2))
        × (skipped strlen a (get_or clear_wrappers k d strlen a)
            ≡ some (if a 0 == gl_color then 4 else 1))
  unfolding clear_wrappers Cells gl_clear_bufferfv gl_clear_bufferiv gl_clear_bufferuiv process_data
  clear_wrapper-words zero lt d = clear_buffer-Cells _ refl
  clear_wrapper-words (suc zero) lt d = clear_buffer-Cells _ refl
  clear_wrapper-words (suc (suc zero)) lt d = clear_buffer-Cells _ refl
  clear_wrapper-words (suc (suc (suc k))) lt d = ground arith
