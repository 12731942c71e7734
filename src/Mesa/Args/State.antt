-- ===== src/Mesa/Args/State.antt =====
-- mesapt_mm.c, processArgs: what a case that takes data from the shared memory sets.
use qemu_win.Prelude.{ℕ, ◌+◌, ◌*◌, ◌/◌, ◌%◌, List, ◌==◌, if◌then◌else◌}

-- `datacb`, and the pointers `parg[i]` as offsets from `hshm`
pub record Prepared : Type 0 where
  pub datacb : ℕ
  pub pargs : List (ℕ × ℕ)

-- the arguments, and the length of the text that `hshm` points to
abbrev pub Case : Type 0
Case = List ℕ × ((ℕ → ℕ) → ℕ → Prepared)

-- ALIGNED
abbrev pub aligned : ℕ → ℕ
aligned x = if (x % 8) == 0 then x else (x / 8 + 1) * 8

abbrev pub gl_color : ℕ
gl_color = 0x1800
