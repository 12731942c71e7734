-- ===== src/Mesa/Args.antt =====
-- mesapt_mm.c, processArgs: the cases that take data of a fixed or a counted size from the shared
-- memory.
pub mod State
mod Fixed
mod Counted
use qemu_win.Prelude.{ℕ, Option, none, some, List, [], ◌∷◌, ◌++◌, is_in, if◌then◌else◌}
use State.{Prepared, Case}
use Fixed.{fixed_cases}
use Counted.{counted_cases}

-- the first case with the label `f`; `none`: the function has another case, or none
unfoldable pub find_case : List Case → ℕ → (ℕ → ℕ) → ℕ → Option Prepared
find_case [] f a len = none
find_case ((labels, run) ∷ cases) f a len =
    let rest = find_case cases f a len in if is_in labels f then some (run a len) else rest

unfoldable pub process_data : ℕ → (ℕ → ℕ) → ℕ → Option Prepared
unfolding find_case fixed_cases counted_cases
process_data = find_case (fixed_cases ++ counted_cases)
