-- ===== src/Mesa/Guest/Quiet.antt =====
-- wrapgl32.c: the wrappers without data, against the cases of processArgs that take data.
use qemu_win.Prelude.{
  ℕ, zero, suc, ◌<◌, ◌≡◌, refl, Bool, true, false, ◌&&◌, List, [], ◌∷◌, Option, none, some, get_or,
  length, arith,
}
use qemu_win.Mesa.Args.State.{Prepared}
use qemu_win.Mesa.Args.{process_data}
use qemu_win.Mesa.Guest.Ops.{Sent, func}
use qemu_win.Mesa.Guest.Plain.{plain_wrappers}

is_none : Option Prepared → Bool
is_none none = true
is_none (some p) = false

is_none-none : (o : Option Prepared) → is_none o ≡ true → o ≡ none
unfolding is_none
is_none-none none h = refl
is_none-none (some p) h = ground (arith, h)

module _ (a : ℕ → ℕ) (len : ℕ) where
  all_quiet : List Sent → Bool
  unfolding is_none
  all_quiet [] = true
  all_quiet (s ∷ ss) = is_none (process_data (func s) a len) && all_quiet ss

  all_quiet-get_or :
      (ss : List Sent) (k : ℕ) (d : Sent)
      → k < length ss
      → all_quiet ss ≡ true
      → process_data (func (get_or ss k d)) a len ≡ none
  unfolding all_quiet
  all_quiet-get_or [] k d lt h = ground arith
  all_quiet-get_or (s ∷ ss) zero d lt h = is_none-none _ (ground (arith, h))
  all_quiet-get_or (s ∷ ss) (suc k) d lt h =
      all_quiet-get_or ss k d (omega arith) (ground (arith, h))

  plain_quiet : all_quiet plain_wrappers ≡ true
  unfolding all_quiet plain_wrappers process_data
  plain_quiet = refl

  -- None of the wrappers in the table that only hand their arguments on is of a function for which
  -- the modelled cases of processArgs take data, whatever the arguments are.
  pub plain_wrapper-no_data :
      (k : ℕ) (d : Sent)
      → k < length plain_wrappers
      → process_data (func (get_or plain_wrappers k d)) a len ≡ none
  plain_wrapper-no_data k d lt = all_quiet-get_or plain_wrappers k d lt plain_quiet
