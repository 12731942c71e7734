-- ===== src/Mesa/Guest/Counts.antt =====
-- wrapgl32.c against mglfptbl.h: the numbers of arguments.
use qemu_win.Prelude.{
  ℕ, zero, suc, ◌<◌, ◌≡◌, ◌≤◌, leb, refl, Bool, true, ◌&&◌, ◌+◌, is_in, if◌then◌else◌, ◌==◌, List,
  [], ◌∷◌, ◌++◌, get_or, length, arith,
}
use qemu_win.Mesa.Symbols.{glf_enum_args_cnt}
use qemu_win.Mesa.Guest.Ops.{Sent, func, stored_args, queued_args, Row}
use qemu_win.Mesa.Guest.Unprepared.{unprepared}
use qemu_win.Mesa.Guest.CountedA.{counted_a}
use qemu_win.Mesa.Guest.CountedB.{counted_b}
use qemu_win.Mesa.Guest.CountedC.{counted_c}
use qemu_win.Mesa.Guest.Plain.{plain_wrappers}
use qemu_win.Mesa.Guest.Table.{data_wrappers, counted_wrappers, fixed_rows, fixed_wrappers}

-- glFinishObjectAPPLE, glSetFenceNV, glTextureBufferEXT
abbrev pub short_calls : List ℕ
short_calls = 0x243 ∷ 0x824 ∷ 0x8fe ∷ []

-- an argument that is stored but not queued
abbrev pub left_out : ℕ → ℕ
left_out f = if is_in short_calls f then 1 else 0

is_counted : Sent → Bool
is_counted s =
    (stored_args s == glf_enum_args_cnt (func s))
    && ((queued_args s + left_out (func s) == glf_enum_args_cnt (func s)) && leb (stored_args s) 22)

all_counted : List Sent → Bool
unfolding is_counted
all_counted [] = true
all_counted (s ∷ ss) = is_counted s && all_counted ss

all_counted-get_or :
    (ss : List Sent) (k : ℕ) (d : Sent)
    → k < length ss
    → all_counted ss ≡ true
    → (stored_args (get_or ss k d) ≡ glf_enum_args_cnt (func (get_or ss k d)))
      × (queued_args (get_or ss k d) + left_out (func (get_or ss k d))
          ≡ glf_enum_args_cnt (func (get_or ss k d)))
      × (stored_args (get_or ss k d) ≤ 22)
unfolding all_counted
all_counted-get_or [] k d lt h = ground arith
all_counted-get_or (s ∷ ss) zero d lt h = (ground (arith, h), ground (arith, h), ground (arith, h))
all_counted-get_or (s ∷ ss) (suc k) d lt h =
    all_counted-get_or ss k d (omega arith) (ground (arith, h))

all_counted-append :
    (ss rs : List Sent)
    → all_counted ss ≡ true
    → all_counted rs ≡ true
    → all_counted (ss ++ rs) ≡ true
unfolding all_counted
all_counted-append [] rs hs hr = hr
all_counted-append (s ∷ ss) rs hs hr =
    ground (arith, hs, all_counted-append ss rs (ground (arith, hs)) hr)

plain_counted : all_counted plain_wrappers ≡ true
unfolding all_counted plain_wrappers glf_enum_args_cnt
plain_counted = refl

module _ (strlen a : ℕ → ℕ) where
  unfoldable pub sent_by : List Row → List Sent
  sent_by [] = []
  sent_by (r ∷ rs) = r.run strlen a ∷ sent_by rs

  unfoldable pub calls : List Sent
  unfolding sent_by
  calls = plain_wrappers ++ sent_by data_wrappers

  data_counted : all_counted (sent_by data_wrappers) ≡ true
  unfolding all_counted sent_by data_wrappers counted_wrappers counted_a counted_b counted_c
      fixed_rows fixed_wrappers unprepared glf_enum_args_cnt
  data_counted = refl

  -- For each of the wrappers of OPENGL32.DLL in the tables (those that only hand their arguments on
  -- and the 336 that send data), whatever the arguments are: the number of arguments that the
  -- wrapper stores is the one that GLFEnumArgsCnt gives the host, by which its processFifo goes on
  -- to the next call, and at most 22, the words that precede the queue; the number that it queues
  -- is the same, but one less for glFinishObjectAPPLE, glSetFenceNV and glTextureBufferEXT.
  pub wrapper-num_args :
      (k : ℕ) (d : Sent)
      → k < length calls
      → (stored_args (get_or calls k d) ≡ glf_enum_args_cnt (func (get_or calls k d)))
        × (queued_args (get_or calls k d) + left_out (func (get_or calls k d))
            ≡ glf_enum_args_cnt (func (get_or calls k d)))
        × (stored_args (get_or calls k d) ≤ 22)
  unfolding calls
  wrapper-num_args k d lt =
      all_counted-get_or _ k d lt
        (all_counted-append plain_wrappers (sent_by data_wrappers) plain_counted data_counted)
