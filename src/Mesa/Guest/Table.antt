-- ===== src/Mesa/Guest/Table.antt =====
-- The tables of the wrappers, and what each makes the two sides skip.
use qemu_win.Prelude.{ℕ, ◌+◌, ◌≡◌, Option, none, some, List, [], ◌∷◌, ◌++◌, is_in, if◌then◌else◌}
use qemu_win.Fifo.Defs.{num_data, even_up}
use qemu_win.Mesa.Args.State.{Prepared}
use qemu_win.Mesa.Args.{process_data}
use qemu_win.Mesa.Guest.Ops.{Sent, func, buffers, queued, Wrapper, Row, row}
use qemu_win.Mesa.Guest.Unprepared.{unprepared, no_case}
use qemu_win.Mesa.Guest.FixedA.{fixed_a}
use qemu_win.Mesa.Guest.FixedB.{fixed_b}
use qemu_win.Mesa.Guest.FixedC.{fixed_c}
use qemu_win.Mesa.Guest.FixedD.{fixed_d}
use qemu_win.Mesa.Guest.FixedE.{fixed_e}
use qemu_win.Mesa.Guest.CountedA.{counted_a}
use qemu_win.Mesa.Guest.CountedB.{counted_b}
use qemu_win.Mesa.Guest.CountedC.{counted_c}

unfoldable pub fixed_wrappers : List Wrapper
unfolding fixed_a fixed_b fixed_c fixed_d fixed_e
fixed_wrappers = fixed_a ++ (fixed_b ++ (fixed_c ++ (fixed_d ++ fixed_e)))

unfoldable pub counted_wrappers : List Row
unfolding counted_a counted_b counted_c
counted_wrappers = counted_a ++ (counted_b ++ counted_c)

-- a wrapper with data of a fixed size sends nothing that wraps round
unfoldable pub fixed_rows : List Wrapper → List Row
fixed_rows [] = []
fixed_rows (w ∷ ws) = row w (λ strlen a. 0) ∷ fixed_rows ws

unfoldable pub data_wrappers : List Row
unfolding fixed_rows fixed_wrappers
data_wrappers = counted_wrappers ++ fixed_rows (fixed_wrappers ++ unprepared)

unfoldable pub no_wrapper : Row
no_wrapper = row (λ strlen a. queued 0 0 []) (λ strlen a. 0)

-- the words that fifoAddData takes for the buffers
abbrev pub sent_words : List (ℕ × ℕ) → ℕ
sent_words [] = 0
sent_words ((i, cb) ∷ sent) = even_up (num_data cb) + sent_words sent

abbrev pub words_of : Option Prepared → Option ℕ
words_of none = none
words_of (some p) = some (num_data p.datacb)

-- the text that `hshm` points to is the one that the guest has sent
abbrev pub text_length : (ℕ → ℕ) → (ℕ → ℕ) → List (ℕ × ℕ) → ℕ
text_length strlen a [] = 0
text_length strlen a ((i, cb) ∷ sent) = strlen (a i)

-- the words that the host is expected to skip: those that the guest has pushed, or none where it
-- has no case
abbrev pub expected : Sent → Option ℕ
expected s = if is_in no_case (func s) then none else some (sent_words (buffers s))

-- what processArgs makes the host skip
abbrev pub skipped : (ℕ → ℕ) → (ℕ → ℕ) → Sent → Option ℕ
skipped strlen a s = words_of (process_data (func s) a (text_length strlen a (buffers s)))

abbrev pub IsSynced : (ℕ → ℕ) → (ℕ → ℕ) → Sent → Type 0
IsSynced strlen a s = skipped strlen a s ≡ expected s
