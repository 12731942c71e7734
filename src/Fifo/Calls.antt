-- ===== src/Fifo/Calls.antt =====
-- What the shared memory stands for: the calls that are queued in it, in order.
use qemu_win.Prelude.{ℕ, ◌+◌, ◌≡◌, List, [], ◌∷◌, length}
use qemu_win.Fifo.Defs.{Memory, first_fifo, first_data, even_up}

-- a call of the guest's: the function, its argument words, and the buffers that it sends
pub record Call : Type 0 where
  pub fenum : ℕ
  pub args : List ℕ
  pub chunks : List (List ℕ)

-- each buffer takes an even number of words
abbrev pub span : List (List ℕ) → ℕ
span [] = 0
span (x ∷ xs) = even_up (length x) + span xs

abbrev pub fifo_end : ℕ → List Call → ℕ
fifo_end i [] = i
fifo_end i (c ∷ cs) = fifo_end (i + 1 + length c.args) cs

abbrev pub data_end : ℕ → List Call → ℕ
data_end j [] = j
data_end j (c ∷ cs) = data_end (j + span c.chunks) cs

-- the words from an index on
abbrev pub Words : Memory → ℕ → List ℕ → Type 0
Words m i [] = Unit
Words m i (x ∷ xs) = (m i ≡ x) × Words m (i + 1) xs

abbrev pub Chunks : Memory → ℕ → List (List ℕ) → Type 0
Chunks m j [] = Unit
Chunks m j (x ∷ xs) = Words m j x × Chunks m (j + even_up (length x)) xs

module _ (max_fifo : ℕ) where
  abbrev pub Holds : Memory → ℕ → ℕ → Call → Type 0
  Holds m i j c = (m i ≡ c.fenum) × Words m (i + 1) c.args × Chunks m (max_fifo + j) c.chunks

  -- the calls from a queue index and a data index on
  abbrev pub Stored : Memory → ℕ → ℕ → List Call → Type 0
  Stored m i j [] = Unit
  Stored m i j (c ∷ cs) = Holds m i j c × Stored m (i + 1 + length c.args) (j + span c.chunks) cs

  -- the whole queue, with its two counters
  pub record Queued (m : Memory) (cs : List Call) : Type 0 where
    pub stored : Stored m first_fifo first_data cs
    pub fifo_at : m 0 ≡ fifo_end first_fifo cs
    pub data_at : m max_fifo ≡ data_end first_data cs
