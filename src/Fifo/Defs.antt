-- ===== src/Fifo/Defs.antt =====
-- The layout of the shared memory: word 0 is the end of the call queue, words 2 to 23 hold the
-- arguments of the current call, the queue stands from word 24 on. Word `max_fifo` is the end of
-- the data, counted from there, and the data stands from word `max_fifo + 2` on.
use qemu_win.Prelude.{ℕ, ◌+◌, ◌/◌, ◌%◌, ◌==◌, if◌then◌else◌}

-- the shared memory, as words by their index from `fifo_ptr`; what lies beyond it stands for what
-- the host has there
abbrev pub Memory : Type 0
Memory = ℕ → ℕ

-- FIRST_FIFO
abbrev pub first_fifo : ℕ
first_fifo = 24

-- `ALIGNED(1) >> 2`
abbrev pub first_data : ℕ
first_data = 2

-- `(cb & 0x03)? ((cb >> 2) + 1):(cb >> 2)`, the words that hold `cb` bytes; `cb` is
-- an `int`, taken to be below 2^31
unfoldable pub num_data : ℕ → ℕ
num_data cb = if (cb % 4) == 0 then cb / 4 else cb / 4 + 1

-- `(n & 0x01)? n + 1:n`
unfoldable pub even_up : ℕ → ℕ
even_up n = if (n % 2) == 0 then n else n + 1
