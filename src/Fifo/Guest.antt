-- ===== src/Fifo/Guest.antt =====
-- The guest's half: fifoAddEntry, fifoAddData and the guard of FIFO_GRFUNC, the same text in
-- wrapgl32.c and in the Glide wrappers. Counters are `int` there; the guard keeps them small.
use qemu_win.Prelude.{ℕ, zero, suc, ◌+◌, Bool, ◌&&◌, ltb, ◌==◌, if◌then◌else◌, update}
use qemu_win.Fifo.Defs.{Memory, num_data, even_up}

-- `for (i = 0; i < numArgs; i++) mfifo[j++] = pt[i];` with `pt = &mfifo[2]` and n rounds left
unfoldable pub copy_args : ℕ → ℕ → ℕ → Memory → Memory
copy_args zero i j m = m
copy_args (suc n) i j m = copy_args n (i + 1) (j + 1) (update m j (m (2 + i)))

unfoldable pub fifo_add_entry : Memory → ℕ → ℕ → Memory
fifo_add_entry m fenum num_args =
    let j = m 0 in update (copy_args num_args 0 (j + 1) (update m j fenum)) 0 (j + 1 + num_args)

-- `memcpy` of n words from the guest's buffer `src`, from its word i on
unfoldable pub copy_words : ℕ → ℕ → ℕ → (ℕ → ℕ) → Memory → Memory
copy_words zero i j src m = m
copy_words (suc n) i j src m = copy_words n (i + 1) (j + 1) src (update m j (src i))

module _ (max_fifo : ℕ) where
  -- `arg_data` is the address of the buffer, `src` its words; `pt` is `&mfifo[1]`
  unfoldable pub fifo_add_data : Memory → ℕ → ℕ → (ℕ → ℕ) → ℕ → Memory
  fifo_add_data m n_arg arg_data src cb =
      let j = m max_fifo in
      let m' = update m max_fifo (even_up (j + num_data cb)) in
      copy_words (num_data cb) 0 (max_fifo + j) src
        (update m' (1 + n_arg) (if n_arg == 0 then m' (1 + n_arg) else arg_data))

  -- the test of FIFO_GRFUNC: whether the call is queued, or handed to the host at once
  unfoldable pub can_queue : ℕ → Memory → ℕ → Bool
  can_queue max_data m num_args = ltb (m 0 + (num_args + 1)) max_fifo && ltb (m max_fifo) max_data
