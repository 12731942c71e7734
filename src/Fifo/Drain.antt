-- ===== src/Fifo/Drain.antt =====
-- processFifo runs exactly the calls that the shared memory stands for, in their order.
use qemu_win.Prelude.{
  ℕ, zero, suc, ◌+◌, ◌≤◌, ◌<◌, ◌≡◌, refl, ◌∙◌, ap, ◌⊎◌, inl, inr, true, false, some, List, [], ◌∷◌,
  arith, length, All, ltb, lt→ltb, ltb-false,
}
use qemu_win.Fifo.Defs.{num_data}
use qemu_win.Fifo.Host.{Chan, run_entry, drain}
use qemu_win.Fifo.Calls.{Call, span, fifo_end, data_end, Holds, Stored}
use qemu_win.Fifo.Frame.{Stored-frame, fifo_end-ge}

module _ {D : Type 0} (max_fifo : ℕ) (args_cnt : ℕ → ℕ) (exec : Chan D → Chan D) (limit : ℕ) where
  -- what the host must do with a call: know the number of its arguments, set `datacb` to the room
  -- that its buffers take, and leave alone the counters and what is queued behind the call, up to
  -- the word `limit`, from which on the host may write its answers
  pub record Served (c : Call) : Type 0 where
    pub args : args_cnt c.fenum ≡ length c.args
    pub consumed :
        (s : Chan D) (i j : ℕ)
        → Holds max_fifo s.mem i j c
        → num_data (run_entry max_fifo args_cnt exec i j s).datacb ≡ span c.chunks
    pub keeps :
        (s : Chan D) (i j : ℕ)
        → Holds max_fifo s.mem i j c
        → (k : ℕ)
        → (k ≡ 0)
          ⊎ (((i + 1 + length c.args ≤ k) × (k ≤ max_fifo))
              ⊎ ((max_fifo + j + span c.chunks ≤ k) × (k < limit)))
        → (run_entry max_fifo args_cnt exec i j s).mem k ≡ s.mem k

  -- the calls made one after another, each with its arguments and its buffers in place
  unfoldable pub run_calls : ℕ → ℕ → List Call → Chan D → Chan D
  run_calls i j [] s = s
  run_calls i j (c ∷ cs) s =
      run_calls (i + 1 + length c.args) (j + span c.chunks) cs
        (exec (record s { fenum = c.fenum; datacb = 0; arg = i + 1; hshm = max_fifo + j }))

  drain-stop :
      (fuel i j : ℕ) (s : Chan D)
      → ltb i (s.mem 0) ≡ false
      → drain max_fifo args_cnt exec (suc fuel) i j s ≡ some (i, j, s)
  unfolding drain
  drain-stop fuel i j s h = rw (h, drain)

  drain-more :
      (fuel i j : ℕ) (s : Chan D)
      → ltb i (s.mem 0) ≡ true
      → let s' = run_entry max_fifo args_cnt exec i j s in
        drain max_fifo args_cnt exec (suc fuel) i j s
        ≡ drain max_fifo args_cnt exec fuel (i + 1 + args_cnt (s.mem i)) (j + num_data s'.datacb) s'
  unfolding drain
  drain-more fuel i j s h = rw (h, drain)

  pub drain-run_calls :
      (cs : List Call) (fuel i j : ℕ) (s : Chan D)
      → length cs < fuel
      → 0 < i
      → Stored max_fifo s.mem i j cs
      → s.mem 0 ≡ fifo_end i cs
      → fifo_end i cs ≤ max_fifo
      → max_fifo + data_end j cs ≤ limit
      → All Served cs
      → drain max_fifo args_cnt exec fuel i j s
        ≡ some (fifo_end i cs, data_end j cs, run_calls i j cs s)
  unfolding run_calls run_entry
  drain-run_calls [] zero i j s f pos st e room lim ok = absurd (omega arith)
  drain-run_calls [] (suc fuel) i j s f pos st e room lim ok =
      drain-stop fuel i j s (ltb-false i (s.mem 0) (omega arith))
  drain-run_calls (c ∷ cs) zero i j s f pos st e room lim ok = absurd (omega arith)
  drain-run_calls (c ∷ cs) (suc fuel) i j s f pos st e room lim ok =
      let i' : ℕ = i + 1 + length c.args in
      let j' : ℕ = j + span c.chunks in
      let s' : Chan D = run_entry max_fifo args_cnt exec i j s in
      let more : ltb i (s.mem 0) ≡ true =
        lt→ltb i (s.mem 0) (omega (arith, e, fifo_end-ge i' cs)) in
      let nargs : args_cnt (s.mem i) ≡ length c.args = ap args_cnt st.0.0 ∙ ok.0.args in
      let ndata : num_data s'.datacb ≡ span c.chunks = ok.0.consumed s i j st.0 in
      let keeps = ok.0.keeps s i j st.0 in
      let e' : s'.mem 0 ≡ fifo_end i' cs = keeps 0 (inl refl) ∙ e in
      let st' : Stored max_fifo s'.mem i' j' cs =
        Stored-frame max_fifo s.mem s'.mem i' j' cs (λ k a b. keeps k (inr (inl (a, omega arith))))
          (λ k a b. keeps k (inr (inr (omega arith, omega arith)))) st.1 in
      drain-more fuel i j s more
      ∙ rw (nargs, ndata, ← st.0.0)
          (drain-run_calls cs fuel i' j' s' (omega arith) (omega arith) st' e' room lim ok.1)
