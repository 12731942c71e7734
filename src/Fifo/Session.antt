-- ===== src/Fifo/Session.antt =====
-- A whole round: the guest queues calls, and the host's processFifo runs them and empties the queue.
use qemu_win.Prelude.{
  ℕ, ◌+◌, ◌≤◌, ◌<◌, ◌≡◌, refl, ◌∙◌, inl, inr, true, some, List, [], ◌∷◌, arith, length, All, ltb,
  ◌!=◌, update, if◌then◌else◌,
}
use qemu_win.Fifo.Defs.{first_fifo, first_data}
use qemu_win.Fifo.Host.{Chan, run_entry, drain, run_queue, leave_queue, process_fifo}
use qemu_win.Fifo.Calls.{Call, span, fifo_end, data_end, Stored, Queued}
use qemu_win.Fifo.Frame.{Stored-frame, fifo_end-ge}
use qemu_win.Fifo.Drain.{Served, run_calls, drain-run_calls}

module _ {D : Type 0} (max_fifo : ℕ) (args_cnt : ℕ → ℕ) (exec : Chan D → Chan D) (limit : ℕ) where
  -- the data counter survives the calls
  run_calls-counter :
      (cs : List Call) (i j : ℕ) (s : Chan D)
      → Stored max_fifo s.mem i j cs
      → fifo_end i cs ≤ max_fifo
      → max_fifo + data_end j cs ≤ limit
      → All (Served max_fifo args_cnt exec limit) cs
      → (run_calls max_fifo args_cnt exec limit i j cs s).mem max_fifo ≡ s.mem max_fifo
  unfolding run_calls run_entry
  run_calls-counter [] i j s st room lim ok = refl
  run_calls-counter (c ∷ cs) i j s st room lim ok =
      let i' : ℕ = i + 1 + length c.args in
      let j' : ℕ = j + span c.chunks in
      let s' : Chan D = run_entry max_fifo args_cnt exec i j s in
      let keeps = ok.0.keeps s i j st.0 in
      let low : i' ≤ fifo_end i' cs = fifo_end-ge i' cs in
      let st' : Stored max_fifo s'.mem i' j' cs =
        Stored-frame max_fifo s.mem s'.mem i' j' cs (λ k a b. keeps k (inr (inl (a, omega arith))))
          (λ k a b. keeps k (inr (inr (omega arith, omega arith)))) st.1 in
      rw (← st.0.0) (
        run_calls-counter cs i' j' s' st' room lim ok.1
        ∙ keeps max_fifo (inr (inl (omega arith, omega arith))))

  leave_queue-counter :
      (j : ℕ) (s : Chan D)
      → s.mem max_fifo ≡ j
      → 0 < max_fifo
      → let t = leave_queue max_fifo args_cnt exec j s in
        (t.mem max_fifo ≤ first_data)
        × (t.mem 0 ≡ s.mem 0)
        × (t.arg ≡ 2)
        × (t.datacb ≡ 0)
        × (t.hshm ≡ max_fifo + j)
        × (t.dev ≡ s.dev)
        × (t.fenum ≡ s.fenum)
  unfolding leave_queue
  leave_queue-counter j s e pos = ground arith

  -- what the guest and the host find after the queue has been run
  pub record Drained (cs : List Call) (s t : Chan D) : Type 0 where
    pub ran : t.dev ≡ (run_calls max_fifo args_cnt exec limit first_fifo first_data cs s).dev
    pub fifo_reset : t.mem 0 ≡ first_fifo
    pub data_reset : t.mem max_fifo ≤ first_data
    pub fenum_kept : t.fenum ≡ s.fenum
    pub direct_args : t.arg ≡ 2
    pub direct_data : t.hshm ≡ max_fifo + data_end first_data cs
    pub nothing_read : t.datacb ≡ 0

  process_fifo-some :
      (fuel i j : ℕ) (s r : Chan D)
      → (s.mem 0 != first_fifo) ≡ true
      → drain max_fifo args_cnt exec fuel first_fifo first_data s ≡ some (i, j, r)
      → process_fifo max_fifo args_cnt exec fuel s
        ≡ some (
            leave_queue max_fifo args_cnt exec j (record r {
              mem = update r.mem 0 first_fifo;
              fenum = s.fenum;
              fifo_max = if ltb r.fifo_max i then i else r.fifo_max;
            }))
  unfolding process_fifo run_queue
  process_fifo-some fuel i j s r ne run = rw (ne, run, run_queue)

  -- When a queue of at least one call stands in the shared memory, fits its two areas, and every
  -- call in it is served, `processFifo` terminates with fuel above the number of calls. The device
  -- has then made exactly these calls, in their order, each with its arguments and buffers in
  -- place; the call queue is empty, no data is left over, and the pointers stand ready for the call
  -- that the guest makes directly.
  pub process_queue :
      (c : Call) (cs : List Call) (fuel : ℕ) (s : Chan D)
      → Queued max_fifo s.mem (c ∷ cs)
      → length (c ∷ cs) < fuel
      → fifo_end first_fifo (c ∷ cs) ≤ max_fifo
      → max_fifo + data_end first_data (c ∷ cs) ≤ limit
      → All (Served max_fifo args_cnt exec limit) (c ∷ cs)
      → (t : Chan D) × (process_fifo max_fifo args_cnt exec fuel s ≡ some t) × Drained (c ∷ cs) s t
  process_queue c cs fuel s q f room lim ok =
      let i : ℕ = fifo_end first_fifo (c ∷ cs) in
      let j : ℕ = data_end first_data (c ∷ cs) in
      let r : Chan D = run_calls max_fifo args_cnt exec limit first_fifo first_data (c ∷ cs) s in
      let t : Chan D = record r {
        mem = update r.mem 0 first_fifo;
        fenum = s.fenum;
        fifo_max = if ltb r.fifo_max i then i else r.fifo_max;
      } in
      let run : drain max_fifo args_cnt exec fuel first_fifo first_data s ≡ some (i, j, r) =
        drain-run_calls max_fifo args_cnt exec limit (c ∷ cs) fuel first_fifo first_data s f
          (omega arith) q.stored q.fifo_at room lim ok in
      let low : first_fifo + 1 + length c.args ≤ i =
        fifo_end-ge (first_fifo + 1 + length c.args) cs in
      let kept : t.mem max_fifo ≡ j = ground (
        arith,
        run_calls-counter (c ∷ cs) first_fifo first_data s q.stored room lim ok,
        q.data_at,
      ) in
      let left = leave_queue-counter j t kept (omega arith) in
      let ne : (s.mem 0 != first_fifo) ≡ true = ground (arith, q.fifo_at) in
      (
        leave_queue max_fifo args_cnt exec j t,
        process_fifo-some fuel i j s r ne run,
        record {
          ran = left.5;
          fifo_reset = left.1;
          data_reset = left.0;
          fenum_kept = left.6;
          direct_args = left.2;
          direct_data = left.4;
          nothing_read = left.3;
        },
      )
