-- ===== src/Fifo/Send.antt =====
-- What fifoAddData and fifoAddEntry do to the queue that the shared memory stands for.
use qemu_win.Prelude.{
  ℕ, ◌+◌, ◌≤◌, ◌<◌, ◌≡◌, refl, ◌≢◌, ◌∙◌, ap, ◌⊎◌, inl, inr, true, List, [], ◌∷◌, ◌++◌, arith,
  length, update, subst,
}
use qemu_win.Fifo.Defs.{Memory, first_fifo, first_data, num_data, even_up}
use qemu_win.Fifo.Guest.{copy_args, fifo_add_entry, fifo_add_data, can_queue}
use qemu_win.Fifo.Calls.{Call, span, fifo_end, data_end, Words, Chunks, Stored, Queued}
use qemu_win.Fifo.Frame.{
  Words-frame, Chunks-frame, Stored-frame, Stored-snoc, even_up-add, span-snoc, Chunks-snoc,
  span-even, fifo_end-ge, data_end-ge, data_end-even, fifo_end-snoc, data_end-snoc,
}
use qemu_win.Fifo.Copy.{
  copy_args-out, copy_args-Words, words_of, length-words_of, copy_words-out, copy_words-Words,
}

module _ (max_fifo : ℕ) where
  -- the queue `cs`, and the buffers that have been sent for a call that is not queued yet
  pub record Pending (m : Memory) (cs : List Call) (chunks : List (List ℕ)) : Type 0 where
    pub stored : Stored max_fifo m first_fifo first_data cs
    pub fifo_at : m 0 ≡ fifo_end first_fifo cs
    pub data_at : m max_fifo ≡ data_end first_data cs + span chunks
    pub sent : Chunks m (max_fifo + data_end first_data cs) chunks

  pub Pending-Queued : (m : Memory) (cs : List Call) → Queued max_fifo m cs → Pending m cs []
  Pending-Queued m cs q = record {
    stored = q.stored;
    fifo_at = q.fifo_at;
    data_at = omega arith;
    sent = tt;
  }

  -- where `fifoAddEntry` writes
  add_entry-out :
      (m : Memory) (f n k : ℕ)
      → 0 < k
      → (k < m 0) ⊎ (m 0 + 1 + n ≤ k)
      → fifo_add_entry m f n k ≡ m k
  unfolding fifo_add_entry
  add_entry-out m f n k pos h =
      let e = copy_args-out n 0 (m 0 + 1) (update m (m 0) f) k (omega arith) in ground arith

  add_entry-Words :
      (m : Memory) (f : ℕ) (args : List ℕ)
      → first_fifo ≤ m 0
      → length args ≤ 22
      → Words m 2 args
      → Words (fifo_add_entry m f (length args)) (m 0 + 1) args
  unfolding fifo_add_entry
  add_entry-Words m f args low few w =
      let m' : Memory = update m (m 0) f in
      let w' : Words m' 2 args = Words-frame m m' 2 args (λ k p q. ground arith) w in
      Words-frame (copy_args (length args) 0 (m 0 + 1) m') _ (m 0 + 1) args (λ k p q. ground arith)
        (copy_args-Words 0 (m 0 + 1) m' args (omega arith) w')

  add_entry-fenum : (m : Memory) (f n : ℕ) → 0 < m 0 → fifo_add_entry m f n (m 0) ≡ f
  unfolding fifo_add_entry
  add_entry-fenum m f n pos =
      let e = copy_args-out n 0 (m 0 + 1) (update m (m 0) f) (m 0) (omega arith) in ground arith

  add_entry-counter : (m : Memory) (f n : ℕ) → fifo_add_entry m f n 0 ≡ m 0 + 1 + n
  unfolding fifo_add_entry
  add_entry-counter m f n = refl

  -- If the arguments stand in the argument words and FIFO_GRFUNC finds room, `fifoAddEntry` appends
  -- the call, with these arguments and the buffers sent for it, to the queue, and changes none of
  -- the calls before it.
  pub fifo_add_entry-Queued :
      (m : Memory) (cs : List Call) (chunks : List (List ℕ)) (f : ℕ) (args : List ℕ) (max_data : ℕ)
      → Pending m cs chunks
      → Words m 2 args
      → length args ≤ 22
      → can_queue max_fifo max_data m (length args) ≡ true
      → Queued max_fifo
          (fifo_add_entry m f (length args))
          (cs ++ record { fenum = f; args = args; chunks = chunks } ∷ [])
  unfolding can_queue
  fifo_add_entry-Queued m cs chunks f args max_data p w few guard =
      let c : Call = record { fenum = f; args = args; chunks = chunks } in
      let i : ℕ = fifo_end first_fifo cs in
      let j : ℕ = data_end first_data cs in
      let m' : Memory = fifo_add_entry m f (length args) in
      let low : first_fifo ≤ i = fifo_end-ge first_fifo cs in
      let room : i + 1 + length args < max_fifo = ground (arith, p.fifo_at) in
      let at : m 0 ≡ i = p.fifo_at in
      let out : (k : ℕ) → 0 < k → (k < i) ⊎ (i + 1 + length args ≤ k) → m' k ≡ m k =
        λ k pos h. add_entry-out m f (length args) k pos (rw at h) in
      record {
        stored =
            Stored-snoc max_fifo m' first_fifo first_data cs c
              (Stored-frame max_fifo m m' first_fifo first_data cs
                (λ k a b. out k (omega arith) (inl b))
                (λ k a b. out k (omega arith) (inr (omega arith))) p.stored)
              (
                rw at at (add_entry-fenum m f (length args) (omega arith)),
                rw at at (add_entry-Words m f args (omega arith) few w),
                Chunks-frame m m' (max_fifo + j) chunks
                    (λ k a b. out k (omega arith) (inr (omega arith))) p.sent,
              );
        fifo_at = add_entry-counter m f (length args) ∙ rw (fifo_end-snoc, at);
        data_at = out max_fifo (omega arith) (inr (omega arith)) ∙ p.data_at ∙ rw data_end-snoc;
      }

  -- where `fifoAddData` writes
  add_data-out :
      (m : Memory) (n_arg addr : ℕ) (src : ℕ → ℕ) (cb k : ℕ)
      → k ≢ max_fifo
      → k ≢ 1 + n_arg
      → (k < max_fifo + m max_fifo) ⊎ (max_fifo + m max_fifo + num_data cb ≤ k)
      → fifo_add_data max_fifo m n_arg addr src cb k ≡ m k
  unfolding fifo_add_data
  add_data-out m n_arg addr src cb k ne ne' h =
      copy_words-out (num_data cb) 0 (max_fifo + m max_fifo) src _ k h ∙ ground arith

  pub add_data-counter :
      (m : Memory) (n_arg addr : ℕ) (src : ℕ → ℕ) (cb : ℕ)
      → 1 + n_arg < max_fifo
      → 0 < m max_fifo
      → fifo_add_data max_fifo m n_arg addr src cb max_fifo ≡ even_up (m max_fifo + num_data cb)
  unfolding fifo_add_data
  add_data-counter m n_arg addr src cb few pos =
      copy_words-out (num_data cb) 0 (max_fifo + m max_fifo) src _ max_fifo (omega arith)
      ∙ ground arith

  add_data-Words :
      (m : Memory) (n_arg addr : ℕ) (src : ℕ → ℕ) (cb : ℕ)
      → Words
          (fifo_add_data max_fifo m n_arg addr src cb)
          (max_fifo + m max_fifo)
          (words_of src 0 (num_data cb))
  unfolding fifo_add_data
  add_data-Words m n_arg addr src cb =
      copy_words-Words (num_data cb) 0 (max_fifo + m max_fifo) src _

  -- `fifoAddData` adds the buffer's words to those sent for the call that is being made, and leaves
  -- the queued calls and the buffers sent before it as they are.
  pub fifo_add_data-Pending :
      (m : Memory) (cs : List Call) (chunks : List (List ℕ)) (n_arg addr : ℕ) (src : ℕ → ℕ) (cb : ℕ)
      → Pending m cs chunks
      → n_arg ≤ 22
      → fifo_end first_fifo cs ≤ max_fifo
      → Pending
          (fifo_add_data max_fifo m n_arg addr src cb)
          cs
          (chunks ++ words_of src 0 (num_data cb) ∷ [])
  fifo_add_data-Pending m cs chunks n_arg addr src cb p few room =
      let j : ℕ = data_end first_data cs in
      let m' : Memory = fifo_add_data max_fifo m n_arg addr src cb in
      let low : first_fifo ≤ fifo_end first_fifo cs = fifo_end-ge first_fifo cs in
      let low' : first_data ≤ j = data_end-ge first_data cs in
      let out : (k : ℕ) → k ≢ max_fifo → k ≢ 1 + n_arg → k < max_fifo + m max_fifo → m' k ≡ m k =
        λ k a b c. add_data-out m n_arg addr src cb k a b (inl c) in
      record {
        stored =
            Stored-frame max_fifo m m' first_fifo first_data cs
              (λ k a b. out k (omega arith) (omega arith) (omega arith))
              (λ k a b. out k (omega arith) (omega arith) (omega (arith, p.data_at))) p.stored;
        fifo_at = out 0 (omega arith) (omega arith) (omega arith) ∙ p.fifo_at;
        data_at =
            add_data-counter m n_arg addr src cb (omega arith) (omega arith)
            ∙ omega (
              arith,
              p.data_at,
              span-snoc chunks (words_of src 0 (num_data cb)),
              length-words_of src 0 (num_data cb),
              ap even_up (length-words_of src 0 (num_data cb)),
              ap even_up p.data_at,
              even_up-add (j + span chunks) (num_data cb)
                  (omega (arith, span-even chunks, data_end-even first_data cs refl)),
              ap (λ n. even_up (n + num_data cb)) p.data_at,
            );
        sent =
            Chunks-snoc m' (max_fifo + j) chunks (words_of src 0 (num_data cb))
              (Chunks-frame m m' (max_fifo + j) chunks
                (λ k a b. out k (omega arith) (omega arith) (omega (arith, p.data_at))) p.sent)
              (subst (λ k. Words m' k (words_of src 0 (num_data cb))) (omega (arith, p.data_at))
                (add_data-Words m n_arg addr src cb));
      }
