-- ===== src/Mesa/VtxArry/Room.antt =====
-- wrapgl32.c: after PrepVertexArray, the arrays fit, or the host has been asked to empty the queue.
use qemu_win.Prelude.{
  ℕ, zero, suc, ◌+◌, ◌*◌, ◌/◌, ◌^◌, ◌≤◌, ◌<◌, ◌≡◌, refl, ap, ◌∙◌, Bool, true, false, List, [], ◌∷◌,
  ◌++◌, arith, if◌then◌else◌, leb, u32, sar32, ◌⊎◌, inl, inr,
}
use qemu_win.Fifo.Defs.{Memory, num_data, even_up}
use qemu_win.Mesa.VtxArry.State.{Vtxarry, Arrays, is_used, cb_data_interleaved, units, max_texunit}
use qemu_win.Mesa.VtxArry.Guest.{guest_order}
use qemu_win.Mesa.VtxArry.Sync.{words_all, words_pushed}
use qemu_win.Mesa.VtxArry.Prep.{
  Prep, count_all, drop_unit, prep_unit, prep_units, prep_interleaved, prep_separate, prep_count,
  prep_vertex_array,
}
use qemu_win.Mesa.VtxArry.Rounds.{
  aligned_int-even_up, words_all-append, count_all-words_all, drop_unit-off, Rounds, Round-used,
  Rounds-zero, Rounds-suc,
}

-- `n` is the number of bytes given, and those that the arrays take
Counted : ℕ → ℕ → ℕ → Prep → Type 0
Counted start end sizei q =
    sizei + 4 * words_pushed q.arrays start end < 2 ^ 31
    → q.n ≡ sizei + 4 * words_pushed q.arrays start end

words_pushed-if :
    (s : Arrays) (start end : ℕ) (b : Bool)
    → is_used s.interleaved ≡ b
    → words_pushed s start end ≡ (
        if b
        then even_up (num_data (cb_data_interleaved s.interleaved start end))
        else words_all (guest_order s) start end)
unfolding words_pushed
words_pushed-if s start end b h = rw h refl

abbrev first_arrays : Arrays → List Vtxarry
first_arrays s = s.color ∷ s.edge_flag ∷ s.index ∷ s.normal ∷ []

abbrev last_arrays : Arrays → List Vtxarry
last_arrays s = s.vertex ∷ s.secondary_color ∷ s.fog_coord ∷ s.weight ∷ units 2 0 s.gen_attrib

guest_order-words :
    (s : Arrays) (start end : ℕ)
    → words_all (guest_order s) start end
      ≡ words_all (first_arrays s) start end
        + (words_all (units max_texunit 0 s.tex_coord) start end
            + words_all (last_arrays s) start end)
unfolding guest_order
guest_order-words s start end =
    words_all-append (first_arrays s) (units max_texunit 0 s.tex_coord ++ last_arrays s) start end
    ∙ ap (λ n. words_all (first_arrays s) start end + n)
        (words_all-append (units max_texunit 0 s.tex_coord) (last_arrays s) start end)

Rounds-Counted :
    (s : Arrays) (start end sizei : ℕ) (m : Memory) (q : Prep)
    → is_used s.interleaved ≡ false
    → Rounds max_texunit 0 start end
        record { arrays = s; mem = m; n = count_all (first_arrays s) start end sizei }
        q
    → Counted start end sizei (record q { n = count_all (last_arrays q.arrays) start end q.n })
unfolding Counted
Rounds-Counted s start end sizei m q h r lt =
    let i = ap (λ a. is_used a.interleaved) r.others ∙ h in
    let w = words_pushed-if q.arrays start end false i in
    let o = guest_order-words q.arrays start end in
    let f = ap (λ a. words_all (first_arrays a) start end) r.others in
    let c = count_all-words_all (first_arrays s) start end sizei (omega (arith, w, o, f)) in
    let u = r.count (omega (arith, w, o, f, c)) in
    let l =
      count_all-words_all (last_arrays q.arrays) start end q.n (omega (arith, w, o, f, c, u)) in
    omega (arith, w, o, f, c, u, l)

either_Counted :
    (start end sizei : ℕ) (b : Bool) (used : Bool) (p q : Prep)
    → (used ≡ true → Counted start end sizei p)
    → (used ≡ false → Counted start end sizei q)
    → used ≡ b
    → Counted start end sizei (if b then p else q)
either_Counted start end sizei true used p q hp hq h = hp h
either_Counted start end sizei false used p q hp hq h = hq h

room_or_flush :
    (max_fifo max_data : ℕ) (flush : Memory → Memory) (sizei words n : ℕ) (m : Memory) (b : Bool)
    → leb max_data (u32 (m max_fifo + sar32 n 2)) ≡ b
    → sizei + 4 * words < 2 ^ 31
    → n ≡ sizei + 4 * words
    → (if b then flush m else m) max_fifo < 2 ^ 31
    → ((if b then flush m else m) ≡ flush m)
      ⊎ ((if b then flush m else m) max_fifo + (sizei / 4 + words) < max_data)
room_or_flush max_fifo max_data flush sizei words n m true h lt e low = inl refl
room_or_flush max_fifo max_data flush sizei words n m false h lt e low = inr (ground arith)

module _ (active disable : ℕ → Memory → Memory) (bad_read : ℕ → ℕ → Bool) where
  prep_units-Rounds :
      (k i start end : ℕ) (p : Prep)
      → i + k ≤ max_texunit
      → Rounds k i start end p (prep_units active disable bad_read k i start end p)
  unfolding prep_units prep_unit
  prep_units-Rounds zero i start end p le = Rounds-zero i start end p
  prep_units-Rounds (suc k) i start end p le =
      let p' = prep_unit active disable bad_read i start end p in
      Rounds-suc k i start end p p' (prep_units active disable bad_read k (i + 1) start end p')
        (Round-used i start end p (drop_unit active disable i (p.arrays, p.mem))
          (is_used (p.arrays.tex_coord i)) (bad_read (p.arrays.tex_coord i).ptr _) refl
          (drop_unit-off active disable i p.arrays p.mem (omega arith)))
        (prep_units-Rounds k (i + 1) start end p' (omega arith))

  prep_interleaved-Counted :
      (s : Arrays) (start end sizei : ℕ) (m : Memory)
      → is_used s.interleaved ≡ true
      → Counted start end sizei (prep_interleaved active disable bad_read s start end sizei m)
  unfolding prep_interleaved Counted
  prep_interleaved-Counted s start end sizei m h lt =
      let w = words_pushed-if s start end true h in
      let c = aligned_int-even_up (cb_data_interleaved s.interleaved start end) in
      omega (arith, w, c (omega (arith, w)))

  prep_separate-Counted :
      (s : Arrays) (start end sizei : ℕ) (m : Memory)
      → is_used s.interleaved ≡ false
      → Counted start end sizei (prep_separate active disable bad_read s start end sizei m)
  unfolding prep_separate
  prep_separate-Counted s start end sizei m h = Rounds-Counted s start end sizei m _ h (
      prep_units-Rounds max_texunit 0 start end
        record {
          arrays = s;
          mem = m;
          n = count_all (s.color ∷ s.edge_flag ∷ s.index ∷ s.normal ∷ []) start end sizei;
        }
        (omega arith))

  prep_count-Counted :
      (s : Arrays) (start end sizei : ℕ) (m : Memory)
      → Counted start end sizei (prep_count active disable bad_read s start end sizei m)
  unfolding prep_count
  prep_count-Counted s start end sizei m =
      either_Counted start end sizei (is_used s.interleaved) (is_used s.interleaved)
        (prep_interleaved active disable bad_read s start end sizei m)
        (prep_separate active disable bad_read s start end sizei m)
        (prep_interleaved-Counted s start end sizei m) (prep_separate-Counted s start end sizei m)
        refl

  -- If the byte count does not overflow and the counter of the data is below 2^31 when
  -- PrepVertexArray returns: either it has asked the host to empty the queue at last, or the arrays
  -- that are still enabled, and the bytes given besides, fit below MAX_DATA.
  pub prep_vertex_array-words_pushed :
      (max_fifo max_data : ℕ) (flush : Memory → Memory) (s : Arrays) (start end sizei : ℕ)
      (m : Memory)
      → let r =
          prep_vertex_array active disable bad_read max_fifo max_data flush s start end sizei m in
        sizei + 4 * words_pushed r.0 start end < 2 ^ 31
        → r.1 max_fifo < 2 ^ 31
        → (r.1 ≡ flush (prep_count active disable bad_read s start end sizei m).mem)
          ⊎ (r.1 max_fifo + (sizei / 4 + words_pushed r.0 start end) < max_data)
  unfolding prep_vertex_array Counted
  prep_vertex_array-words_pushed max_fifo max_data flush s start end sizei m lt low =
      let q = prep_count active disable bad_read s start end sizei m in
      room_or_flush max_fifo max_data flush sizei (words_pushed q.arrays start end) q.n q.mem
        (leb max_data (u32 (q.mem max_fifo + sar32 q.n 2))) refl lt
        (prep_count-Counted s start end sizei m lt) low
