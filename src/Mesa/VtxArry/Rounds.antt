-- ===== src/Mesa/VtxArry/Rounds.antt =====
-- wrapgl32.c: the loop of PrepVertexArray over the texture units, and its byte count.
use qemu_win.Prelude.{
  ℕ, zero, suc, ◌+◌, ◌*◌, ◌^◌, ◌<◌, ◌≡◌, ◌≢◌, refl, sym, ap, ◌∙◌, Bool, true, false, List, [], ◌∷◌,
  ◌++◌, arith, if◌then◌else◌, update, All-upto, ==_refl,
}
use qemu_win.Fifo.Defs.{Memory, num_data, even_up}
use qemu_win.Mesa.VtxArry.State.{Vtxarry, Arrays, is_used, cb_data, units, max_texunit}
use qemu_win.Mesa.VtxArry.Sync.{words_used, words_all}
use qemu_win.Mesa.VtxArry.Prep.{aligned_int, Prep, count_one, count_all, drop_unit, prep_used}

pub aligned_int-even_up :
    (cb : ℕ) → even_up (num_data cb) < 2 ^ 29 → aligned_int cb ≡ 4 * even_up (num_data cb)
unfolding even_up num_data
aligned_int-even_up cb lt = ground arith

pub words_all-append :
    (xs ys : List Vtxarry) (start end : ℕ)
    → words_all (xs ++ ys) start end ≡ words_all xs start end + words_all ys start end
unfolding words_all
words_all-append [] ys start end = omega arith
words_all-append (a ∷ xs) ys start end = omega (arith, words_all-append xs ys start end)

count_one-words_used :
    (a : Vtxarry) (start end n : ℕ)
    → n + 4 * words_used a start end < 2 ^ 31
    → count_one a start end n ≡ n + 4 * words_used a start end
unfolding count_one words_used
count_one-words_used a start end n lt = grind (arith, aligned_int-even_up (cb_data a start end))

pub count_all-words_all :
    (xs : List Vtxarry) (start end n : ℕ)
    → n + 4 * words_all xs start end < 2 ^ 31
    → count_all xs start end n ≡ n + 4 * words_all xs start end
unfolding count_all words_all
count_all-words_all [] start end n lt = omega arith
count_all-words_all (a ∷ xs) start end n lt =
    let e = count_one-words_used a start end n (omega arith) in
    let r = count_all-words_all xs start end (count_one a start end n) in
    omega (arith, e, r (omega (arith, e)))

-- the state with unit i selected and its array off
unfoldable pub off : ℕ → Arrays → Arrays
off i s = record s {
  tex_unit = i;
  tex_coord = update s.tex_coord i (record (s.tex_coord i) { enable = 0 });
}

off-frame : (i j : ℕ) (s : Arrays) → j ≢ i → (off i s).tex_coord j ≡ s.tex_coord j
unfolding off
off-frame i j s ne = ground arith

off-words_used : (i start end : ℕ) (s : Arrays) → words_used ((off i s).tex_coord i) start end ≡ 0
unfolding off words_used
off-words_used i start end s = rw (==_refl i) refl

off-others :
    (i : ℕ) (s : Arrays)
    → off i s ≡ record s { tex_coord = (off i s).tex_coord; tex_unit = (off i s).tex_unit }
unfolding off
off-others i s = refl

pub drop_unit-off :
    (active disable : ℕ → Memory → Memory) (i : ℕ) (s : Arrays) (m : Memory)
    → i < max_texunit
    → (drop_unit active disable i (s, m)).0 ≡ off i s
unfolding drop_unit off
drop_unit-off active disable i s m lt =
    All-upto (λ k. (drop_unit active disable k (s, m)).0 ≡ off k s) max_texunit 0 i
      (refl, (refl, (refl, (refl, (refl, (refl, (refl, (refl, tt)))))))) (omega arith) lt

-- One round for unit i: no other array is changed, and what is added to `n` is what the unit's array
-- takes afterwards.
pub record Round (i start end : ℕ) (p q : Prep) : Type 0 where
  pub others :
      q.arrays ≡ record p.arrays { tex_coord = q.arrays.tex_coord; tex_unit = q.arrays.tex_unit }
  pub frame : (j : ℕ) → j ≢ i → q.arrays.tex_coord j ≡ p.arrays.tex_coord j
  pub count :
      p.n + 4 * words_used (q.arrays.tex_coord i) start end < 2 ^ 31
      → q.n ≡ p.n + 4 * words_used (q.arrays.tex_coord i) start end

used_words :
    (a : Vtxarry) (start end : ℕ) (b : Bool)
    → is_used a ≡ b
    → words_used a start end ≡ (if b then even_up (num_data (cb_data a start end)) else 0)
unfolding words_used
used_words a start end b h = rw h refl

pub Round-used :
    (i start end : ℕ) (p : Prep) (t : Arrays × Memory) (used bad : Bool)
    → is_used (p.arrays.tex_coord i) ≡ used
    → t.0 ≡ off i p.arrays
    → Round i start end p
        (prep_used used bad (aligned_int (cb_data (p.arrays.tex_coord i) start end)) t p)
unfolding prep_used
Round-used i start end p t false bad h e = record {
  others = refl;
  frame = λ j ne. refl;
  count = λ lt. omega (arith, used_words (p.arrays.tex_coord i) start end false h);
}
Round-used i start end p t true true h e = record {
  others =
      e
      ∙ off-others i p.arrays
      ∙ ap (λ a. record p.arrays { tex_coord = a.tex_coord; tex_unit = a.tex_unit }) (sym e);
  frame = λ j ne. ap (λ a. a.tex_coord j) e ∙ off-frame i j p.arrays ne;
  count = λ lt. omega (
    arith,
    ap (λ a. words_used (a.tex_coord i) start end) e,
    off-words_used i start end p.arrays,
  );
}
Round-used i start end p t true false h e = record {
  others = refl;
  frame = λ j ne. refl;
  count = λ lt.
      let w = used_words (p.arrays.tex_coord i) start end true h in
      let c = aligned_int-even_up (cb_data (p.arrays.tex_coord i) start end) in
      omega (arith, w, c (omega (arith, w)));
}

-- the same of the rounds for the k units from i on
pub record Rounds (k i start end : ℕ) (p q : Prep) : Type 0 where
  pub others :
      q.arrays ≡ record p.arrays { tex_coord = q.arrays.tex_coord; tex_unit = q.arrays.tex_unit }
  pub frame : (j : ℕ) → j < i → q.arrays.tex_coord j ≡ p.arrays.tex_coord j
  pub count :
      p.n + 4 * words_all (units k i q.arrays.tex_coord) start end < 2 ^ 31
      → q.n ≡ p.n + 4 * words_all (units k i q.arrays.tex_coord) start end

pub Rounds-zero : (i start end : ℕ) (p : Prep) → Rounds zero i start end p p
unfolding words_all
Rounds-zero i start end p = record {
  others = refl;
  frame = λ j lt. refl;
  count = λ lt. omega arith;
}

pub Rounds-suc :
    (k i start end : ℕ) (p p' q : Prep)
    → Round i start end p p'
    → Rounds k (i + 1) start end p' q
    → Rounds (suc k) i start end p q
unfolding words_all
Rounds-suc k i start end p p' q r rs =
    let same : q.arrays.tex_coord i ≡ p'.arrays.tex_coord i = rs.frame i (omega arith) in
    let w = ap (λ a. words_used a start end) same in
    record {
      others =
          rs.others
          ∙ ap {A = Arrays}
              (λ a. record a { tex_coord = q.arrays.tex_coord; tex_unit = q.arrays.tex_unit })
              r.others;
      frame = λ j lt. rs.frame j (omega arith) ∙ r.frame j (omega arith);
      count = λ lt.
          let c = r.count (omega (arith, w)) in omega (arith, w, c, rs.count (omega (arith, w, c)));
    }
