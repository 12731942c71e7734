-- ===== src/Fifo/Frame.antt =====
-- The queue that the shared memory stands for depends on its own words alone.
use qemu_win.Prelude.{
  ℕ, ◌+◌, ◌%◌, ◌≤◌, ◌<◌, ◌≡◌, refl, ◌∙◌, List, [], ◌∷◌, ◌++◌, arith, length, subst,
}
use qemu_win.Fifo.Defs.{Memory, even_up}
use qemu_win.Fifo.Calls.{Call, span, fifo_end, data_end, Words, Chunks, Holds, Stored}

-- two memories agree from an index up to another
abbrev pub Agree : Memory → Memory → ℕ → ℕ → Type 0
Agree m m' a b = (k : ℕ) → a ≤ k → k < b → m' k ≡ m k

pub Words-frame :
    (m m' : Memory) (a : ℕ) (xs : List ℕ)
    → Agree m m' a (a + length xs)
    → Words m a xs
    → Words m' a xs
Words-frame m m' a [] same w = tt
Words-frame m m' a (x ∷ xs) same w = (
  same a (omega arith) (omega arith) ∙ w.0,
  Words-frame m m' (a + 1) xs (λ k p q. same k (omega arith) (omega arith)) w.1,
)

pub even_up-ge : (n : ℕ) → n ≤ even_up n
unfolding even_up
even_up-ge n = ground arith

pub even_up-even : (n : ℕ) → even_up n % 2 ≡ 0
unfolding even_up
even_up-even n = ground arith

pub even_up-add : (j n : ℕ) → j % 2 ≡ 0 → even_up (j + n) ≡ j + even_up n
unfolding even_up
even_up-add j n h = ground arith

pub Chunks-frame :
    (m m' : Memory) (a : ℕ) (xs : List (List ℕ))
    → Agree m m' a (a + span xs)
    → Chunks m a xs
    → Chunks m' a xs
Chunks-frame m m' a [] same w = tt
Chunks-frame m m' a (x ∷ xs) same w = (
  Words-frame m m' a x (λ k p q. same k (omega arith) (omega (arith, even_up-ge (length x)))) w.0,
  Chunks-frame m m' (a + even_up (length x)) xs (λ k p q. same k (omega arith) (omega arith)) w.1,
)

pub fifo_end-ge : (i : ℕ) (cs : List Call) → i ≤ fifo_end i cs
fifo_end-ge i [] = omega arith
fifo_end-ge i (c ∷ cs) = omega (arith, fifo_end-ge (i + 1 + length c.args) cs)

pub data_end-ge : (j : ℕ) (cs : List Call) → j ≤ data_end j cs
data_end-ge j [] = omega arith
data_end-ge j (c ∷ cs) = omega (arith, data_end-ge (j + span c.chunks) cs)

pub span-even : (xs : List (List ℕ)) → span xs % 2 ≡ 0
span-even [] = refl
span-even (x ∷ xs) = omega (arith, span-even xs, even_up-even (length x))

pub data_end-even : (j : ℕ) (cs : List Call) → j % 2 ≡ 0 → data_end j cs % 2 ≡ 0
data_end-even j [] h = h
data_end-even j (c ∷ cs) h =
    data_end-even (j + span c.chunks) cs (omega (arith, span-even c.chunks))

pub fifo_end-snoc :
    (i : ℕ) (cs : List Call) (c : Call)
    → fifo_end i (cs ++ c ∷ []) ≡ fifo_end i cs + 1 + length c.args
fifo_end-snoc i [] c = refl
fifo_end-snoc i (d ∷ cs) c = fifo_end-snoc (i + 1 + length d.args) cs c

pub data_end-snoc :
    (j : ℕ) (cs : List Call) (c : Call) → data_end j (cs ++ c ∷ []) ≡ data_end j cs + span c.chunks
data_end-snoc j [] c = refl
data_end-snoc j (d ∷ cs) c = data_end-snoc (j + span d.chunks) cs c

pub span-snoc :
    (xs : List (List ℕ)) (x : List ℕ) → span (xs ++ x ∷ []) ≡ span xs + even_up (length x)
span-snoc [] x = omega arith
span-snoc (y ∷ xs) x = omega (arith, span-snoc xs x)

pub Chunks-snoc :
    (m : Memory) (a : ℕ) (xs : List (List ℕ)) (x : List ℕ)
    → Chunks m a xs
    → Words m (a + span xs) x
    → Chunks m a (xs ++ x ∷ [])
Chunks-snoc m a [] x c w = (subst (λ k. Words m k x) (omega arith) w, tt)
Chunks-snoc m a (y ∷ xs) x c w = (
  c.0,
  Chunks-snoc m (a + even_up (length y)) xs x c.1 (subst (λ k. Words m k x) (omega arith) w),
)

module _ (max_fifo : ℕ) where
  pub Holds-frame :
      (m m' : Memory) (i j : ℕ) (c : Call)
      → Agree m m' i (i + 1 + length c.args)
      → Agree m m' (max_fifo + j) (max_fifo + j + span c.chunks)
      → Holds max_fifo m i j c
      → Holds max_fifo m' i j c
  Holds-frame m m' i j c f d (e, w, k) = (
    f i (omega arith) (omega arith) ∙ e,
    Words-frame m m' (i + 1) c.args (λ n p q. f n (omega arith) (omega arith)) w,
    Chunks-frame m m' (max_fifo + j) c.chunks d k,
  )

  pub Stored-frame :
      (m m' : Memory) (i j : ℕ) (cs : List Call)
      → Agree m m' i (fifo_end i cs)
      → Agree m m' (max_fifo + j) (max_fifo + data_end j cs)
      → Stored max_fifo m i j cs
      → Stored max_fifo m' i j cs
  Stored-frame m m' i j [] f d s = tt
  Stored-frame m m' i j (c ∷ cs) f d s =
      let i' : ℕ = i + 1 + length c.args in
      let j' : ℕ = j + span c.chunks in
      (
        Holds-frame m m' i j c (λ n p q. f n p (omega (arith, fifo_end-ge i' cs)))
            (λ n p q. d n p (omega (arith, data_end-ge j' cs))) s.0,
        Stored-frame m m' i' j' cs (λ n p q. f n (omega arith) q) (λ n p q. d n (omega arith) q)
            s.1,
      )

  pub Stored-snoc :
      (m : Memory) (i j : ℕ) (cs : List Call) (c : Call)
      → Stored max_fifo m i j cs
      → Holds max_fifo m (fifo_end i cs) (data_end j cs) c
      → Stored max_fifo m i j (cs ++ c ∷ [])
  Stored-snoc m i j [] c s h = (h, tt)
  Stored-snoc m i j (d ∷ cs) c s h =
      (s.0, Stored-snoc m (i + 1 + length d.args) (j + span d.chunks) cs c s.1 h)
