-- ===== src/Mesa/MapBo/Registry.antt =====
-- The registry of buffer objects as a finite map from indices.
use qemu_win.Prelude.{
  ℕ, ◌+◌, ◌≡◌, refl, ◌≢◌, inl, inr, true, false, Option, none, some, List, [], ◌∷◌, arith, length,
  All, ◌==◌, Bool-cases, sym, ==_iff,
}
use qemu_win.Registry.{
  find_or_add-hit, first, first-find_or_add, first-find_or_add_ne, find_or_add_of_first,
  All-find_or_add,
}
use qemu_win.Mesa.MapBo.{MapBufo, new_buf_obj, is_idx, lookup_buf_obj, unlink_buf_obj, free_buf_obj}

-- the object that the registry holds for an index
abbrev pub held : ℕ → List MapBufo → Option MapBufo
held i pbufo = first (is_idx i) pbufo

-- no index twice
abbrev pub IsMap : List MapBufo → Type 0
IsMap [] = Unit
IsMap (p ∷ ps) = All (λ (q : MapBufo). q.idx ≢ p.idx) ps × IsMap ps

is_idx_self : (i : ℕ) → is_idx i (new_buf_obj i) ≡ true
is_idx_self i = ground arith

is_idx_other : (i j : ℕ) → j ≢ i → is_idx j (new_buf_obj i) ≡ false
is_idx_other i j ne = ground arith

-- `LookupBufObj` returns an object with the index asked for, registers it under that index, and
-- leaves what every other index is registered under.
pub lookup_buf_obj_lem :
    (i j : ℕ) (pbufo : List MapBufo)
    → let (b, pbufo') = lookup_buf_obj i pbufo in
      (b.idx ≡ i) × (held i pbufo' ≡ some b) × (j ≢ i → held j pbufo' ≡ held j pbufo)
unfolding lookup_buf_obj
lookup_buf_obj_lem i j pbufo = (
  sym ((==_iff i _).0 (find_or_add-hit (is_idx i) (new_buf_obj i) pbufo (is_idx_self i))),
  first-find_or_add (is_idx i) (new_buf_obj i) pbufo (is_idx_self i),
  λ ne. first-find_or_add_ne (is_idx i) (new_buf_obj i) (is_idx j) pbufo (is_idx_other i j ne),
)

-- An index that is registered is found as it stands, and the list does not change.
pub lookup_buf_obj-held :
    (i : ℕ) (pbufo : List MapBufo) {b : MapBufo}
    → held i pbufo ≡ some b
    → lookup_buf_obj i pbufo ≡ (b, pbufo)
unfolding lookup_buf_obj
lookup_buf_obj-held i pbufo h = find_or_add_of_first (is_idx i) (new_buf_obj i) pbufo h

-- `LookupBufObj` keeps the indices of the list distinct.
pub lookup_buf_obj-IsMap :
    (i : ℕ) (pbufo : List MapBufo) → IsMap pbufo → IsMap (lookup_buf_obj i pbufo).1
unfolding lookup_buf_obj
lookup_buf_obj-IsMap i [] h = (tt, tt)
lookup_buf_obj-IsMap i (p ∷ ps) h = elim (Bool-cases (i == p.idx)) [
  | inl e ↦ rw e h
  | inr ne ↦ rw ne (
    (All-find_or_add (is_idx i) (new_buf_obj i) (λ (q : MapBufo). q.idx ≢ p.idx) ps (ground arith)
        h.0).1,
    lookup_buf_obj-IsMap i ps h.1,
  )
]

unlink-All {κ} :
    (P : MapBufo → Type κ) (i : ℕ) (ps : List MapBufo) → All P ps → All P (unlink_buf_obj i ps)
unfolding unlink_buf_obj
unlink-All P i [] h = h
unlink-All P i (p ∷ ps) h = elim (Bool-cases (i == p.idx)) [
  | inl e ↦ rw e h.1
  | inr ne ↦ rw ne (h.0, unlink-All P i ps h.1)
]

held-none : (i : ℕ) (ps : List MapBufo) → All (λ (q : MapBufo). q.idx ≢ i) ps → held i ps ≡ none
held-none i [] h = refl
held-none i (p ∷ ps) h = ground (arith, held-none i ps h.1, h.0)

-- `FreeBufObj` keeps the indices distinct.
pub unlink-IsMap : (i : ℕ) (ps : List MapBufo) → IsMap ps → IsMap (unlink_buf_obj i ps)
unfolding unlink_buf_obj
unlink-IsMap i [] h = h
unlink-IsMap i (p ∷ ps) h = elim (Bool-cases (i == p.idx)) [
  | inl e ↦ rw e h.1
  | inr ne ↦ rw ne (unlink-All (λ (q : MapBufo). q.idx ≢ p.idx) i ps h.0, unlink-IsMap i ps h.1)
]

held-unlink : (i : ℕ) (ps : List MapBufo) → IsMap ps → held i (unlink_buf_obj i ps) ≡ none
unfolding unlink_buf_obj
held-unlink i [] h = refl
held-unlink i (p ∷ ps) h = elim (Bool-cases (i == p.idx)) [
  | inl e ↦ let e' : i ≡ p.idx = (==_iff i p.idx).0 e in rw e (rw e' (held-none p.idx ps h.0))
  | inr ne ↦ rw (ne, ne) (held-unlink i ps h.1)
]

held-unlink_ne : (i j : ℕ) (ps : List MapBufo) → j ≢ i → held j (unlink_buf_obj i ps) ≡ held j ps
unfolding unlink_buf_obj
held-unlink_ne i j [] ne = refl
held-unlink_ne i j (p ∷ ps) ne = ground (arith, held-unlink_ne i j ps ne)

length-unlink :
    (i : ℕ) (ps : List MapBufo) {b : MapBufo}
    → held i ps ≡ some b
    → length (unlink_buf_obj i ps) + 1 ≡ length ps
unfolding unlink_buf_obj
length-unlink i [] h = cc
length-unlink i (p ∷ ps) {b} h = elim (Bool-cases (i == p.idx)) [
  | inl e ↦ rw e (omega arith)
  | inr ne ↦
      let h' : held i ps ≡ some b = rw ne at h in rw ne (omega (arith, length-unlink i ps h'))
]

-- On a list with distinct indices, `FreeBufObj` of a registered index unregisters that index and no
-- other, keeps the indices distinct, and returns how many objects are left: one fewer than before.
pub free_buf_obj_lem :
    (i j : ℕ) (pbufo : List MapBufo) {b : MapBufo}
    → IsMap pbufo
    → held i pbufo ≡ some b
    → let (n, pbufo') = free_buf_obj i pbufo in
      (held i pbufo' ≡ none)
      × (j ≢ i → held j pbufo' ≡ held j pbufo)
      × IsMap pbufo'
      × (n ≡ length pbufo')
      × (n + 1 ≡ length pbufo)
unfolding free_buf_obj
free_buf_obj_lem i j pbufo m h = (
  held-unlink i pbufo m,
  held-unlink_ne i j pbufo,
  unlink-IsMap i pbufo m,
  refl,
  length-unlink i pbufo h,
)
