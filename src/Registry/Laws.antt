-- ===== src/Registry/Laws.antt =====
-- What a registry keeps, whatever its test and its nodes are.
use qemu_win.Prelude.{
  ◌+◌, ◌≤◌, ◌≡◌, inl, inr, Bool, true, false, some, List, [], ◌∷◌, arith, length, All, Bool-cases,
  ap,
}
use qemu_win.Registry.Defs.{find_or_add, first}

module _ {ℓ} {A : Type ℓ} (hit : A → Bool) (fresh : A) where
  pub find_or_add-hit : (xs : List A) → hit fresh ≡ true → hit (find_or_add hit fresh xs).0 ≡ true
  find_or_add-hit [] h = h
  find_or_add-hit (x ∷ xs) h = elim (Bool-cases (hit x)) [
    | inl p ↦ rw p p
    | inr p ↦ rw p (find_or_add-hit xs h)
  ]

  -- the node found is the one that a later walk finds
  pub first-find_or_add :
      (xs : List A)
      → hit fresh ≡ true
      → first hit (find_or_add hit fresh xs).1 ≡ some (find_or_add hit fresh xs).0
  first-find_or_add [] h = rw h
  first-find_or_add (x ∷ xs) h = elim (Bool-cases (hit x)) [
    | inl p ↦ rw (p, p)
    | inr p ↦ rw (p, p) (first-find_or_add xs h)
  ]

  -- a second call finds the node of the first, and adds nothing
  pub find_or_add_again :
      (again : A) (xs : List A)
      → hit fresh ≡ true
      → find_or_add hit again (find_or_add hit fresh xs).1 ≡ find_or_add hit fresh xs
  find_or_add_again again [] h = rw h
  find_or_add_again again (x ∷ xs) h = elim (Bool-cases (hit x)) [
    | inl p ↦ rw (p, p)
    | inr p ↦ rw (p, p) (ap (λ (r : A × List A). (r.0, x ∷ r.1)) (find_or_add_again again xs h))
  ]

  -- a walk by another test that had an answer keeps it
  pub first-find_or_add-some :
      (other : A → Bool) (xs : List A) {a : A}
      → first other xs ≡ some a
      → first other (find_or_add hit fresh xs).1 ≡ some a
  first-find_or_add-some other [] h = cc
  first-find_or_add-some other (x ∷ xs) h = elim (Bool-cases (hit x)) [
    | inl p ↦ rw p h
    | inr p ↦ rw p (elim (Bool-cases (other x)) [
      | inl q ↦ rw q (rw q at h)
      | inr q ↦ rw q (first-find_or_add-some other xs (rw q at h))
    ])
  ]

  -- a walk by a test that refuses the fresh node does not see the call
  pub first-find_or_add_ne :
      (other : A → Bool) (xs : List A)
      → other fresh ≡ false
      → first other (find_or_add hit fresh xs).1 ≡ first other xs
  first-find_or_add_ne other [] h = rw h
  first-find_or_add_ne other (x ∷ xs) h = elim (Bool-cases (hit x)) [
    | inl p ↦ rw p
    | inr p ↦ rw p (elim (Bool-cases (other x)) [
      | inl q ↦ rw q
      | inr q ↦ rw q (first-find_or_add_ne other xs h)
    ])
  ]

  pub length-find_or_add : (xs : List A) → length (find_or_add hit fresh xs).1 ≤ length xs + 1
  length-find_or_add [] = omega arith
  length-find_or_add (x ∷ xs) = elim (Bool-cases (hit x)) [
    | inl p ↦ rw p (omega arith)
    | inr p ↦ rw p (omega (arith, length-find_or_add xs))
  ]

  pub All-find_or_add {κ} :
      (P : A → Type κ) (xs : List A)
      → P fresh
      → All P xs
      → P (find_or_add hit fresh xs).0 × All P (find_or_add hit fresh xs).1
  All-find_or_add P [] hf h = (hf, (hf, tt))
  All-find_or_add P (x ∷ xs) hf h = elim (Bool-cases (hit x)) [
    | inl p ↦ rw p (h.0, h)
    | inr p ↦ rw p (let r = All-find_or_add P xs hf h.1 in (r.0, (h.0, r.1)))
  ]

  -- where the walk has an answer, the call adds nothing
  pub find_or_add_of_first :
      (xs : List A) {a : A} → first hit xs ≡ some a → find_or_add hit fresh xs ≡ (a, xs)
  find_or_add_of_first [] h = cc
  find_or_add_of_first (x ∷ xs) {a} h = elim (Bool-cases (hit x)) [
    | inl p ↦ let h' : some x ≡ some a = rw p at h in rw p (cc)
    | inr p ↦ rw p (let r = find_or_add_of_first xs (rw p at h) in cc)
  ]
