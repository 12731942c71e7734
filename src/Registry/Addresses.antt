-- ===== src/Registry/Addresses.antt =====
-- Registries whose nodes hold addresses that are all different.
use qemu_win.Prelude.{
  ℕ, ◌≡◌, ◌≢◌, inl, inr, Bool, true, false, some, List, [], ◌∷◌, All, Bool-cases, ap, sym, ◌∙◌,
}
use qemu_win.Registry.Defs.{find_or_add, first}
use qemu_win.Registry.Laws.{All-find_or_add}

module _ {ℓ} {A : Type ℓ} (address : A → ℕ) where
  abbrev pub Apart : A → List A → Type 0
  Apart x xs = All (λ y. address y ≢ address x) xs

  abbrev pub Distinct : List A → Type 0
  Distinct [] = Unit
  Distinct (x ∷ xs) = Apart x xs × Distinct xs

  Apart-eq :
      (x : A) (hit : A → Bool) (xs : List A) {a : A}
      → Apart x xs
      → first hit xs ≡ some a
      → address a ≢ address x
  Apart-eq x hit [] h e = cc
  Apart-eq x hit (y ∷ xs) {a} h e = elim (Bool-cases (hit y)) [
    | inl p ↦
        let e' : some y ≡ some a = rw p at e in
        let same' : y ≡ a = cc in λ same. h.0 (ap address same' ∙ same)
    | inr p ↦ Apart-eq x hit xs h.1 (rw p at e)
  ]

  pub Distinct-find_or_add :
      (hit : A → Bool) (fresh : A) (xs : List A)
      → Apart fresh xs
      → Distinct xs
      → Distinct (find_or_add hit fresh xs).1
  Distinct-find_or_add hit fresh [] out h = (tt, tt)
  Distinct-find_or_add hit fresh (x ∷ xs) out h = elim (Bool-cases (hit x)) [
    | inl p ↦ rw p h
    | inr p ↦ rw p (
      (All-find_or_add hit fresh (λ y. address y ≢ address x) xs (λ e. out.0 (sym e)) h.0).1,
      Distinct-find_or_add hit fresh xs out.1 h.1,
    )
  ]

  -- Two tests that accept no node in common find nodes at different addresses.
  pub first-ne :
      (p q : A → Bool) (xs : List A) {a b : A}
      → ((x : A) → p x ≡ true → q x ≡ false)
      → Distinct xs
      → first p xs ≡ some a
      → first q xs ≡ some b
      → address a ≢ address b
  first-ne p q [] apart h e f = cc
  first-ne p q (x ∷ xs) {a} {b} apart h e f = elim (Bool-cases (p x)) [
    | inl px ↦
        let e' : some x ≡ some a = rw px at e in
        let f' : first q xs ≡ some b = rw (apart x px) at f in
        λ same. Apart-eq x q xs h.0 f' (sym same ∙ ap address (let r : a ≡ x = cc in r))
    | inr px ↦ elim (Bool-cases (q x)) [
      | inl qx ↦
          let f' : some x ≡ some b = rw qx at f in
          let e' : first p xs ≡ some a = rw px at e in
          λ same. Apart-eq x p xs h.0 e' (same ∙ ap address (let r : b ≡ x = cc in r))
      | inr qx ↦ first-ne p q xs apart h.1 (rw px at e) (rw qx at f)
    ]
  ]
