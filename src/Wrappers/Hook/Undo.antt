-- ===== src/Wrappers/Hook/Undo.antt =====
-- fxhook.c: what restoring the recorded words does to a memory.
use qemu_win.Prelude.{
  ℕ, ◌≡◌, ◌≢◌, refl, ◌∙◌, Bool, true, List, [], ◌∷◌, ◌++◌, arith, if◌then◌else◌, update, All,
}
use qemu_win.Wrappers.Hook.{Words, restore}

module _ (writable : ℕ → Bool) (ok : (p : ℕ) → writable p ≡ true) where
  pub restore-snoc :
      (tbl : List (ℕ × ℕ)) (a d : ℕ) (m : Words) (k : ℕ)
      → restore writable (tbl ++ (a, d) ∷ []) m k ≡ update (restore writable tbl m) a d k
  unfolding restore
  restore-snoc [] a d m k = rw (ok a) refl
  restore-snoc ((p, e) ∷ tbl) a d m k =
      restore-snoc tbl a d (if writable p then update m p e else m) k

  -- only the word itself matters
  pub restore-local :
      (tbl : List (ℕ × ℕ)) (m m' : Words) (k : ℕ)
      → m k ≡ m' k
      → restore writable tbl m k ≡ restore writable tbl m' k
  unfolding restore
  restore-local [] m m' k h = h
  restore-local ((p, e) ∷ tbl) m m' k h = restore-local tbl _ _ k (ground (arith, ok p))

  pub restore-out :
      (tbl : List (ℕ × ℕ)) (m : Words) (k : ℕ)
      → All (λ r. r.0 ≢ k) tbl
      → restore writable tbl m k ≡ m k
  unfolding restore
  restore-out [] m k h = refl
  restore-out ((p, e) ∷ tbl) m k h = restore-out tbl _ k h.1 ∙ ground (arith, ok p, h.0)
