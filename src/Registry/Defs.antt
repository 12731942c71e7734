-- ===== src/Registry/Defs.antt =====
-- The walk shared by `LookupStBuf`, `LookupBufObj` and `LookupVertArry`.
use qemu_win.Prelude.{Bool, List, [], ◌∷◌, Option, none, some, if◌then◌else◌}

module _ {ℓ} {A : Type ℓ} where
  -- the node that the walk stops at, and the list after the call
  abbrev pub find_or_add : (A → Bool) → A → List A → A × List A
  find_or_add hit fresh [] = (fresh, fresh ∷ [])
  find_or_add hit fresh (x ∷ xs) =
      if hit x then (x, x ∷ xs) else (let r = find_or_add hit fresh xs in (r.0, x ∷ r.1))

  -- what a later walk would find
  abbrev pub first : (A → Bool) → List A → Option A
  first hit [] = none
  first hit (x ∷ xs) = if hit x then some x else first hit xs
