-- ===== src/Prelude/Lists.antt =====
-- Lists measured and indexed by native numbers, under the library's names, and C arrays as
-- functions from an index.
use Prim.Native.Nat.{ℕ, zero, suc, ◌+◌, ◌<◌, ◌≤◌}
use mathlib.Core.Path.{◌≡◌, subst}
use mathlib.Core.Logic.{◌⊎◌, inl, inr}
use mathlib.Core.Bool.{Bool, true, false, ◌||◌, ◌&&◌}
use mathlib.Core.List.{List, [], ◌∷◌, ◌++◌}
use native.Mathlib.Omega.{arith}
use qemu_win.Prelude.Bools.{◌==◌, if◌then◌else◌, Bool-cases}

module _ {ℓ} {A : Type ℓ} where
  abbrev pub length : List A → ℕ
  length [] = 0
  length (x ∷ xs) = suc (length xs)

  abbrev pub get_or : List A → ℕ → A → A
  get_or [] i d = d
  get_or (x ∷ xs) zero d = x
  get_or (x ∷ xs) (suc i) d = get_or xs i d

  pub length-append : (xs ys : List A) → length (xs ++ ys) ≡ length xs + length ys
  length-append [] ys = omega arith
  length-append (x ∷ xs) ys = omega (arith, length-append xs ys)

abbrev pub All {ℓ κ} : {A : Type ℓ} → (A → Type κ) → List A → Type κ
All P [] = Unit
All P (x ∷ xs) = P x × All P xs

pub All-append {ℓ κ} :
    {A : Type ℓ} (P : A → Type κ) (xs ys : List A) → All P xs → All P ys → All P (xs ++ ys)
All-append P [] ys hx hy = hy
All-append P (x ∷ xs) ys hx hy = (hx.0, All-append P xs ys hx.1 hy)

-- `m[i] = v`, for an array or a memory that is a function of the index.
abbrev pub update {ℓ} : {A : Type ℓ} → (ℕ → A) → ℕ → A → ℕ → A
update m i v j = if i == j then v else m j

abbrev pub is_in : List ℕ → ℕ → Bool
is_in [] a = false
is_in (x ∷ xs) a = (a == x) || is_in xs a

-- a test that holds of all numbers below a bound
abbrev pub all_below : (ℕ → Bool) → ℕ → Bool
all_below f zero = true
all_below f (suc n) = f n && all_below f n

pub all_below_lem : (f : ℕ → Bool) (n k : ℕ) → all_below f n ≡ true → k < n → f k ≡ true
all_below_lem f zero k h lt = ground arith
all_below_lem f (suc n) k h lt = grind (arith, all_below_lem f n k)

-- the n numbers from i on
abbrev pub upto : ℕ → ℕ → List ℕ
upto zero i = []
upto (suc n) i = i ∷ upto n (i + 1)

pub eq_or_lt : (i k : ℕ) → i ≤ k → (i ≡ k) ⊎ (i + 1 ≤ k)
eq_or_lt i k h = omega arith

-- To prove a property of the numbers below a bound one by one.
pub All-upto {ℓ} : (P : ℕ → Type ℓ) (n i k : ℕ) → All P (upto n i) → i ≤ k → k < i + n → P k
All-upto P zero i k h ge lt = ground arith
All-upto P (suc n) i k h ge lt = elim (eq_or_lt i k ge) [
  | inl e ↦ subst P e h.0
  | inr g ↦ All-upto P n (i + 1) k h.1 (omega arith) (omega arith)
]

eq_of : (a x : ℕ) → (a == x) ≡ true → x ≡ a
eq_of a x h = ground arith

pub All-is_in {ℓ} : (P : ℕ → Type ℓ) (xs : List ℕ) (a : ℕ) → All P xs → is_in xs a ≡ true → P a
All-is_in P [] a h m = ground arith
All-is_in P (x ∷ xs) a h m = elim (Bool-cases (a == x)) [
  | inl e ↦ subst P (eq_of a x e) h.0
  | inr e ↦ All-is_in P xs a h.1 (ground arith)
]
