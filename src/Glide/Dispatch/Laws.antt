-- ===== src/Glide/Dispatch/Laws.antt =====
-- glide2x_impl.c: the arguments that the Glide library gets from doGlideFunc.
use qemu_win.Prelude.{
  ℕ, ◌<◌, ◌≡◌, refl, Bool, true, false, ◌&&◌, Option, none, some, List, [], ◌∷◌, arith, ◌==◌,
  length, all_below, all_below_lem, is_in, if◌then◌else◌,
}
use qemu_win.Glide.Symbols.{get_num_args, sym}
use qemu_win.Glide.Symbols.Laws.{func_enum_max}
use qemu_win.Glide.Dispatch.Forms.{Arg}
use qemu_win.Glide.Dispatch.{window_calls, fb_calls, library_calls}

unfoldable pub counts : List (List Arg) → List ℕ
counts [] = []
counts (c ∷ cs) = length c ∷ counts cs

-- the counts that a function should have: one call with as many arguments as its name says
unfoldable pub named_counts : ℕ → Option ℕ → List ℕ
named_counts fenum none = []
named_counts fenum (some n) =
    if is_in window_calls fenum then [] else if is_in fb_calls fenum then n ∷ n ∷ [] else n ∷ []

abbrev pub same_list : List ℕ → List ℕ → Bool
same_list [] [] = true
same_list [] (y ∷ ys) = false
same_list (x ∷ xs) [] = false
same_list (x ∷ xs) (y ∷ ys) = (x == y) && same_list xs ys

same_list-≡ : (xs ys : List ℕ) → same_list xs ys ≡ true → xs ≡ ys
same_list-≡ [] [] h = refl
same_list-≡ [] (y ∷ ys) h = ground arith
same_list-≡ (x ∷ xs) [] h = ground arith
same_list-≡ (x ∷ xs) (y ∷ ys) h = grind (arith, same_list-≡ xs ys)

as_named : ℕ → Bool
as_named f =
    same_list (counts (library_calls false false f)) (named_counts f (get_num_args (sym f)))

all_as_named : all_below as_named func_enum_max ≡ true
unfolding as_named counts named_counts library_calls get_num_args sym
all_as_named = refl

-- Outside the emulation of Glide 2.11, and for a region that is not hidden, each function of the
-- table makes one call of the library with as many arguments as its decorated name says; the five
-- functions that open or close a window make none, and guFbReadRegion and guFbWriteRegion make two.
pub library_calls_named :
    (fenum : ℕ)
    → fenum < func_enum_max
    → counts (library_calls false false fenum) ≡ named_counts fenum (get_num_args (sym fenum))
unfolding as_named
library_calls_named fenum lt =
    same_list-≡ _ _ (all_below_lem as_named func_enum_max fenum all_as_named lt)
