-- ===== src/Fifo/Copy.antt =====
-- What the two copying loops of the guest write.
use qemu_win.Prelude.{
  ℕ, zero, suc, ◌+◌, ◌≤◌, ◌<◌, ◌≡◌, refl, ◌∙◌, ap, ◌⊎◌, List, [], ◌∷◌, arith, length, subst, update,
}
use qemu_win.Fifo.Defs.{Memory}
use qemu_win.Fifo.Guest.{copy_args, copy_words}
use qemu_win.Fifo.Calls.{Words}
use qemu_win.Fifo.Frame.{Words-frame}

pub copy_args-out :
    (n i j : ℕ) (m : Memory) (k : ℕ) → (k < j) ⊎ (j + n ≤ k) → copy_args n i j m k ≡ m k
unfolding copy_args
copy_args-out zero i j m k h = refl
copy_args-out (suc n) i j m k h =
    copy_args-out n (i + 1) (j + 1) (update m j (m (2 + i))) k (omega arith) ∙ ground arith

pub copy_args-Words :
    (i j : ℕ) (m : Memory) (xs : List ℕ)
    → 2 + i + length xs ≤ j
    → Words m (2 + i) xs
    → Words (copy_args (length xs) i j m) j xs
unfolding copy_args
copy_args-Words i j m [] h w = tt
copy_args-Words i j m (x ∷ xs) h w =
    let m' : Memory = update m j (m (2 + i)) in
    let w' : Words m' (2 + (i + 1)) xs =
      Words-frame m m' (2 + (i + 1)) xs (λ k p q. ground arith)
        (subst (λ a. Words m a xs) (omega arith) w.1) in
    (
      copy_args-out (length xs) (i + 1) (j + 1) m' j (omega arith) ∙ ground arith,
      copy_args-Words (i + 1) (j + 1) m' xs (omega arith) w',
    )

-- n words of a buffer, from its word i on
unfoldable pub words_of : (ℕ → ℕ) → ℕ → ℕ → List ℕ
words_of src i zero = []
words_of src i (suc n) = src i ∷ words_of src (i + 1) n

pub length-words_of : (src : ℕ → ℕ) (i n : ℕ) → length (words_of src i n) ≡ n
unfolding words_of
length-words_of src i zero = refl
length-words_of src i (suc n) = ap suc (length-words_of src (i + 1) n)

pub copy_words-out :
    (n i j : ℕ) (src : ℕ → ℕ) (m : Memory) (k : ℕ)
    → (k < j) ⊎ (j + n ≤ k)
    → copy_words n i j src m k ≡ m k
unfolding copy_words
copy_words-out zero i j src m k h = refl
copy_words-out (suc n) i j src m k h =
    copy_words-out n (i + 1) (j + 1) src (update m j (src i)) k (omega arith) ∙ ground arith

pub copy_words-Words :
    (n i j : ℕ) (src : ℕ → ℕ) (m : Memory) → Words (copy_words n i j src m) j (words_of src i n)
unfolding copy_words words_of
copy_words-Words zero i j src m = tt
copy_words-Words (suc n) i j src m = (
  copy_words-out n (i + 1) (j + 1) src (update m j (src i)) j (omega arith) ∙ ground arith,
  copy_words-Words n (i + 1) (j + 1) src (update m j (src i)),
)
