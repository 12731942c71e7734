-- ===== src/Mesa/VertArry/Laws.antt =====
-- mglvarry.c: the offset that a lookup returns lies inside the copy.
use qemu_win.Prelude.{
  ℕ, ◌+◌, ◌*◌, ◌/◌, ◌^◌, ◌≤◌, ◌<◌, ◌≡◌, refl, true, false, ◌++◌, some, List, [], ◌∷◌, arith,
  Bool-cases, inl, inr, ◌⊎◌, ap, All, u32, sub32, ◌==◌,
}
use qemu_win.Registry.{find_or_add, All-find_or_add, find_or_add_again}
use qemu_win.Mesa.VertArry.{VertArry, page_size, covers, new_vert_arry, lookup_vert_arry}

-- how many bytes the copy holds
abbrev pub capacity : VertArry → ℕ
capacity p = sub32 p.tag_hi p.tag_lo

-- what `g_malloc(size << 1)` is asked for
capacity-new :
    (handle size mem : ℕ)
    → handle < 2 ^ 32
    → size < 2 ^ 32
    → capacity (new_vert_arry handle size mem) ≡ u32 (size * 2)
unfolding new_vert_arry
capacity-new handle size mem h z = ground arith

-- the copy reaches half a `size` beyond the offset of `handle`
abbrev pub Fits : ℕ → ℕ → VertArry → Type 0
Fits handle size p = sub32 handle p.tag_lo + size / 2 ≤ capacity p

Fits-covers :
    (handle size : ℕ) (p : VertArry)
    → handle < 2 ^ 32
    → p.tag_hi < 2 ^ 32
    → covers handle size p ≡ true
    → Fits handle size p
unfolding covers
Fits-covers handle size p h hi e = ground arith

Fits-new :
    (handle size mem : ℕ)
    → handle < 2 ^ 32
    → size < 2 ^ 31
    → (page_size ≤ handle) ⊎ (size < handle)
    → Fits handle size (new_vert_arry handle size mem)
unfolding new_vert_arry
Fits-new handle size mem h z low = ground arith

covers-new :
    (handle size mem : ℕ)
    → page_size ≤ handle
    → handle + size * 2 < 2 ^ 32
    → 0 < size
    → covers handle size (new_vert_arry handle size mem) ≡ true
unfolding covers new_vert_arry
covers-new handle size mem h small pos = ground arith

-- every `tagHi` is a 32-bit word
abbrev pub IsBounded : List VertArry → Type 0
IsBounded = All (λ p. p.tag_hi < 2 ^ 32)

Fits-find :
    (handle size mem : ℕ) (ps : List VertArry)
    → handle < 2 ^ 32
    → IsBounded ps
    → Fits handle size (new_vert_arry handle size mem)
    → Fits handle size (find_or_add (covers handle size) (new_vert_arry handle size mem) ps).0
Fits-find handle size mem [] h b fits = fits
Fits-find handle size mem (p ∷ ps) h b fits = elim (Bool-cases (covers handle size p)) [
  | inl e ↦ rw e (Fits-covers handle size p h b.0 e)
  | inr ne ↦ rw ne (Fits-find handle size mem ps h b.1 fits)
]

-- For a handle that is not null and lies on or above the first page, or above the size, `LookupVertex`
-- returns an offset from which half the size is still inside the node's copy.
pub lookup_vert_arry-Fits :
    (ps : List VertArry) (handle size mem : ℕ) {p : VertArry} {off : ℕ} {ps' : List VertArry}
    → IsBounded ps
    → handle < 2 ^ 32
    → size < 2 ^ 31
    → (page_size ≤ handle) ⊎ (size < handle)
    → lookup_vert_arry ps handle size mem ≡ (some (p, off), ps')
    → off + size / 2 ≤ capacity p
unfolding lookup_vert_arry
lookup_vert_arry-Fits ps handle size mem {p} b h z low e =
    let fits = Fits-find handle size mem ps h b (Fits-new handle size mem h z low) in ground arith

-- The bounds on the tags are kept.
pub lookup_vert_arry-IsBounded :
    (ps : List VertArry) (handle size mem : ℕ)
    → IsBounded ps
    → IsBounded (lookup_vert_arry ps handle size mem).1
unfolding lookup_vert_arry new_vert_arry
lookup_vert_arry-IsBounded ps handle size mem b = elim (Bool-cases (handle == 0)) [
  | inl e ↦ rw e b
  | inr ne ↦
      rw ne
        (All-find_or_add (covers handle size) (new_vert_arry handle size mem)
          (λ p. p.tag_hi < 2 ^ 32) ps (omega arith) b).1
]

-- A second call for a handle on or above the first page returns the same copy and offset, and
-- allocates nothing, if the size is not 0 and the copy does not reach the end of the 32-bit address
-- space.
pub lookup_vert_arry_again :
    (ps : List VertArry) (handle size mem again : ℕ)
    → page_size ≤ handle
    → handle + size * 2 < 2 ^ 32
    → 0 < size
    → lookup_vert_arry (lookup_vert_arry ps handle size mem).1 handle size again
      ≡ lookup_vert_arry ps handle size mem
unfolding lookup_vert_arry
lookup_vert_arry_again ps handle size mem again h small pos = elim (Bool-cases (handle == 0)) [
  | inl e ↦ absurd (ground arith)
  | inr ne ↦ rw ne (
      ap (λ (r : VertArry × List VertArry). (some (r.0, sub32 handle r.0.tag_lo), r.1))
        (find_or_add_again (covers handle size) (new_vert_arry handle size mem)
          (new_vert_arry handle size again) ps (covers-new handle size mem h small pos)))
]

neq-false : (handle : ℕ) → 0 < handle → (handle == 0) ≡ false
neq-false handle pos = ground arith

find_or_add-none :
    (handle size mem : ℕ) (ps : List VertArry)
    → All (λ p. covers handle size p ≡ false) ps
    → find_or_add (covers handle size) (new_vert_arry handle size mem) ps
      ≡ (new_vert_arry handle size mem, ps ++ new_vert_arry handle size mem ∷ [])
find_or_add-none handle size mem [] h = refl
find_or_add-none handle size mem (p ∷ ps) h = rw (h.0, find_or_add-none handle size mem ps h.1) refl

new_vert_arry_low :
    (handle size mem : ℕ)
    → 0 < handle
    → handle < page_size
    → handle ≤ size
    → size < 2 ^ 30
    → capacity (new_vert_arry handle size mem) < sub32 handle (new_vert_arry handle size mem).tag_lo
unfolding new_vert_arry
new_vert_arry_low handle size mem pos low le small = ground arith

-- A handle inside the first page that no copy covers, of an array at least as large as the handle
-- and below 2^30 bytes: a new copy is put behind the others, and the offset that is returned wraps
-- round and lies outside it.
pub lookup_vert_arry_low :
    (ps : List VertArry) (handle size mem : ℕ)
    → All (λ p. covers handle size p ≡ false) ps
    → 0 < handle
    → handle < page_size
    → handle ≤ size
    → size < 2 ^ 30
    → (p : VertArry) × (off : ℕ) × (lookup_vert_arry ps handle size mem
        ≡ (some (p, off), ps ++ p ∷ []))
      × (capacity p < off)
unfolding lookup_vert_arry
lookup_vert_arry_low ps handle size mem out pos low le small = (
  new_vert_arry handle size mem,
  sub32 handle (new_vert_arry handle size mem).tag_lo,
  rw (neq-false handle pos, find_or_add-none handle size mem ps out) refl,
  new_vert_arry_low handle size mem pos low le small,
)
