-- ===== src/Mesa/VertArry/Tests.antt =====
-- mglvarry.c at concrete handles.
use qemu_win.Prelude.{◌+◌, ◌/◌, ◌≡◌, refl, ◌≤◌, ◌<◌, ℕ, none, some, [], ◌∷◌, inl, arith}
use qemu_win.Mesa.VertArry.{VertArry, covers, new_vert_arry, lookup_vert_arry, free_vert_arry}
use qemu_win.Mesa.VertArry.Laws.{
  capacity, IsBounded, lookup_vert_arry-Fits, lookup_vert_arry-IsBounded, lookup_vert_arry_again,
  lookup_vert_arry_low,
}

-- a megabyte on each side of the handle
abbrev copy : VertArry
copy = record { tag_lo = 0x300000; tag_hi = 0x500000; ptr = 64 }

first_call : lookup_vert_arry [] 0x400000 0x100000 64 ≡ (some (copy, 0x100000), copy ∷ [])
unfolding lookup_vert_arry covers new_vert_arry
first_call = refl

-- a nearby handle shares the copy
second_call :
    lookup_vert_arry (copy ∷ []) 0x400020 0x100000 128 ≡ (some (copy, 0x100020), copy ∷ [])
unfolding lookup_vert_arry covers new_vert_arry
second_call = refl

null_handle : lookup_vert_arry (copy ∷ []) 0 0x100000 128 ≡ (none, copy ∷ [])
unfolding lookup_vert_arry
null_handle = refl

release : free_vert_arry (copy ∷ []) ≡ (1, [])
unfolding free_vert_arry
release = refl

lookup_vert_arry-Fits_example : 0x100020 + 0x100000 / 2 ≤ capacity copy
lookup_vert_arry-Fits_example =
    lookup_vert_arry-Fits (copy ∷ []) 0x400020 0x100000 128 (omega arith) (omega arith)
      (omega arith) (inl (omega arith)) second_call

lookup_vert_arry-IsBounded_example :
    IsBounded (lookup_vert_arry (copy ∷ []) 0x900000 0x100000 128).1
lookup_vert_arry-IsBounded_example =
    lookup_vert_arry-IsBounded (copy ∷ []) 0x900000 0x100000 128 (omega arith)

lookup_vert_arry_again_example :
    lookup_vert_arry (lookup_vert_arry [] 0x400000 0x100000 64).1 0x400000 0x100000 128
    ≡ lookup_vert_arry [] 0x400000 0x100000 64
lookup_vert_arry_again_example =
    lookup_vert_arry_again [] 0x400000 0x100000 64 128 (omega arith) (omega arith) (omega arith)

lookup_vert_arry_low_example :
    (p : VertArry) × (off : ℕ) × (lookup_vert_arry (copy ∷ []) 0x10 0x80000 64
      ≡ (some (p, off), copy ∷ p ∷ []))
    × (capacity p < off)
unfolding covers
lookup_vert_arry_low_example =
    lookup_vert_arry_low (copy ∷ []) 0x10 0x80000 64 (refl, tt) (omega arith) (omega arith)
      (omega arith) (omega arith)
