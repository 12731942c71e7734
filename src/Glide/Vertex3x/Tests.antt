-- ===== src/Glide/Vertex3x/Tests.antt =====
-- A vertex with a position, a packed colour and one texture coordinate.
use qemu_win.Prelude.{ℕ, ◌≤◌, ◌<◌, ◌≡◌, ◌≢◌, refl, ◌⊎◌, inl, arith, [], ◌∷◌, get_or, All-upto}
use qemu_win.Glide.Vertex3x.{Layout, size_vertex3x, vlut_vvars}
use qemu_win.Glide.Vertex3x.Laws.{
  IsSmall, IsExclusive, end_of, size_vertex3x_lem, vlut_vvars-IsExclusive,
}

abbrev a_layout : Layout
a_layout i = get_or (0 ∷ 8 ∷ 12 ∷ 0 ∷ 0 ∷ 0 ∷ 0 ∷ 16 ∷ 20 ∷ 0 ∷ 0 ∷ 0 ∷ []) i 0

a_layout-IsSmall : IsSmall a_layout
unfolding IsSmall
a_layout-IsSmall i lt =
    All-upto (λ k. a_layout k < 0x7ffffff4) 12 0 i (omega arith) (omega arith) lt

a_layout-IsExclusive : IsExclusive a_layout
unfolding IsExclusive
a_layout-IsExclusive = inl refl

a_layout_size : size_vertex3x a_layout ≡ 28
unfolding size_vertex3x
a_layout_size = refl

size_vertex3x_lem_example :
    (8 ≤ size_vertex3x a_layout)
    × ((j : ℕ) → j < 12 → a_layout j ≢ 0 → end_of a_layout j ≤ size_vertex3x a_layout)
    × ((size_vertex3x a_layout ≡ 8)
        ⊎ ((j : ℕ) × (j < 12) × (a_layout j ≢ 0) × (size_vertex3x a_layout ≡ end_of a_layout j)))
size_vertex3x_lem_example = size_vertex3x_lem a_layout a_layout-IsSmall

vlut_vvars-IsExclusive_example : IsExclusive (vlut_vvars 0x20 16 1 a_layout)
vlut_vvars-IsExclusive_example = vlut_vvars-IsExclusive a_layout 0x20 16 1 refl a_layout-IsExclusive
