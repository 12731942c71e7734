-- ===== src/Glide/Vertex3x/Laws.antt =====
-- vertex3x.h: the size of a vertex is where its last declared component ends.
use qemu_win.Prelude.{
  ℕ, zero, suc, ◌+◌, ◌-◌, ◌^◌, ◌≤◌, ◌<◌, ◌≡◌, ◌≢◌, refl, ◌∙◌, ◌⊎◌, inl, inr, true, List, ◌&&◌, ◌!=◌,
  if◌then◌else◌, slt32, arith, get_or, u32, All-upto, eq_or_lt, subst, All-is_in, is_in, [], ◌∷◌,
}
use qemu_win.Glide.Vertex3x.{Layout, slen, size_loop, size_vertex3x, vlut_vvars}

-- no offset is so large that the end of a component overflows
unfoldable pub IsSmall : Layout → Type 0
IsSmall vlut = (i : ℕ) → i < 12 → vlut i < 2 ^ 31 - 12

-- where component i ends
abbrev pub end_of : Layout → ℕ → ℕ
end_of vlut i = vlut i + get_or slen i 0

slen_le : (i : ℕ) → i < 12 → get_or slen i 0 ≤ 12
slen_le i lt = All-upto (λ k. get_or slen k 0 ≤ 12) 12 0 i (omega arith) (omega arith) lt

-- one round: from the offset, the length and the size so far
abbrev longer : ℕ → ℕ → ℕ → ℕ
longer v l ret = let end = u32 (v + l) in if v != 0 && slt32 ret end then end else ret

longer_facts :
    (v l ret : ℕ)
    → v < 2 ^ 31 - 12
    → l ≤ 12
    → ret < 2 ^ 31
    → (ret ≤ longer v l ret)
      × (longer v l ret < 2 ^ 31)
      × (v ≢ 0 → v + l ≤ longer v l ret)
      × ((longer v l ret ≡ ret) ⊎ ((v ≢ 0) × (longer v l ret ≡ v + l)))
longer_facts v l ret hv hl hr = (ground arith, ground arith, λ ne. ground arith, ground arith)

record Bounds (vlut : Layout) (i n ret size : ℕ) : Type 0 where
  grows : ret ≤ size
  covers : (j : ℕ) → i ≤ j → j < i + n → vlut j ≢ 0 → end_of vlut j ≤ size
  attained : (size ≡ ret) ⊎ ((j : ℕ) × (j < i + n) × (vlut j ≢ 0) × (size ≡ end_of vlut j))

size_loop-Bounds :
    (n i : ℕ) (vlut : Layout) (ret : ℕ)
    → IsSmall vlut
    → i + n ≤ 12
    → ret < 2 ^ 31
    → Bounds vlut i n ret (size_loop n i vlut ret)
unfolding size_loop IsSmall
size_loop-Bounds zero i vlut ret small le low = record {
  grows = omega arith;
  covers = λ j a b ne. omega arith;
  attained = inl refl;
}
size_loop-Bounds (suc n) i vlut ret small le low =
    let f =
      longer_facts (vlut i) (get_or slen i 0) ret (small i (omega arith)) (slen_le i (omega arith))
        low in
    let r =
      size_loop-Bounds n (i + 1) vlut (longer (vlut i) (get_or slen i 0) ret) small (omega arith)
        f.1 in
    record {
      grows = omega (arith, f.0, r.grows);
      covers = λ j a b ne. elim (eq_or_lt i j a) [
        | inl e ↦
            subst
              (λ k.
                vlut k ≢ 0
                → end_of vlut k ≤ size_loop n (i + 1) vlut (longer (vlut i) (get_or slen i 0) ret))
              e (λ ne'. omega (arith, f.2 ne', r.grows)) ne
        | inr g ↦ r.covers j g (omega arith) ne
      ];
      attained = elim r.attained [
        | inl e ↦ elim f.3 [ inl e' ↦ inl (e ∙ e') | inr g ↦ inr (i, omega arith, g.0, e ∙ g.1) ]
        | inr (j, b, ne, e) ↦ inr (j, omega arith, ne, e)
      ];
    }

-- If no offset is near the end of `int`: a vertex has room for each component that is declared (that
-- has an offset), and at least 8 bytes; and it is no larger, so that it ends where a declared
-- component ends, or it has 8 bytes.
pub size_vertex3x_lem :
    (vlut : Layout)
    → IsSmall vlut
    → (8 ≤ size_vertex3x vlut)
      × ((j : ℕ) → j < 12 → vlut j ≢ 0 → end_of vlut j ≤ size_vertex3x vlut)
      × ((size_vertex3x vlut ≡ 8)
          ⊎ ((j : ℕ) × (j < 12) × (vlut j ≢ 0) × (size_vertex3x vlut ≡ end_of vlut j)))
unfolding size_vertex3x
size_vertex3x_lem vlut small =
    let b = size_loop-Bounds 12 0 vlut 8 small (omega arith) (omega arith) in
    (b.grows, λ j lt ne. b.covers j (omega arith) lt ne, b.attained)

-- the parameters of Glide 3
abbrev pub params : List ℕ
params = 0x01 ∷ 0x02 ∷ 0x03 ∷ 0x04 ∷ 0x05 ∷ 0x10 ∷ 0x20 ∷ 0x30 ∷ 0x40 ∷ 0x41 ∷ 0x50 ∷ 0x51 ∷ []

-- not both a packed colour and one of three components
unfoldable pub IsExclusive : Layout → Type 0
IsExclusive vlut = (vlut 6 ≡ 0) ⊎ (vlut 7 ≡ 0)

-- Declaring or withdrawing a parameter of Glide 3 never leaves both a packed colour and one of three
-- components declared.
pub vlut_vvars-IsExclusive :
    (vlut : Layout) (param offs mode : ℕ)
    → is_in params param ≡ true
    → IsExclusive vlut
    → IsExclusive (vlut_vvars param offs mode vlut)
unfolding vlut_vvars IsExclusive
vlut_vvars-IsExclusive vlut param offs mode known h =
    All-is_in (λ p. IsExclusive (vlut_vvars p offs mode vlut)) params param
      (h, (h, (h, (h, (h, (h, (inr refl, (inl refl, (h, (h, (h, (h, tt)))))))))))) known
