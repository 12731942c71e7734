-- ===== src/Glide/Vertex3x.antt =====
-- vertex3x.h: the layout of a Glide 3 vertex, as the guest declares it.
mod Laws
mod Tests
use qemu_win.Prelude.{
  ℕ, zero, suc, ◌+◌, ◌-◌, ◌/◌, ◌%◌, ◌^◌, Bool, ◌&&◌, List, [], ◌∷◌, ◌==◌, ◌!=◌, if◌then◌else◌,
  get_or, update, u32, sar32, slt32, bit_and,
}

abbrev pub gr_param_a : ℕ
gr_param_a = 0x10

abbrev pub gr_param_rgb : ℕ
gr_param_rgb = 0x20

abbrev pub gr_param_pargb : ℕ
gr_param_pargb = 0x30

-- GR_PARAM_IDX, of an `int`
abbrev pub gr_param_idx : ℕ → ℕ
gr_param_idx p =
    if bit_and p 0xf0 != 0
    then (if bit_and p 0x01 != 0 then u32 (sar32 p 4 + 6) else u32 (sar32 p 4 + 4))
    else u32 (p + (2 ^ 32 - 1))

abbrev pub slen : List ℕ
slen = 8 ∷ 4 ∷ 4 ∷ 4 ∷ 4 ∷ 4 ∷ 12 ∷ 4 ∷ 8 ∷ 4 ∷ 8 ∷ 4 ∷ []

-- `vlut`, by its index; an index that is not below 12 stands for memory beyond the array
abbrev pub Layout : Type 0
Layout = ℕ → ℕ

unfoldable pub vlut_vvars : ℕ → ℕ → ℕ → Layout → Layout
vlut_vvars param offs mode vlut =
    let v1 = update vlut (gr_param_idx param) (if mode != 0 then offs else 0) in
    let v2 =
      if gr_param_pargb == param
      then update (update v1 (gr_param_idx gr_param_a) 0) (gr_param_idx gr_param_rgb) 0
      else v1 in
    if gr_param_rgb == param then update v2 (gr_param_idx gr_param_pargb) 0 else v2

-- the loop, from index i on with n rounds left
unfoldable pub size_loop : ℕ → ℕ → Layout → ℕ → ℕ
size_loop zero i vlut ret = ret
size_loop (suc n) i vlut ret =
    let end = u32 (vlut i + get_or slen i 0) in
    size_loop n (i + 1) vlut (if vlut i != 0 && slt32 ret end then end else ret)

unfoldable pub size_vertex3x : Layout → ℕ
unfolding size_loop
size_vertex3x vlut = size_loop 12 0 vlut 8
