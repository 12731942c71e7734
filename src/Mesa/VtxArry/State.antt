-- ===== src/Mesa/VtxArry/State.antt =====
-- The vertex arrays that both sides keep: vtxarry_t of mglfuncs.h, and the functions on it that are
-- the same text in mesapt_mm.c and wrapgl32.c.
use qemu_win.Prelude.{
  ℕ, zero, suc, ◌+◌, ◌*◌, Bool, ◌&&◌, Option, none, some, List, [], ◌∷◌, ◌==◌, ◌!=◌, if◌then◌else◌,
  update, u32, sub32, get_or, bit_and,
}
use qemu_win.Mesa.SzData.{szgldata}

pub record Vtxarry : Type 0 where
  pub enable : ℕ
  pub size : ℕ
  pub type : ℕ
  pub stride : ℕ
  pub ptr : ℕ

-- the fields of MesaPTState, of `vtxArry` and `Interleaved` in the guest
pub record Arrays : Type 0 where
  pub color : Vtxarry
  pub edge_flag : Vtxarry
  pub index : Vtxarry
  pub normal : Vtxarry
  pub tex_coord : ℕ → Vtxarry
  pub vertex : Vtxarry
  pub secondary_color : Vtxarry
  pub fog_coord : Vtxarry
  pub weight : Vtxarry
  pub gen_attrib : ℕ → Vtxarry
  pub interleaved : Vtxarry
  pub tex_unit : ℕ

-- a pointer to one of the fields
pub data Slot : Type 0 where
  color_slot : Slot
  edge_flag_slot : Slot
  index_slot : Slot
  normal_slot : Slot
  tex_coord_slot : ℕ → Slot
  vertex_slot : Slot
  secondary_color_slot : Slot
  fog_coord_slot : Slot
  weight_slot : Slot
  gen_attrib_slot : ℕ → Slot

unfoldable pub modify : (Vtxarry → Vtxarry) → Slot → Arrays → Arrays
modify f color_slot s = record s { color = f s.color }
modify f edge_flag_slot s = record s { edge_flag = f s.edge_flag }
modify f index_slot s = record s { index = f s.index }
modify f normal_slot s = record s { normal = f s.normal }
modify f (tex_coord_slot i) s = record s { tex_coord = update s.tex_coord i (f (s.tex_coord i)) }
modify f vertex_slot s = record s { vertex = f s.vertex }
modify f secondary_color_slot s = record s { secondary_color = f s.secondary_color }
modify f fog_coord_slot s = record s { fog_coord = f s.fog_coord }
modify f weight_slot s = record s { weight = f s.weight }
modify f (gen_attrib_slot i) s = record s {
  gen_attrib = update s.gen_attrib i (f (s.gen_attrib i));
}

unfoldable pub vtxarry_init : Vtxarry → ℕ → ℕ → ℕ → ℕ → Vtxarry
vtxarry_init a size type stride ptr = record a {
  size = size;
  type = type;
  stride = stride;
  ptr = ptr;
}

abbrev pub max_texunit : ℕ
max_texunit = 8

abbrev pub no_ptr : Vtxarry → Vtxarry
no_ptr a = record a { ptr = 0 }

-- `for (int i = 0; i < n; i++) arrays[i].ptr = 0;`
unfoldable pub reset_ptrs : ℕ → (ℕ → Vtxarry) → ℕ → Vtxarry
reset_ptrs zero arrays = arrays
reset_ptrs (suc n) arrays = let a = reset_ptrs n arrays in update a n (no_ptr (a n))

unfoldable pub vtxarry_ptr_reset : Arrays → Arrays
unfolding reset_ptrs
vtxarry_ptr_reset s = record s {
  color = no_ptr s.color;
  edge_flag = no_ptr s.edge_flag;
  index = no_ptr s.index;
  normal = no_ptr s.normal;
  tex_coord = reset_ptrs max_texunit s.tex_coord;
  vertex = no_ptr s.vertex;
  secondary_color = no_ptr s.secondary_color;
  fog_coord = no_ptr s.fog_coord;
  weight = no_ptr s.weight;
  gen_attrib = reset_ptrs 2 s.gen_attrib;
}

-- the array of an enumerator; `none` for one that is not supported
unfoldable pub array_slot : ℕ → ℕ → Option Slot
array_slot tex_unit arry =
    if arry == 0x8076
    then some color_slot
    else if arry == 0x8079
    then some edge_flag_slot
    else if arry == 0x8077
    then some index_slot
    else if arry == 0x8075
    then some normal_slot
    else if arry == 0x8078
    then some (tex_coord_slot tex_unit)
    else if arry == 0x8074
    then some vertex_slot
    else if arry == 0x845e
    then some secondary_color_slot
    else if arry == 0x8457
    then some fog_coord_slot
    else if arry == 0x86ad
    then some weight_slot
    else if arry == 0x06
    then some (gen_attrib_slot 0)
    else if arry == 0x07
    then some (gen_attrib_slot 1)
    else none

unfoldable pub vtxarry_state : ℕ → ℕ → Arrays → Arrays
unfolding array_slot modify
vtxarry_state arry st s = elim (array_slot s.tex_unit arry) [
  | none ↦ s
  | some slot ↦ modify (λ a. record a { enable = st }) slot s
]

-- the enumerator of a generic attribute, and the state with its texture unit
unfoldable pub vattr2arry_state : ℕ → Arrays → ℕ × Arrays
vattr2arry_state attr s =
    let st =
      get_or (0x8074 ∷ 0x86ad ∷ 0x8075 ∷ 0x8076 ∷ 0x845e ∷ 0x8457 ∷ 0x06 ∷ 0x07 ∷ [])
        (bit_and attr 7) 0 in
    if bit_and attr 8 != 0 then (0x8078, record s { tex_unit = bit_and attr 7 }) else (st, s)

unfoldable pub vattr2arry : ℕ → Slot
vattr2arry attr =
    let arry =
      get_or
        (vertex_slot
          ∷ weight_slot
          ∷ normal_slot
          ∷ color_slot
          ∷ secondary_color_slot
          ∷ fog_coord_slot
          ∷ gen_attrib_slot 0
          ∷ gen_attrib_slot 1
          ∷ [])
        (bit_and attr 7) vertex_slot in
    if bit_and attr 8 != 0 then tex_coord_slot (bit_and attr 7) else arry

-- `a.enable && a.ptr`
abbrev pub is_used : Vtxarry → Bool
is_used a = a.enable != 0 && a.ptr != 0

-- `(a.stride)? a.stride:szgldata(a.size, a.type)`, and the size of the elements from `start` to
-- `end`, in the arithmetic of `int`
abbrev pub cb_elem : Vtxarry → ℕ
cb_elem a = if a.stride != 0 then a.stride else szgldata a.size a.type

abbrev pub cb_data : Vtxarry → ℕ → ℕ → ℕ
cb_data a start end = u32 (cb_elem a * sub32 end start + szgldata a.size a.type)

-- the same for an interleaved array, whose `size` is its element's size
abbrev pub cb_elem_interleaved : Vtxarry → ℕ
cb_elem_interleaved a = if a.stride != 0 then a.stride else a.size

abbrev pub cb_data_interleaved : Vtxarry → ℕ → ℕ → ℕ
cb_data_interleaved a start end = u32 (cb_elem_interleaved a * sub32 end start + a.size)

-- `arrays[i]` to `arrays[i + n - 1]`
abbrev pub units : ℕ → ℕ → (ℕ → Vtxarry) → List Vtxarry
units zero i arrays = []
units (suc n) i arrays = arrays i ∷ units n (i + 1) arrays
