-- ===== src/Mesa/VtxArry/Host.antt =====
-- mesapt_mm.c: PushVertexArray and InitClientStates of the host.
use qemu_win.Prelude.{
  ℕ, ◌+◌, ◌-◌, ◌*◌, ◌%◌, ◌&&◌, List, [], ◌∷◌, ◌++◌, ◌==◌, leb, ltb, if◌then◌else◌, u32, u64, sar32,
  slt32, sext,
}
use qemu_win.Mesa.VtxArry.State.{
  Vtxarry, Arrays, is_used, cb_elem, cb_data, cb_elem_interleaved, cb_data_interleaved, units,
  max_texunit,
}

-- The state of a push: `varry_ptr` as an offset from `pshm`, `s->datacb`, and the host's memory,
-- by bytes.
pub record Push : Type 0 where
  pub varry_ptr : ℕ
  pub datacb : ℕ
  pub bytes : ℕ → ℕ

-- `memcpy`, from the shared memory
abbrev pub memcpy : (ℕ → ℕ) → ℕ → ℕ → ℕ → (ℕ → ℕ) → ℕ → ℕ
memcpy shm dst src cb bytes k =
    if leb dst k && ltb k (dst + cb) then shm (src + (k - dst)) else bytes k

-- `(n & 0x03)? ((n >> 2) + 1):(n >> 2)`, on an `int`
abbrev pub int_words : ℕ → ℕ
int_words n = if (n % 4) == 0 then sar32 n 2 else u32 (sar32 n 2 + 1)

-- `(n & 0x01)? ((n + 1) << 2):(n << 2)`
abbrev pub int_even_bytes : ℕ → ℕ
int_even_bytes n = if (n % 2) == 0 then u32 (n * 4) else u32 ((n + 1) * 4)

-- the arrays, in the order of the function's text
unfoldable pub host_order : Arrays → List Vtxarry
host_order s =
    s.color
    ∷ s.edge_flag
    ∷ s.index
    ∷ s.normal
    ∷ (units max_texunit 0 s.tex_coord
        ++ (s.vertex ∷ s.secondary_color ∷ s.fog_coord ∷ s.weight ∷ units 2 0 s.gen_attrib))

-- `shm` is the shared memory from `pshm` on, `sz_vert_cache` is `s->szVertCache`
module _ (shm : ℕ → ℕ) (sz_vert_cache : ℕ) where
  -- the body for one array, from its element's size and the number of bytes
  unfoldable pub push_bytes : ℕ → ℕ → ℕ → ℕ → Push → Push
  push_bytes ptr elem start cb t =
      let n = int_words cb in
      let half = sar32 sz_vert_cache 1 in
      let step = int_even_bytes n in
      record {
        varry_ptr = u64 (t.varry_ptr + sext step);
        datacb = u32 (t.datacb + step);
        bytes =
            memcpy shm (u64 (ptr + sext (u32 (elem * start)))) t.varry_ptr
              (sext (if slt32 half (u32 (n * 4)) then half else u32 (n * 4))) t.bytes;
      }

  unfoldable pub push_one : Vtxarry → ℕ → ℕ → Push → Push
  push_one a start end t =
      if is_used a then push_bytes a.ptr (cb_elem a) start (cb_data a start end) t else t

  unfoldable pub push_all : List Vtxarry → ℕ → ℕ → Push → Push
  push_all [] start end t = t
  push_all (a ∷ rest) start end t = push_all rest start end (push_one a start end t)

  unfoldable pub push_vertex_array : Arrays → ℕ → ℕ → Push → Arrays × Push
  push_vertex_array s start end t =
      let a = s.interleaved in
      if is_used a
      then (
        record s { interleaved = record a { enable = 0 } },
        push_bytes a.ptr (cb_elem_interleaved a) start (cb_data_interleaved a start end) t,
      )
      else (s, push_all (host_order s) start end t)

-- `memset(&a, 0, sizeof(vtxarry_t))`
abbrev pub no_array : Vtxarry
no_array = record { enable = 0; size = 0; type = 0; stride = 0; ptr = 0 }

-- the fields of MesaPTState that are reset besides
pub record ClientState : Type 0 where
  pub arrays : Arrays
  pub elem_max : ℕ
  pub array_buf : ℕ
  pub vao : ℕ
  pub elem_arry_buf : ℕ
  pub query_buf : ℕ
  pub pix_pack_buf : ℕ
  pub pix_unpack_buf : ℕ
  pub sz_pack_width : ℕ
  pub sz_unpack_width : ℕ
  pub sz_pack_height : ℕ
  pub sz_unpack_height : ℕ

-- InitClientStates, without GLExtUncapped
unfoldable pub init_client_states : ClientState → ClientState
init_client_states s = record {
  arrays = record {
    color = no_array;
    edge_flag = no_array;
    index = no_array;
    normal = no_array;
    tex_coord = λ i. if ltb i max_texunit then no_array else s.arrays.tex_coord i;
    vertex = no_array;
    secondary_color = no_array;
    fog_coord = no_array;
    weight = no_array;
    gen_attrib = λ i. if ltb i 2 then no_array else s.arrays.gen_attrib i;
    interleaved = no_array;
    tex_unit = 0;
  };
  elem_max = 0;
  array_buf = 0;
  vao = 0;
  elem_arry_buf = 0;
  query_buf = 0;
  pix_pack_buf = 0;
  pix_unpack_buf = 0;
  sz_pack_width = 0;
  sz_unpack_width = 0;
  sz_pack_height = 0;
  sz_unpack_height = 0;
}
