-- ===== src/Mesa/VtxArry/Prep.antt =====
-- wrapgl32.c: PrepVertexArray, which has the host empty the queue when the arrays that are going to
-- be pushed do not fit.
use qemu_win.Prelude.{
  ℕ, zero, suc, ◌+◌, ◌*◌, ◌/◌, ◌%◌, Bool, true, false, List, [], ◌∷◌, ◌==◌, leb, if◌then◌else◌, u32,
  sar32, bit_and,
}
use qemu_win.Fifo.Defs.{Memory}
use qemu_win.Mesa.VtxArry.State.{
  Vtxarry, Arrays, is_used, cb_data, cb_data_interleaved, units, max_texunit, vtxarry_state,
  vattr2arry_state,
}

-- ALIGNED, of an `int`
abbrev pub aligned_int : ℕ → ℕ
aligned_int x = if (x % 8) == 0 then x else u32 ((x / 8 + 1) * 8)

-- the guest's state, and the variable `n`
pub record Prep : Type 0 where
  pub arrays : Arrays
  pub mem : Memory
  pub n : ℕ

-- `if (a.enable && a.ptr) n += ALIGNED(...)`
unfoldable pub count_one : Vtxarry → ℕ → ℕ → ℕ → ℕ
count_one a start end n = if is_used a then u32 (n + aligned_int (cb_data a start end)) else n

unfoldable pub count_all : List Vtxarry → ℕ → ℕ → ℕ → ℕ
count_all [] start end n = n
count_all (a ∷ rest) start end n = count_all rest start end (count_one a start end n)

-- the body for one texture unit, by whether its array is used and cannot be read
unfoldable pub prep_used : Bool → Bool → ℕ → Arrays × Memory → Prep → Prep
prep_used false bad ucb t p = p
prep_used true true ucb t p = record p { arrays = t.0; mem = t.1 }
prep_used true false ucb t p = record p { n = u32 (p.n + ucb) }

-- `active` and `disable` queue a call of glClientActiveTexture and of glDisableClientState.
module _ (active disable : ℕ → Memory → Memory) where
  unfoldable pub gl_client_active_texture : ℕ → Arrays × Memory → Arrays × Memory
  gl_client_active_texture arg0 (s, m) = (
    if bit_and arg0 0xffe0 == 0x84c0 then record s { tex_unit = bit_and arg0 7 } else s,
    active arg0 m,
  )

  unfoldable pub gl_disable_client_state : ℕ → Arrays × Memory → Arrays × Memory
  unfolding vtxarry_state vattr2arry_state
  gl_disable_client_state arg0 (s, m) = (
    if bit_and arg0 0xfff0 == 0x8650
        then (let (st, s') = vattr2arry_state (bit_and arg0 15) s in vtxarry_state st 0 s')
        else vtxarry_state arg0 0 s,
    disable arg0 m,
  )

  -- a unit whose array cannot be read is disabled
  unfoldable pub drop_unit : ℕ → Arrays × Memory → Arrays × Memory
  unfolding gl_client_active_texture gl_disable_client_state
  drop_unit i t = gl_disable_client_state 0x8078 (gl_client_active_texture (0x84c0 + i) t)

  -- `bad_read` is IsBadReadPtr
  module _ (bad_read : ℕ → ℕ → Bool) where
    unfoldable pub prep_unit : ℕ → ℕ → ℕ → Prep → Prep
    unfolding prep_used
    prep_unit i start end p =
        let a = p.arrays.tex_coord i in
        let ucb = aligned_int (cb_data a start end) in
        prep_used (is_used a) (bad_read a.ptr ucb) ucb (drop_unit i (p.arrays, p.mem)) p

    -- the loop over the texture units, with k rounds left
    unfoldable pub prep_units : ℕ → ℕ → ℕ → ℕ → Prep → Prep
    prep_units zero i start end p = p
    prep_units (suc k) i start end p = prep_units k (i + 1) start end (prep_unit i start end p)

    -- the counting for an interleaved array, and for the others
    unfoldable pub prep_interleaved : Arrays → ℕ → ℕ → ℕ → Memory → Prep
    prep_interleaved s start end sizei m = record {
      arrays = s;
      mem = m;
      n = u32 (sizei + aligned_int (cb_data_interleaved s.interleaved start end));
    }

    unfoldable pub prep_separate : Arrays → ℕ → ℕ → ℕ → Memory → Prep
    prep_separate s start end sizei m =
        let p = prep_units max_texunit 0 start end record {
          arrays = s;
          mem = m;
          n = count_all (s.color ∷ s.edge_flag ∷ s.index ∷ s.normal ∷ []) start end sizei;
        } in
        let t = p.arrays in
        record p {
          n =
              count_all
                (t.vertex ∷ t.secondary_color ∷ t.fog_coord ∷ t.weight ∷ units 2 0 t.gen_attrib)
                start end p.n;
        }

    -- the counting, up to the test
    unfoldable pub prep_count : Arrays → ℕ → ℕ → ℕ → Memory → Prep
    prep_count s start end sizei m =
        if is_used s.interleaved
        then prep_interleaved s start end sizei m
        else prep_separate s start end sizei m

    -- `flush` has the host run the queue
    unfoldable pub prep_vertex_array :
        ℕ → ℕ → (Memory → Memory) → Arrays → ℕ → ℕ → ℕ → Memory → Arrays × Memory
    unfolding prep_count
    prep_vertex_array max_fifo max_data flush s start end sizei m =
        let p = prep_count s start end sizei m in
        (p.arrays, if leb max_data (u32 (p.mem max_fifo + sar32 p.n 2)) then flush p.mem else p.mem)
