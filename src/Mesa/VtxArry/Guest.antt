-- ===== src/Mesa/VtxArry/Guest.antt =====
-- wrapgl32.c: PrepVertexArray and PushVertexArray of the guest.
use qemu_win.Prelude.{ℕ, ◌+◌, ◌*◌, List, [], ◌∷◌, ◌++◌, if◌then◌else◌, u32}
use qemu_win.Fifo.Defs.{Memory}
use qemu_win.Fifo.Guest.{fifo_add_data}
use qemu_win.Mesa.VtxArry.State.{
  Vtxarry, Arrays, is_used, cb_elem, cb_data, cb_elem_interleaved, cb_data_interleaved, units,
  max_texunit,
}

-- the arrays, in the order of the function's text
unfoldable pub guest_order : Arrays → List Vtxarry
guest_order s =
    s.color
    ∷ s.edge_flag
    ∷ s.index
    ∷ s.normal
    ∷ (units max_texunit 0 s.tex_coord
        ++ (s.vertex ∷ s.secondary_color ∷ s.fog_coord ∷ s.weight ∷ units 2 0 s.gen_attrib))

-- `load` is the guest's memory: the word at an address
module _ (max_fifo : ℕ) (load : ℕ → ℕ) where
  -- `fifoAddData(0, (uint32_t)(ptr + (start*elem)), cb)`
  unfoldable pub add_bytes : ℕ → ℕ → ℕ → ℕ → Memory → Memory
  add_bytes ptr elem start cb m =
      let addr = u32 (ptr + start * elem) in
      fifo_add_data max_fifo m 0 addr (λ i. load (addr + 4 * i)) cb

  unfoldable pub add_one : Vtxarry → ℕ → ℕ → Memory → Memory
  add_one a start end m =
      if is_used a then add_bytes a.ptr (cb_elem a) start (cb_data a start end) m else m

  unfoldable pub add_all : List Vtxarry → ℕ → ℕ → Memory → Memory
  add_all [] start end m = m
  add_all (a ∷ rest) start end m = add_all rest start end (add_one a start end m)

  unfoldable pub add_vertex_array : Arrays → ℕ → ℕ → Memory → Arrays × Memory
  add_vertex_array s start end m =
      let a = s.interleaved in
      if is_used a
      then (
        record s { interleaved = record a { enable = 0 } },
        add_bytes a.ptr (cb_elem_interleaved a) start (cb_data_interleaved a start end) m,
      )
      else (s, add_all (guest_order s) start end m)
