-- ===== src/Mesa/VtxArry/Tests.antt =====
-- A push of two arrays, on both sides.
use qemu_win.Prelude.{
  ℕ, ◌+◌, ◌/◌, ◌⊎◌, Bool, false, ◌<◌, ◌≡◌, refl, some, arith, ◌==◌, if◌then◌else◌, update,
}
use qemu_win.Fifo.Defs.{Memory, num_data, even_up}
use qemu_win.Mesa.SzData.{szgldata, sztype, szformat, size_in}
use qemu_win.Mesa.SzData.Tables.{gltype, glformat, packed_types}
use qemu_win.Mesa.VtxArry.State.{
  Vtxarry, Arrays, tex_coord_slot, array_slot, vattr2arry, vattr2arry_state,
}
use qemu_win.Mesa.VtxArry.Host.{Push, push_vertex_array, no_array}
use qemu_win.Mesa.VtxArry.Guest.{add_vertex_array, guest_order}
use qemu_win.Mesa.VtxArry.Prep.{
  prep_vertex_array, prep_count, prep_separate, prep_units, prep_unit, count_all, count_one,
}
use qemu_win.Mesa.VtxArry.Attribs.{vattr2arry_state-vattr2arry}
use qemu_win.Mesa.VtxArry.Room.{prep_vertex_array-words_pushed}
use qemu_win.Mesa.VtxArry.Sync.{Mirrors, words_pushed, push_vertex_array-add_vertex_array}

-- three bytes of colour, and three floats of a vertex, for each element
abbrev colors : Vtxarry
colors = record { enable = 1; size = 3; type = 0x1401; stride = 0; ptr = 0x5000 }

abbrev vertices : Vtxarry
vertices = record { enable = 1; size = 3; type = 0x1406; stride = 16; ptr = 0x9000 }

abbrev two_arrays : Arrays
two_arrays = record {
  color = colors;
  edge_flag = no_array;
  index = no_array;
  normal = no_array;
  tex_coord = λ i. no_array;
  vertex = vertices;
  secondary_color = no_array;
  fog_coord = no_array;
  weight = no_array;
  gen_attrib = λ i. no_array;
  interleaved = no_array;
  tex_unit = 0;
}

abbrev fresh : Push
fresh = record { varry_ptr = 0; datacb = 0; bytes = λ k. 0 }

abbrev max_fifo : ℕ
max_fifo = 0xc0000

abbrev no_data : Memory
no_data k = if k == max_fifo then 2 else 0

abbrev shared : ℕ → ℕ
shared k = k

two_arrays_words : words_pushed two_arrays 2 4 ≡ 4 + 12
unfolding words_pushed guest_order num_data even_up szgldata sztype szformat size_in gltype glformat
    packed_types
two_arrays_words = refl

second_unit : array_slot 3 0x8078 ≡ some (tex_coord_slot 3)
unfolding array_slot
second_unit = refl

-- the host's copies stand elsewhere
abbrev host_copy : Vtxarry → Vtxarry
host_copy a = record a { ptr = if a.ptr == 0 then 0 else a.ptr + 0x7f0000000000 }

abbrev host_arrays : Arrays
host_arrays = record two_arrays {
  color = host_copy two_arrays.color;
  vertex = host_copy two_arrays.vertex;
}

host_arrays-Mirrors : Mirrors host_arrays two_arrays
host_arrays-Mirrors = record {
  color = (refl, refl, refl, refl, refl);
  edge_flag = (refl, refl, refl, refl, refl);
  index = (refl, refl, refl, refl, refl);
  normal = (refl, refl, refl, refl, refl);
  tex_coord = λ i. (refl, refl, refl, refl, refl);
  vertex = (refl, refl, refl, refl, refl);
  secondary_color = (refl, refl, refl, refl, refl);
  fog_coord = (refl, refl, refl, refl, refl);
  weight = (refl, refl, refl, refl, refl);
  gen_attrib = λ i. (refl, refl, refl, refl, refl);
  interleaved = (refl, refl, refl, refl, refl);
}

-- sixteen bytes of indices stand before the vertices
abbrev indexed : Push
indexed = record fresh { datacb = 16 }

push_vertex_array-add_vertex_array_example :
    ((add_vertex_array max_fifo shared two_arrays 2 4 no_data).1 max_fifo + num_data 16
      ≡ no_data max_fifo
        + num_data (push_vertex_array shared 0x1000 host_arrays 2 4 indexed).1.datacb)
    × Mirrors
        (push_vertex_array shared 0x1000 host_arrays 2 4 indexed).0
        (add_vertex_array max_fifo shared two_arrays 2 4 no_data).0
push_vertex_array-add_vertex_array_example =
    push_vertex_array-add_vertex_array shared shared 0x1000 max_fifo host_arrays two_arrays 2 4
      no_data indexed host_arrays-Mirrors (omega arith) (omega arith) refl refl
      (omega (arith, two_arrays_words))

vattr2arry_state-vattr2arry_example :
    array_slot (vattr2arry_state 11 two_arrays).1.tex_unit (vattr2arry_state 11 two_arrays).0
    ≡ some (vattr2arry 11)
vattr2arry_state-vattr2arry_example = vattr2arry_state-vattr2arry two_arrays 11 (omega arith)

-- queued calls, and an emptied queue, that leave the rest of the memory as it is
abbrev queued : ℕ → Memory → Memory
queued arg0 m = update m 2 arg0

abbrev emptied : Memory → Memory
emptied m = update m max_fifo 2

abbrev readable : ℕ → ℕ → Bool
readable ptr cb = false

abbrev max_data : ℕ
max_data = 0x10000

abbrev prepared : Arrays × Memory
prepared =
    prep_vertex_array queued queued readable max_fifo max_data emptied two_arrays 2 4 8 no_data

prepared_words : words_pushed prepared.0 2 4 ≡ 16
unfolding prep_vertex_array words_pushed guest_order num_data even_up szgldata sztype szformat
    size_in gltype glformat packed_types prep_count prep_separate prep_units prep_unit
prepared_words = refl

prepared_counter : prepared.1 max_fifo ≡ 2
unfolding prep_vertex_array szgldata sztype szformat size_in gltype glformat packed_types prep_count
    prep_separate prep_units prep_unit count_all count_one
prepared_counter = refl

prep_vertex_array-words_pushed_example :
    (prepared.1 ≡ emptied (prep_count queued queued readable two_arrays 2 4 8 no_data).mem)
    ⊎ (prepared.1 max_fifo + (8 / 4 + words_pushed prepared.0 2 4) < max_data)
prep_vertex_array-words_pushed_example =
    prep_vertex_array-words_pushed queued queued readable max_fifo max_data emptied two_arrays 2 4 8
      no_data (omega (arith, prepared_words)) (omega (arith, prepared_counter))
