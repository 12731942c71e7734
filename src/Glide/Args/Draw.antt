-- ===== src/Glide/Args/Draw.antt =====
-- glidept_mm.c, processArgs: the cases that draw, and those that query the board.
use qemu_win.Prelude.{ℕ, ◌+◌, ◌*◌, List, [], ◌∷◌, ◌==◌, if◌then◌else◌, u32}
use qemu_win.Glide.FEnum
use qemu_win.Glide.Args.State.{
  GlidePt, hshm, outshm, gr_state, vtx_layout, vtx_cache, plain, copy_out, gather_vertices,
  vertex_ptrs, Host, Case, aligned, aligned32, set_parg, set_datacb, effect,
}

abbrev pub size_grvertex : ℕ
size_grvertex = 60

abbrev pub size_grsstperfstats : ℕ
size_grsstperfstats = 20

abbrev pub size_grhwconfig : ℕ
size_grhwconfig = 148

abbrev pub size_grresolution : ℕ
size_grresolution = 16

module _ (host : Host) where
  -- the size of a vertex, for Glide 3 or Glide 2
  abbrev pub szvert : GlidePt → ℕ
  szvert s = if s.init_dll == 0x301a0 then u32 host.vertex3x else size_grvertex

  abbrev pub draw_line : GlidePt → GlidePt
  draw_line s =
      let n = aligned32 (szvert s) in
      set_parg 1 (hshm n) (set_parg 0 (hshm 0) (set_datacb (2 * n) s))

  abbrev pub draw_triangle : GlidePt → GlidePt
  draw_triangle s =
      let n = aligned32 (szvert s) in
      set_parg 2 (hshm (u32 (2 * n)))
        (set_parg 1 (hshm n) (set_parg 0 (hshm 0) (set_datacb (3 * n) s)))

  abbrev pub draw_point : GlidePt → GlidePt
  draw_point s = set_parg 0 (hshm 0) (set_datacb (aligned32 (szvert s)) s)

  abbrev pub draw_polygon : GlidePt → GlidePt
  draw_polygon s =
      let n = s.arg 0 in
      set_parg 2 vtx_cache (
        set_parg 1 (hshm 0) (
          set_datacb (aligned (n * 4) + u32 (n * aligned size_grvertex))
            (effect (gather_vertices n) s)))

  abbrev pub draw_vertex_list : GlidePt → GlidePt
  draw_vertex_list s = set_parg 1 (hshm 0) (set_datacb (aligned32 (s.arg 0 * size_grvertex)) s)

  abbrev pub draw_vertex_array : GlidePt → GlidePt
  draw_vertex_array s =
      let n = aligned (u32 host.vertex3x) in
      set_parg 2 (outshm 0) (effect (vertex_ptrs (s.arg 1) n) (set_datacb (s.arg 1 * n) s))

  abbrev pub draw_vertex_array_contiguous : GlidePt → GlidePt
  draw_vertex_array_contiguous s =
      set_parg 2 (hshm 0) (set_datacb (aligned32 (s.arg 1 * s.arg 3)) s)

  unfoldable pub draw_cases : List Case
  draw_cases =
      (FEnum.gr_draw_line ∷ FEnum.gr_aadraw_line ∷ [], draw_line)
      ∷ (
        FEnum.gr_draw_triangle ∷ FEnum.gr_aadraw_triangle ∷ FEnum.gu_draw_triangle_with_clip
            ∷ FEnum.gu_aadraw_triangle_with_clip ∷ [],
        draw_triangle,
      )
      ∷ (FEnum.gr_draw_point ∷ FEnum.gr_aadraw_point ∷ [], draw_point)
      ∷ (
        FEnum.gr_draw_polygon ∷ FEnum.gr_aadraw_polygon ∷ FEnum.gr_draw_planar_polygon ∷ [],
        draw_polygon,
      )
      ∷ (
        FEnum.gr_draw_polygon_vertex_list ∷ FEnum.gr_aadraw_polygon_vertex_list
            ∷ FEnum.gr_draw_planar_polygon_vertex_list ∷ FEnum.gu_draw_polygon_vertex_list_with_clip
            ∷ [],
        draw_vertex_list,
      )
      ∷ (FEnum.gr_draw_vertex_array ∷ [], draw_vertex_array)
      ∷ (FEnum.gr_draw_vertex_array_contiguous ∷ [], draw_vertex_array_contiguous)
      ∷ []

-- grGlideSetState, grGlideGetState
abbrev pub glide_state : GlidePt → GlidePt
glide_state s = set_parg 0 (gr_state (s.arg 0)) s

-- grGlideSetVertexLayout, grGlideGetVertexLayout
abbrev pub vertex_layout : GlidePt → GlidePt
vertex_layout s = set_parg 0 (vtx_layout (s.arg 0)) s

abbrev pub get_version : GlidePt → GlidePt
get_version s = set_parg 0 (outshm 0) s

abbrev pub perf_stats : GlidePt → GlidePt
perf_stats s =
    set_parg 0 (outshm 0)
      (effect (copy_out 0 0 size_grsstperfstats) (set_datacb (aligned size_grsstperfstats) s))

abbrev pub query_hardware : GlidePt → GlidePt
query_hardware s =
    set_parg 0 (outshm 0)
      (effect (copy_out 0 0 size_grhwconfig) (set_datacb (aligned size_grhwconfig) s))

abbrev pub tri_stats : GlidePt → GlidePt
tri_stats s = set_parg 1 (outshm 8) (
    set_parg 0 (outshm 0)
      (effect (copy_out 8 8 8) (effect (copy_out 0 0 8) (set_datacb (2 * aligned 4) s))))

abbrev pub query_resolutions : GlidePt → GlidePt
query_resolutions s =
    set_parg 1 (if s.arg 1 == 0 then plain 0 else outshm 0)
      (set_parg 0 (hshm 0) (set_datacb size_grresolution s))

abbrev pub get : GlidePt → GlidePt
get s = set_parg 2 (outshm 0) s

abbrev pub load_gamma_table : GlidePt → GlidePt
load_gamma_table s =
    let n = aligned (s.arg 0 * 4) in
    set_parg 3 (hshm (2 * n)) (set_parg 2 (hshm n) (set_parg 1 (hshm 0) (set_datacb (3 * n) s)))

abbrev pub get_gamma_table : GlidePt → GlidePt
get_gamma_table s =
    set_parg 3 (outshm (u32 (2 * s.arg 0) * 4))
      (set_parg 2 (outshm (s.arg 0 * 4)) (set_parg 1 (outshm 0) s))

unfoldable pub query_cases : List Case
query_cases =
    (FEnum.gr_glide_set_state ∷ FEnum.gr_glide_get_state ∷ [], glide_state)
    ∷ (FEnum.gr_glide_get_version ∷ [], get_version)
    ∷ (FEnum.gr_sst_perf_stats ∷ [], perf_stats)
    ∷ (FEnum.gr_sst_query_boards ∷ FEnum.gr_sst_query_hardware ∷ [], query_hardware)
    ∷ (FEnum.gr_tri_stats ∷ [], tri_stats)
    ∷ (FEnum.gr_load_gamma_table ∷ [], load_gamma_table)
    ∷ (FEnum.gr_get_gamma_table_ext ∷ [], get_gamma_table)
    ∷ (FEnum.gr_query_resolutions ∷ [], query_resolutions)
    ∷ (FEnum.gr_get ∷ [], get)
    ∷ (FEnum.gr_glide_set_vertex_layout ∷ FEnum.gr_glide_get_vertex_layout ∷ [], vertex_layout)
    ∷ []
