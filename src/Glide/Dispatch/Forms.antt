-- ===== src/Glide/Dispatch/Forms.antt =====
-- glide2x_impl.c, the first switch of doGlideFunc: the functions that take pointers or
-- floating-point numbers, and the arguments that the library gets for them.
use qemu_win.Prelude.{ℕ, List, [], ◌∷◌}
use qemu_win.Glide.FEnum.{
  gr_aadraw_line, gr_aadraw_point, gr_aadraw_polygon, gr_aadraw_polygon_vertex_list,
  gr_aadraw_triangle, gr_constant_color_value4, gr_draw_line, gr_draw_planar_polygon,
  gr_draw_planar_polygon_vertex_list, gr_draw_point, gr_draw_polygon, gr_draw_polygon_vertex_list,
  gr_draw_triangle, gr_fog_table, gr_gamma_correction_value, gr_glide_get_state,
  gr_glide_get_version, gr_glide_set_state, gr_lfb_read_region, gr_lfb_write_region, gr_splash,
  gr_sst_perf_stats, gr_sst_query_boards, gr_sst_query_hardware, gr_tex_detail_control,
  gr_tex_download_mip_map, gr_tex_download_mip_map_level, gr_tex_download_mip_map_level_partial,
  gr_tex_download_table, gr_tex_download_table_partial, gr_tex_lod_bias_value, gr_tex_source,
  gr_tex_texture_mem_required, gr_tri_stats, gu3df_get_info, gu3df_load,
  gu_aadraw_triangle_with_clip, gu_draw_polygon_vertex_list_with_clip, gu_draw_triangle_with_clip,
  gu_fog_generate_exp2, gu_fog_generate_exp, gu_fog_generate_linear, gu_fog_table_index_to_w,
  gu_tex_allocate_memory, gu_tex_download_mip_map, gu_tex_download_mip_map_level, gr_depth_range,
  gr_draw_vertex_array, gr_draw_vertex_array_contiguous, gr_get, gr_glide_get_vertex_layout,
  gr_glide_set_vertex_layout, gr_lfb_write_region3x, gr_load_gamma_table, gr_query_resolutions,
  gr_tex_download_table3x, gr_tex_download_table_partial3x, gu_gamma_correction_rgb,
  gr_get_gamma_table_ext,
}

-- `arg[i]`, `parg[i]`, and the `float` whose bits are in `arg[i]`
pub data Arg : Type 0 where
  arg : ℕ → Arg
  parg : ℕ → Arg
  farg : ℕ → Arg

-- the `case` labels, and the arguments of the call
abbrev pub Form : Type 0
Form = List ℕ × List Arg

-- the cases without a floating-point argument
unfoldable pub forms_int : List Form
forms_int =
    (
      gr_draw_point ∷ gr_aadraw_point ∷ gr_glide_set_state ∷ gr_glide_get_state
          ∷ gr_glide_get_version ∷ gr_glide_set_vertex_layout ∷ gr_glide_get_vertex_layout
          ∷ gr_sst_perf_stats ∷ gr_sst_query_hardware ∷ gr_sst_query_boards ∷ gr_fog_table ∷ [],
      parg 0 ∷ [],
    )
    ∷ (
      gr_draw_line ∷ gr_aadraw_line ∷ gr_tri_stats ∷ gu3df_get_info ∷ gu3df_load
          ∷ gr_query_resolutions ∷ [],
      parg 0 ∷ parg 1 ∷ [],
    )
    ∷ (
      gr_tex_texture_mem_required ∷ gr_draw_polygon_vertex_list ∷ gr_aadraw_polygon_vertex_list
          ∷ gr_draw_planar_polygon_vertex_list ∷ gu_draw_polygon_vertex_list_with_clip
          ∷ gr_tex_download_table3x ∷ [],
      arg 0 ∷ parg 1 ∷ [],
    )
    ∷ (
      gr_draw_triangle ∷ gu_draw_triangle_with_clip ∷ gu_aadraw_triangle_with_clip ∷ [],
      parg 0 ∷ parg 1 ∷ parg 2 ∷ [],
    )
    ∷ (gr_load_gamma_table ∷ gr_get_gamma_table_ext ∷ [], arg 0 ∷ parg 1 ∷ parg 2 ∷ parg 3 ∷ [])
    ∷ (gr_aadraw_triangle ∷ [], parg 0 ∷ parg 1 ∷ parg 2 ∷ arg 3 ∷ arg 4 ∷ arg 5 ∷ [])
    ∷ (gr_tex_source ∷ gr_tex_download_mip_map ∷ [], arg 0 ∷ arg 1 ∷ arg 2 ∷ parg 3 ∷ [])
    ∷ (
      gr_tex_download_table ∷ gr_get ∷ gr_draw_vertex_array ∷ gu_tex_download_mip_map_level ∷ [],
      arg 0 ∷ arg 1 ∷ parg 2 ∷ [],
    )
    ∷ (gr_draw_vertex_array_contiguous ∷ [], arg 0 ∷ arg 1 ∷ parg 2 ∷ arg 3 ∷ [])
    ∷ (gr_tex_download_table_partial ∷ [], arg 0 ∷ arg 1 ∷ parg 2 ∷ arg 3 ∷ arg 4 ∷ [])
    ∷ (gr_tex_download_table_partial3x ∷ [], arg 0 ∷ parg 1 ∷ arg 2 ∷ arg 3 ∷ [])
    ∷ (gr_lfb_read_region ∷ [], arg 0 ∷ arg 1 ∷ arg 2 ∷ arg 3 ∷ arg 4 ∷ arg 5 ∷ parg 2 ∷ [])
    ∷ (
      gr_lfb_write_region ∷ gr_tex_download_mip_map_level ∷ [],
      arg 0 ∷ arg 1 ∷ arg 2 ∷ arg 3 ∷ arg 4 ∷ arg 5 ∷ arg 6 ∷ parg 3 ∷ [],
    )
    ∷ (
      gr_lfb_write_region3x ∷ [],
      arg 0 ∷ arg 1 ∷ arg 2 ∷ arg 3 ∷ arg 4 ∷ arg 5 ∷ arg 6 ∷ arg 7 ∷ parg 0 ∷ [],
    )
    ∷ (
      gr_tex_download_mip_map_level_partial ∷ [],
      arg 0 ∷ arg 1 ∷ arg 2 ∷ arg 3 ∷ arg 4 ∷ arg 5 ∷ arg 6 ∷ parg 3 ∷ arg 8 ∷ arg 9 ∷ [],
    )
    ∷ (
      gu_tex_download_mip_map ∷ gr_draw_polygon ∷ gr_aadraw_polygon ∷ gr_draw_planar_polygon ∷ [],
      arg 0 ∷ parg 1 ∷ parg 2 ∷ [],
    )
    ∷ []

-- the cases with one
unfoldable pub forms_float : List Form
forms_float =
    (gu_fog_table_index_to_w ∷ [], arg 0 ∷ [])
    ∷ (gu_fog_generate_exp ∷ gu_fog_generate_exp2 ∷ [], parg 0 ∷ farg 1 ∷ [])
    ∷ (gu_fog_generate_linear ∷ [], parg 0 ∷ farg 1 ∷ farg 2 ∷ [])
    ∷ (gr_gamma_correction_value ∷ [], farg 0 ∷ [])
    ∷ (gr_depth_range ∷ [], farg 0 ∷ farg 1 ∷ [])
    ∷ (gr_tex_lod_bias_value ∷ [], arg 0 ∷ farg 1 ∷ [])
    ∷ (gr_tex_detail_control ∷ [], arg 0 ∷ arg 1 ∷ arg 2 ∷ farg 3 ∷ [])
    ∷ (gu_gamma_correction_rgb ∷ [], farg 0 ∷ farg 1 ∷ farg 2 ∷ [])
    ∷ (gr_constant_color_value4 ∷ [], farg 0 ∷ farg 1 ∷ farg 2 ∷ farg 3 ∷ [])
    ∷ (gr_splash ∷ [], farg 0 ∷ farg 1 ∷ farg 2 ∷ farg 3 ∷ arg 4 ∷ [])
    ∷ (
      gu_tex_allocate_memory ∷ [],
      arg 0
          ∷ arg 1
          ∷ arg 2
          ∷ arg 3
          ∷ arg 4
          ∷ arg 5
          ∷ arg 6
          ∷ arg 7
          ∷ arg 8
          ∷ arg 9
          ∷ arg 10
          ∷ arg 11
          ∷ arg 12
          ∷ farg 13
          ∷ arg 14
          ∷ [],
    )
    ∷ []
