-- ===== src/Mesa/Args/Fixed.antt =====
-- mesapt_mm.c, processArgs: cases with data of a counted size, those of vectors, matrices and lists, and of names.
use qemu_win.Prelude.{◌+◌, ◌*◌, List, [], ◌∷◌, u32}
use qemu_win.Mesa.FEnum
use qemu_win.Mesa.SzData.{szgldata, szglname}
use qemu_win.Mesa.Args.State.{Case, aligned}

unfoldable pub prioritize_textures : Case
prioritize_textures = (
  FEnum.gl_prioritize_textures ∷ FEnum.gl_prioritize_textures_ext ∷ [],
  λ a len. record {
    datacb = u32 (aligned (a 0 * 4) + (aligned (a 0 * 4)));
    pargs = (1, 0) ∷ (2, aligned (a 0 * 4)) ∷ [];
  },
)

unfoldable pub bind_image_textures : Case
bind_image_textures = (
  FEnum.gl_bind_image_textures ∷ FEnum.gl_bind_samplers ∷ [],
  λ a len. record { datacb = u32 (aligned (a 1 * 4)); pargs = (2, 0) ∷ [] },
)

unfoldable pub call_lists : Case
call_lists = (
  FEnum.gl_call_lists ∷ [],
  λ a len. record {
    datacb = u32 (u32 (aligned (u32 (a 0 * szgldata 0 (a 1)))));
    pargs = (2, 0) ∷ [];
  },
)

unfoldable pub scissor_indexedv : Case
scissor_indexedv = (
  FEnum.gl_scissor_indexedv ∷ FEnum.gl_set_fragment_shader_constant_ati
      ∷ FEnum.gl_viewport_indexedfv ∷ [],
  λ a len. record { datacb = u32 (4 * 4); pargs = (1, 0) ∷ [] },
)

unfoldable pub clip_plane : Case
clip_plane =
    (FEnum.gl_clip_plane ∷ [], λ a len. record { datacb = u32 (4 * 8); pargs = (1, 0) ∷ [] })

unfoldable pub color_sub_table : Case
color_sub_table = (
  FEnum.gl_color_sub_table ∷ FEnum.gl_color_sub_table_ext ∷ FEnum.gl_color_table
      ∷ FEnum.gl_color_table_ext ∷ [],
  λ a len. record {
    datacb = u32 (u32 (aligned (u32 (a 2 * szgldata (a 3) (a 4)))));
    pargs = (1, 0) ∷ [];
  },
)

unfoldable pub indexubv : Case
indexubv =
    (FEnum.gl_indexubv ∷ [], λ a len. record { datacb = u32 (aligned 1); pargs = (0, 0) ∷ [] })

unfoldable pub color3bv : Case
color3bv = (
  FEnum.gl_color3bv ∷ FEnum.gl_color3sv ∷ FEnum.gl_color3ubv ∷ FEnum.gl_color3usv
      ∷ FEnum.gl_color4bv ∷ FEnum.gl_color4sv ∷ FEnum.gl_color4ubv ∷ FEnum.gl_color4usv
      ∷ FEnum.gl_edge_flagv ∷ FEnum.gl_eval_coord1dv ∷ FEnum.gl_eval_coord1fv
      ∷ FEnum.gl_eval_coord2fv ∷ FEnum.gl_fog_coorddv ∷ FEnum.gl_fog_coorddv_ext
      ∷ FEnum.gl_fog_coordfv ∷ FEnum.gl_fog_coordfv_ext ∷ FEnum.gl_indexdv ∷ FEnum.gl_indexfv
      ∷ FEnum.gl_indexiv ∷ FEnum.gl_indexsv ∷ FEnum.gl_multi_tex_coord1dv
      ∷ FEnum.gl_multi_tex_coord1dv_arb ∷ FEnum.gl_multi_tex_coord1fv
      ∷ FEnum.gl_multi_tex_coord1fv_arb ∷ FEnum.gl_multi_tex_coord1iv
      ∷ FEnum.gl_multi_tex_coord1iv_arb ∷ FEnum.gl_multi_tex_coord1sv
      ∷ FEnum.gl_multi_tex_coord1sv_arb ∷ FEnum.gl_multi_tex_coord2fv
      ∷ FEnum.gl_multi_tex_coord2fv_arb ∷ FEnum.gl_multi_tex_coord2iv
      ∷ FEnum.gl_multi_tex_coord2iv_arb ∷ FEnum.gl_multi_tex_coord2sv
      ∷ FEnum.gl_multi_tex_coord2sv_arb ∷ FEnum.gl_multi_tex_coord3sv
      ∷ FEnum.gl_multi_tex_coord3sv_arb ∷ FEnum.gl_multi_tex_coord4sv
      ∷ FEnum.gl_multi_tex_coord4sv_arb ∷ FEnum.gl_normal3bv ∷ FEnum.gl_normal3sv
      ∷ FEnum.gl_raster_pos2fv ∷ FEnum.gl_raster_pos2iv ∷ FEnum.gl_raster_pos2sv
      ∷ FEnum.gl_raster_pos3sv ∷ FEnum.gl_raster_pos4sv ∷ FEnum.gl_secondary_color3bv
      ∷ FEnum.gl_secondary_color3bv_ext ∷ FEnum.gl_secondary_color3sv
      ∷ FEnum.gl_secondary_color3sv_ext ∷ FEnum.gl_secondary_color3ubv
      ∷ FEnum.gl_secondary_color3ubv_ext ∷ FEnum.gl_secondary_color3usv
      ∷ FEnum.gl_secondary_color3usv_ext ∷ FEnum.gl_tex_coord2fv ∷ FEnum.gl_tex_coord2iv
      ∷ FEnum.gl_tex_coord2sv ∷ FEnum.gl_tex_coord3sv ∷ FEnum.gl_tex_coord4sv ∷ FEnum.gl_vertex2fv
      ∷ FEnum.gl_vertex2iv ∷ FEnum.gl_vertex2sv ∷ FEnum.gl_vertex3sv ∷ FEnum.gl_vertex4sv
      ∷ FEnum.gl_vertex_attrib1dv ∷ FEnum.gl_vertex_attrib1dv_arb ∷ FEnum.gl_vertex_attrib1dv_nv
      ∷ FEnum.gl_vertex_attrib1fv ∷ FEnum.gl_vertex_attrib1fv_arb ∷ FEnum.gl_vertex_attrib1fv_nv
      ∷ FEnum.gl_vertex_attrib1sv ∷ FEnum.gl_vertex_attrib1sv_arb ∷ FEnum.gl_vertex_attrib1sv_nv
      ∷ FEnum.gl_vertex_attrib2fv ∷ FEnum.gl_vertex_attrib2fv_arb ∷ FEnum.gl_vertex_attrib2fv_nv
      ∷ FEnum.gl_vertex_attrib2sv ∷ FEnum.gl_vertex_attrib2sv_arb ∷ FEnum.gl_vertex_attrib2sv_nv
      ∷ FEnum.gl_vertex_attrib3sv ∷ FEnum.gl_vertex_attrib3sv_arb ∷ FEnum.gl_vertex_attrib3sv_nv
      ∷ FEnum.gl_vertex_attrib4_nbv ∷ FEnum.gl_vertex_attrib4_nbv_arb ∷ FEnum.gl_vertex_attrib4_nsv
      ∷ FEnum.gl_vertex_attrib4_nsv_arb ∷ FEnum.gl_vertex_attrib4_nubv
      ∷ FEnum.gl_vertex_attrib4_nubv_arb ∷ FEnum.gl_vertex_attrib4_nusv
      ∷ FEnum.gl_vertex_attrib4_nusv_arb ∷ FEnum.gl_vertex_attrib4bv ∷ FEnum.gl_vertex_attrib4bv_arb
      ∷ FEnum.gl_vertex_attrib4sv ∷ FEnum.gl_vertex_attrib4sv_arb ∷ FEnum.gl_vertex_attrib4sv_nv
      ∷ FEnum.gl_vertex_attrib4ubv ∷ FEnum.gl_vertex_attrib4ubv_arb ∷ FEnum.gl_vertex_attrib4ubv_nv
      ∷ FEnum.gl_vertex_attrib4usv ∷ FEnum.gl_vertex_attrib4usv_arb ∷ FEnum.gl_vertex_weightfv_ext
      ∷ [],
  λ a len. record { datacb = u32 (aligned 1); pargs = (0, 0) ∷ (1, 0) ∷ [] },
)

unfoldable pub color3fv : Case
color3fv = (
  FEnum.gl_color3fv ∷ FEnum.gl_color3iv ∷ FEnum.gl_color3uiv ∷ FEnum.gl_multi_tex_coord3fv
      ∷ FEnum.gl_multi_tex_coord3fv_arb ∷ FEnum.gl_multi_tex_coord3iv
      ∷ FEnum.gl_multi_tex_coord3iv_arb ∷ FEnum.gl_normal3fv ∷ FEnum.gl_normal3iv
      ∷ FEnum.gl_raster_pos3fv ∷ FEnum.gl_raster_pos3iv ∷ FEnum.gl_secondary_color3fv
      ∷ FEnum.gl_secondary_color3fv_ext ∷ FEnum.gl_secondary_color3iv
      ∷ FEnum.gl_secondary_color3iv_ext ∷ FEnum.gl_secondary_color3uiv
      ∷ FEnum.gl_secondary_color3uiv_ext ∷ FEnum.gl_tex_coord3fv ∷ FEnum.gl_tex_coord3iv
      ∷ FEnum.gl_vertex3fv ∷ FEnum.gl_vertex3iv ∷ FEnum.gl_vertex_attrib3fv
      ∷ FEnum.gl_vertex_attrib3fv_arb ∷ FEnum.gl_vertex_attrib3fv_nv ∷ [],
  λ a len. record { datacb = u32 (aligned (3 * 4)); pargs = (0, 0) ∷ (1, 0) ∷ [] },
)

unfoldable pub color4fv : Case
color4fv = (
  FEnum.gl_color4fv ∷ FEnum.gl_color4iv ∷ FEnum.gl_color4uiv ∷ FEnum.gl_raster_pos4fv
      ∷ FEnum.gl_raster_pos4iv ∷ FEnum.gl_tex_coord4fv ∷ FEnum.gl_tex_coord4iv ∷ FEnum.gl_vertex4fv
      ∷ FEnum.gl_vertex4iv ∷ FEnum.gl_multi_tex_coord4fv ∷ FEnum.gl_multi_tex_coord4fv_arb
      ∷ FEnum.gl_multi_tex_coord4iv ∷ FEnum.gl_multi_tex_coord4iv_arb ∷ FEnum.gl_vertex_attrib4fv
      ∷ FEnum.gl_vertex_attrib4fv_arb ∷ FEnum.gl_vertex_attrib4fv_nv ∷ FEnum.gl_vertex_attrib4iv
      ∷ FEnum.gl_vertex_attrib4iv_arb ∷ FEnum.gl_vertex_attrib4_niv
      ∷ FEnum.gl_vertex_attrib4_niv_arb ∷ FEnum.gl_vertex_attrib4_nuiv
      ∷ FEnum.gl_vertex_attrib4_nuiv_arb ∷ FEnum.gl_vertex_attrib4uiv
      ∷ FEnum.gl_vertex_attrib4uiv_arb ∷ [],
  λ a len. record { datacb = u32 (4 * 4); pargs = (0, 0) ∷ (1, 0) ∷ [] },
)

unfoldable pub eval_coord2dv : Case
eval_coord2dv = (
  FEnum.gl_eval_coord2dv ∷ FEnum.gl_raster_pos2dv ∷ FEnum.gl_tex_coord2dv ∷ FEnum.gl_vertex2dv
      ∷ FEnum.gl_multi_tex_coord2dv ∷ FEnum.gl_multi_tex_coord2dv_arb ∷ FEnum.gl_vertex_attrib2dv
      ∷ FEnum.gl_vertex_attrib2dv_arb ∷ FEnum.gl_vertex_attrib2dv_nv ∷ [],
  λ a len. record { datacb = u32 (2 * 8); pargs = (0, 0) ∷ (1, 0) ∷ [] },
)

unfoldable pub color3dv : Case
color3dv = (
  FEnum.gl_color3dv ∷ FEnum.gl_multi_tex_coord3dv ∷ FEnum.gl_multi_tex_coord3dv_arb
      ∷ FEnum.gl_normal3dv ∷ FEnum.gl_raster_pos3dv ∷ FEnum.gl_secondary_color3dv
      ∷ FEnum.gl_secondary_color3dv_ext ∷ FEnum.gl_tex_coord3dv ∷ FEnum.gl_vertex3dv
      ∷ FEnum.gl_vertex_attrib3dv ∷ FEnum.gl_vertex_attrib3dv_arb ∷ FEnum.gl_vertex_attrib3dv_nv
      ∷ [],
  λ a len. record { datacb = u32 (3 * 8); pargs = (0, 0) ∷ (1, 0) ∷ [] },
)

unfoldable pub color4dv : Case
color4dv = (
  FEnum.gl_color4dv ∷ FEnum.gl_raster_pos4dv ∷ FEnum.gl_tex_coord4dv ∷ FEnum.gl_vertex4dv
      ∷ FEnum.gl_multi_tex_coord4dv ∷ FEnum.gl_multi_tex_coord4dv_arb ∷ FEnum.gl_vertex_attrib4dv
      ∷ FEnum.gl_vertex_attrib4dv_arb ∷ FEnum.gl_vertex_attrib4dv_nv ∷ [],
  λ a len. record { datacb = u32 (4 * 8); pargs = (0, 0) ∷ (1, 0) ∷ [] },
)

unfoldable pub delete_buffers : Case
delete_buffers = (
  FEnum.gl_delete_buffers ∷ FEnum.gl_delete_buffers_arb ∷ FEnum.gl_delete_fences_apple
      ∷ FEnum.gl_delete_fences_nv ∷ FEnum.gl_delete_framebuffers ∷ FEnum.gl_delete_framebuffers_ext
      ∷ FEnum.gl_delete_occlusion_queries_nv ∷ FEnum.gl_delete_programs_arb
      ∷ FEnum.gl_delete_programs_nv ∷ FEnum.gl_delete_queries ∷ FEnum.gl_delete_queries_arb
      ∷ FEnum.gl_delete_renderbuffers ∷ FEnum.gl_delete_renderbuffers_ext ∷ FEnum.gl_delete_samplers
      ∷ FEnum.gl_delete_textures ∷ FEnum.gl_delete_textures_ext ∷ FEnum.gl_delete_vertex_arrays
      ∷ FEnum.gl_draw_buffers ∷ FEnum.gl_draw_buffers_arb ∷ [],
  λ a len. record { datacb = u32 (aligned (a 0 * 4)); pargs = (1, 0) ∷ [] },
)

unfoldable pub combiner_parameterfv_nv : Case
combiner_parameterfv_nv = (
  FEnum.gl_combiner_parameterfv_nv ∷ FEnum.gl_combiner_parameteriv_nv ∷ FEnum.gl_fogfv
      ∷ FEnum.gl_fogiv ∷ FEnum.gl_light_modelfv ∷ FEnum.gl_light_modeliv
      ∷ FEnum.gl_point_parameterfv ∷ FEnum.gl_point_parameterfv_arb ∷ FEnum.gl_point_parameterfv_ext
      ∷ FEnum.gl_point_parameteriv ∷ [],
  λ a len. record { datacb = u32 (aligned (szglname (a 0) * 4)); pargs = (1, 0) ∷ [] },
)

unfoldable pub load_matrixd : Case
load_matrixd = (
  FEnum.gl_load_matrixd ∷ FEnum.gl_mult_matrixd ∷ [],
  λ a len. record { datacb = u32 (16 * 8); pargs = (0, 0) ∷ [] },
)

unfoldable pub load_matrixf : Case
load_matrixf = (
  FEnum.gl_load_matrixf ∷ FEnum.gl_mult_matrixf ∷ [],
  λ a len. record { datacb = u32 (16 * 4); pargs = (0, 0) ∷ [] },
)

unfoldable pub program_named_parameter4d_nv : Case
program_named_parameter4d_nv = (
  FEnum.gl_program_named_parameter4d_nv ∷ FEnum.gl_program_named_parameter4f_nv ∷ [],
  λ a len. record { datacb = u32 (u32 (aligned (a 1))); pargs = (2, 0) ∷ [] },
)

unfoldable pub fixed_cases : List Case
unfolding prioritize_textures bind_image_textures call_lists scissor_indexedv clip_plane
    color_sub_table indexubv color3bv color3fv color4fv eval_coord2dv color3dv color4dv
    delete_buffers combiner_parameterfv_nv load_matrixd load_matrixf program_named_parameter4d_nv
fixed_cases =
    prioritize_textures ∷ bind_image_textures ∷ call_lists ∷ scissor_indexedv ∷ clip_plane
    ∷ color_sub_table ∷ indexubv ∷ color3bv ∷ color3fv ∷ color4fv ∷ eval_coord2dv ∷ color3dv
    ∷ color4dv ∷ delete_buffers ∷ combiner_parameterfv_nv ∷ load_matrixd ∷ load_matrixf
    ∷ program_named_parameter4d_nv ∷ []
