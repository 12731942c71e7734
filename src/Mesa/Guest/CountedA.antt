-- ===== src/Mesa/Guest/CountedA.antt =====
-- wrapgl32.c: wrappers that send data of a counted size, glBindAttribLocation to glProgramNamedParameter4fNV.
use qemu_win.Prelude.{◌+◌, ◌*◌, List, [], ◌∷◌, u32}
use qemu_win.Mesa.FEnum
use qemu_win.Mesa.SzData.{szgldata, szglname}
use qemu_win.Mesa.Args.State.{aligned}
use qemu_win.Mesa.Guest.Ops.{Wrapper, queued, Row, row}

unfoldable pub gl_bind_attrib_location : Wrapper
gl_bind_attrib_location strlen a =
    queued FEnum.gl_bind_attrib_location 3 ((2, u32 (aligned (u32 (strlen (a 2) + 1)))) ∷ [])

unfoldable pub gl_bind_attrib_location_arb : Wrapper
gl_bind_attrib_location_arb strlen a =
    queued FEnum.gl_bind_attrib_location_arb 3 ((2, u32 (aligned (u32 (strlen (a 2) + 1)))) ∷ [])

unfoldable pub gl_bind_frag_data_location : Wrapper
gl_bind_frag_data_location strlen a =
    queued FEnum.gl_bind_frag_data_location 3 ((2, u32 (aligned (u32 (strlen (a 2) + 1)))) ∷ [])

unfoldable pub gl_bind_frag_data_location_ext : Wrapper
gl_bind_frag_data_location_ext strlen a =
    queued FEnum.gl_bind_frag_data_location_ext 3 ((2, u32 (aligned (u32 (strlen (a 2) + 1)))) ∷ [])

unfoldable pub gl_bind_image_textures : Wrapper
gl_bind_image_textures strlen a = queued FEnum.gl_bind_image_textures 3 ((2, u32 (a 1 * 4)) ∷ [])

unfoldable pub gl_bind_samplers : Wrapper
gl_bind_samplers strlen a = queued FEnum.gl_bind_samplers 3 ((2, u32 (a 1 * 4)) ∷ [])

unfoldable pub gl_call_lists : Wrapper
gl_call_lists strlen a = queued FEnum.gl_call_lists 3 ((2, u32 (a 0 * szgldata 0 (a 1))) ∷ [])

unfoldable pub gl_color_sub_table : Wrapper
gl_color_sub_table strlen a =
    queued FEnum.gl_color_sub_table 6 ((5, u32 (aligned (u32 (a 2 * szgldata (a 3) (a 4))))) ∷ [])

unfoldable pub gl_color_sub_table_ext : Wrapper
gl_color_sub_table_ext strlen a =
    queued FEnum.gl_color_sub_table_ext 6
      ((5, u32 (aligned (u32 (a 2 * szgldata (a 3) (a 4))))) ∷ [])

unfoldable pub gl_color_table : Wrapper
gl_color_table strlen a =
    queued FEnum.gl_color_table 6 ((5, u32 (aligned (u32 (a 2 * szgldata (a 3) (a 4))))) ∷ [])

unfoldable pub gl_color_table_ext : Wrapper
gl_color_table_ext strlen a =
    queued FEnum.gl_color_table_ext 6 ((5, u32 (aligned (u32 (a 2 * szgldata (a 3) (a 4))))) ∷ [])

unfoldable pub gl_delete_fences_apple : Wrapper
gl_delete_fences_apple strlen a = queued FEnum.gl_delete_fences_apple 2 ((1, u32 (a 0 * 4)) ∷ [])

unfoldable pub gl_delete_fences_nv : Wrapper
gl_delete_fences_nv strlen a = queued FEnum.gl_delete_fences_nv 2 ((1, u32 (a 0 * 4)) ∷ [])

unfoldable pub gl_delete_framebuffers : Wrapper
gl_delete_framebuffers strlen a = queued FEnum.gl_delete_framebuffers 2 ((1, u32 (a 0 * 4)) ∷ [])

unfoldable pub gl_delete_framebuffers_ext : Wrapper
gl_delete_framebuffers_ext strlen a =
    queued FEnum.gl_delete_framebuffers_ext 2 ((1, u32 (a 0 * 4)) ∷ [])

unfoldable pub gl_delete_occlusion_queries_nv : Wrapper
gl_delete_occlusion_queries_nv strlen a =
    queued FEnum.gl_delete_occlusion_queries_nv 2 ((1, u32 (a 0 * 4)) ∷ [])

unfoldable pub gl_delete_programs_arb : Wrapper
gl_delete_programs_arb strlen a = queued FEnum.gl_delete_programs_arb 2 ((1, u32 (a 0 * 4)) ∷ [])

unfoldable pub gl_delete_programs_nv : Wrapper
gl_delete_programs_nv strlen a = queued FEnum.gl_delete_programs_nv 2 ((1, u32 (a 0 * 4)) ∷ [])

unfoldable pub gl_delete_queries : Wrapper
gl_delete_queries strlen a = queued FEnum.gl_delete_queries 2 ((1, u32 (a 0 * 4)) ∷ [])

unfoldable pub gl_delete_queries_arb : Wrapper
gl_delete_queries_arb strlen a = queued FEnum.gl_delete_queries_arb 2 ((1, u32 (a 0 * 4)) ∷ [])

unfoldable pub gl_delete_renderbuffers : Wrapper
gl_delete_renderbuffers strlen a = queued FEnum.gl_delete_renderbuffers 2 ((1, u32 (a 0 * 4)) ∷ [])

unfoldable pub gl_delete_renderbuffers_ext : Wrapper
gl_delete_renderbuffers_ext strlen a =
    queued FEnum.gl_delete_renderbuffers_ext 2 ((1, u32 (a 0 * 4)) ∷ [])

unfoldable pub gl_delete_samplers : Wrapper
gl_delete_samplers strlen a = queued FEnum.gl_delete_samplers 2 ((1, u32 (a 0 * 4)) ∷ [])

unfoldable pub gl_delete_textures : Wrapper
gl_delete_textures strlen a = queued FEnum.gl_delete_textures 2 ((1, u32 (a 0 * 4)) ∷ [])

unfoldable pub gl_delete_textures_ext : Wrapper
gl_delete_textures_ext strlen a = queued FEnum.gl_delete_textures_ext 2 ((1, u32 (a 0 * 4)) ∷ [])

unfoldable pub gl_depth_range_arrayv : Wrapper
gl_depth_range_arrayv strlen a =
    queued FEnum.gl_depth_range_arrayv 3 ((2, u32 ((u32 (a 1 * 2)) * 8)) ∷ [])

unfoldable pub gl_draw_buffers : Wrapper
gl_draw_buffers strlen a = queued FEnum.gl_draw_buffers 2 ((1, u32 (a 0 * 4)) ∷ [])

unfoldable pub gl_draw_buffers_arb : Wrapper
gl_draw_buffers_arb strlen a = queued FEnum.gl_draw_buffers_arb 2 ((1, u32 (a 0 * 4)) ∷ [])

unfoldable pub gl_fogfv : Wrapper
gl_fogfv strlen a = queued FEnum.gl_fogfv 2 ((1, u32 (aligned (u32 (szglname (a 0) * 4)))) ∷ [])

unfoldable pub gl_fogiv : Wrapper
gl_fogiv strlen a = queued FEnum.gl_fogiv 2 ((1, u32 (aligned (u32 (szglname (a 0) * 4)))) ∷ [])

unfoldable pub gl_light_modelfv : Wrapper
gl_light_modelfv strlen a =
    queued FEnum.gl_light_modelfv 2 ((1, u32 (aligned (u32 (szglname (a 0) * 4)))) ∷ [])

unfoldable pub gl_light_modeliv : Wrapper
gl_light_modeliv strlen a =
    queued FEnum.gl_light_modeliv 2 ((1, u32 (aligned (u32 (szglname (a 0) * 4)))) ∷ [])

unfoldable pub gl_lightfv : Wrapper
gl_lightfv strlen a = queued FEnum.gl_lightfv 3 ((2, u32 (aligned (u32 (szglname (a 1) * 4)))) ∷ [])

unfoldable pub gl_lightiv : Wrapper
gl_lightiv strlen a = queued FEnum.gl_lightiv 3 ((2, u32 (aligned (u32 (szglname (a 1) * 4)))) ∷ [])

unfoldable pub gl_materialfv : Wrapper
gl_materialfv strlen a =
    queued FEnum.gl_materialfv 3 ((2, u32 (aligned (u32 (szglname (a 1) * 4)))) ∷ [])

unfoldable pub gl_materialiv : Wrapper
gl_materialiv strlen a =
    queued FEnum.gl_materialiv 3 ((2, u32 (aligned (u32 (szglname (a 1) * 4)))) ∷ [])

unfoldable pub gl_point_parameterfv : Wrapper
gl_point_parameterfv strlen a =
    queued FEnum.gl_point_parameterfv 2 ((1, u32 (aligned (u32 (szglname (a 0) * 4)))) ∷ [])

unfoldable pub gl_point_parameterfv_arb : Wrapper
gl_point_parameterfv_arb strlen a =
    queued FEnum.gl_point_parameterfv_arb 2 ((1, u32 (aligned (u32 (szglname (a 0) * 4)))) ∷ [])

unfoldable pub gl_point_parameterfv_ext : Wrapper
gl_point_parameterfv_ext strlen a =
    queued FEnum.gl_point_parameterfv_ext 2 ((1, u32 (aligned (u32 (szglname (a 0) * 4)))) ∷ [])

unfoldable pub gl_point_parameteriv : Wrapper
gl_point_parameteriv strlen a =
    queued FEnum.gl_point_parameteriv 2 ((1, u32 (aligned (u32 (szglname (a 0) * 4)))) ∷ [])

unfoldable pub gl_prioritize_textures : Wrapper
gl_prioritize_textures strlen a =
    queued FEnum.gl_prioritize_textures 3
      ((1, u32 (aligned (u32 (a 0 * 4)))) ∷ (2, u32 (aligned (u32 (a 0 * 4)))) ∷ [])

unfoldable pub gl_prioritize_textures_ext : Wrapper
gl_prioritize_textures_ext strlen a =
    queued FEnum.gl_prioritize_textures_ext 3
      ((1, u32 (aligned (u32 (a 0 * 4)))) ∷ (2, u32 (aligned (u32 (a 0 * 4)))) ∷ [])

unfoldable pub gl_program_env_parameters4fv_ext : Wrapper
gl_program_env_parameters4fv_ext strlen a =
    queued FEnum.gl_program_env_parameters4fv_ext 4 ((3, u32 ((u32 (4 * a 2)) * 4)) ∷ [])

unfoldable pub gl_program_local_parameters4fv_ext : Wrapper
gl_program_local_parameters4fv_ext strlen a =
    queued FEnum.gl_program_local_parameters4fv_ext 4 ((3, u32 ((u32 (4 * a 2)) * 4)) ∷ [])

unfoldable pub gl_program_named_parameter4d_nv : Wrapper
gl_program_named_parameter4d_nv strlen a =
    queued FEnum.gl_program_named_parameter4d_nv 11 ((2, u32 (aligned (a 1))) ∷ [])

unfoldable pub gl_program_named_parameter4f_nv : Wrapper
gl_program_named_parameter4f_nv strlen a =
    queued FEnum.gl_program_named_parameter4f_nv 7 ((2, u32 (aligned (a 1))) ∷ [])

unfoldable pub counted_a : List Row
unfolding gl_bind_attrib_location gl_bind_attrib_location_arb gl_bind_frag_data_location
    gl_bind_frag_data_location_ext gl_bind_image_textures gl_bind_samplers gl_call_lists
    gl_color_sub_table gl_color_sub_table_ext gl_color_table gl_color_table_ext
    gl_delete_fences_apple gl_delete_fences_nv gl_delete_framebuffers gl_delete_framebuffers_ext
    gl_delete_occlusion_queries_nv gl_delete_programs_arb gl_delete_programs_nv gl_delete_queries
    gl_delete_queries_arb gl_delete_renderbuffers gl_delete_renderbuffers_ext gl_delete_samplers
    gl_delete_textures gl_delete_textures_ext gl_depth_range_arrayv gl_draw_buffers
    gl_draw_buffers_arb gl_fogfv gl_fogiv gl_light_modelfv gl_light_modeliv gl_lightfv gl_lightiv
    gl_materialfv gl_materialiv gl_point_parameterfv gl_point_parameterfv_arb
    gl_point_parameterfv_ext gl_point_parameteriv gl_prioritize_textures gl_prioritize_textures_ext
    gl_program_env_parameters4fv_ext gl_program_local_parameters4fv_ext
    gl_program_named_parameter4d_nv gl_program_named_parameter4f_nv
counted_a =
    row gl_bind_attrib_location (λ strlen a. strlen (a 2) + 1)
    ∷ row gl_bind_attrib_location_arb (λ strlen a. strlen (a 2) + 1)
    ∷ row gl_bind_frag_data_location (λ strlen a. strlen (a 2) + 1)
    ∷ row gl_bind_frag_data_location_ext (λ strlen a. strlen (a 2) + 1)
    ∷ row gl_bind_image_textures (λ strlen a. a 1 * 4)
    ∷ row gl_bind_samplers (λ strlen a. a 1 * 4)
    ∷ row gl_call_lists (λ strlen a. a 0 * (szgldata 0 (a 1)))
    ∷ row gl_color_sub_table (λ strlen a. a 2 * (szgldata (a 3) (a 4)))
    ∷ row gl_color_sub_table_ext (λ strlen a. a 2 * (szgldata (a 3) (a 4)))
    ∷ row gl_color_table (λ strlen a. a 2 * (szgldata (a 3) (a 4)))
    ∷ row gl_color_table_ext (λ strlen a. a 2 * (szgldata (a 3) (a 4)))
    ∷ row gl_delete_fences_apple (λ strlen a. a 0 * 4)
    ∷ row gl_delete_fences_nv (λ strlen a. a 0 * 4)
    ∷ row gl_delete_framebuffers (λ strlen a. a 0 * 4)
    ∷ row gl_delete_framebuffers_ext (λ strlen a. a 0 * 4)
    ∷ row gl_delete_occlusion_queries_nv (λ strlen a. a 0 * 4)
    ∷ row gl_delete_programs_arb (λ strlen a. a 0 * 4)
    ∷ row gl_delete_programs_nv (λ strlen a. a 0 * 4)
    ∷ row gl_delete_queries (λ strlen a. a 0 * 4)
    ∷ row gl_delete_queries_arb (λ strlen a. a 0 * 4)
    ∷ row gl_delete_renderbuffers (λ strlen a. a 0 * 4)
    ∷ row gl_delete_renderbuffers_ext (λ strlen a. a 0 * 4)
    ∷ row gl_delete_samplers (λ strlen a. a 0 * 4)
    ∷ row gl_delete_textures (λ strlen a. a 0 * 4)
    ∷ row gl_delete_textures_ext (λ strlen a. a 0 * 4)
    ∷ row gl_depth_range_arrayv (λ strlen a. a 1 * 2 * 8)
    ∷ row gl_draw_buffers (λ strlen a. a 0 * 4)
    ∷ row gl_draw_buffers_arb (λ strlen a. a 0 * 4)
    ∷ row gl_fogfv (λ strlen a. szglname (a 0) * 4)
    ∷ row gl_fogiv (λ strlen a. szglname (a 0) * 4)
    ∷ row gl_light_modelfv (λ strlen a. szglname (a 0) * 4)
    ∷ row gl_light_modeliv (λ strlen a. szglname (a 0) * 4)
    ∷ row gl_lightfv (λ strlen a. szglname (a 1) * 4)
    ∷ row gl_lightiv (λ strlen a. szglname (a 1) * 4)
    ∷ row gl_materialfv (λ strlen a. szglname (a 1) * 4)
    ∷ row gl_materialiv (λ strlen a. szglname (a 1) * 4)
    ∷ row gl_point_parameterfv (λ strlen a. szglname (a 0) * 4)
    ∷ row gl_point_parameterfv_arb (λ strlen a. szglname (a 0) * 4)
    ∷ row gl_point_parameterfv_ext (λ strlen a. szglname (a 0) * 4)
    ∷ row gl_point_parameteriv (λ strlen a. szglname (a 0) * 4)
    ∷ row gl_prioritize_textures (λ strlen a. a 0 * 4 + a 0 * 4)
    ∷ row gl_prioritize_textures_ext (λ strlen a. a 0 * 4 + a 0 * 4)
    ∷ row gl_program_env_parameters4fv_ext (λ strlen a. 4 * a 2 * 4)
    ∷ row gl_program_local_parameters4fv_ext (λ strlen a. 4 * a 2 * 4)
    ∷ row gl_program_named_parameter4d_nv (λ strlen a. a 1)
    ∷ row gl_program_named_parameter4f_nv (λ strlen a. a 1)
    ∷ []
