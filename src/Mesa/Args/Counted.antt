-- ===== src/Mesa/Args/Counted.antt =====
-- mesapt_mm.c, processArgs: cases with data of a counted size, those of program parameters, weights and uniforms.
use qemu_win.Prelude.{◌+◌, ◌*◌, List, [], ◌∷◌, ◌==◌, if◌then◌else◌, u32}
use qemu_win.Mesa.FEnum
use qemu_win.Mesa.SzData.{szglname}
use qemu_win.Mesa.Args.State.{Case, aligned, gl_color}

unfoldable pub program_env_parameter4dv_arb : Case
program_env_parameter4dv_arb = (
  FEnum.gl_program_env_parameter4dv_arb ∷ FEnum.gl_program_local_parameter4dv_arb
      ∷ FEnum.gl_program_parameter4dv_nv ∷ [],
  λ a len. record { datacb = u32 (4 * 8); pargs = (2, 0) ∷ [] },
)

unfoldable pub execute_program_nv : Case
execute_program_nv = (
  FEnum.gl_execute_program_nv ∷ FEnum.gl_program_env_parameter4fv_arb
      ∷ FEnum.gl_program_local_parameter4fv_arb ∷ FEnum.gl_program_parameter4fv_nv ∷ [],
  λ a len. record { datacb = u32 (4 * 4); pargs = (2, 0) ∷ [] },
)

unfoldable pub program_parameters4dv_nv : Case
program_parameters4dv_nv = (
  FEnum.gl_program_parameters4dv_nv ∷ [],
  λ a len. record { datacb = u32 ((u32 (4 * a 2)) * 8); pargs = (3, 0) ∷ [] },
)

unfoldable pub program_env_parameters4fv_ext : Case
program_env_parameters4fv_ext = (
  FEnum.gl_program_env_parameters4fv_ext ∷ FEnum.gl_program_local_parameters4fv_ext
      ∷ FEnum.gl_program_parameters4fv_nv ∷ [],
  λ a len. record { datacb = u32 ((u32 (4 * a 2)) * 4); pargs = (3, 0) ∷ [] },
)

unfoldable pub rectdv : Case
rectdv =
    (FEnum.gl_rectdv ∷ [], λ a len. record { datacb = u32 (2 * 8); pargs = (0, 0) ∷ (1, 8) ∷ [] })

unfoldable pub rectfv : Case
rectfv = (
  FEnum.gl_rectfv ∷ FEnum.gl_rectiv ∷ [],
  λ a len. record { datacb = u32 (2 * (aligned 4)); pargs = (0, 0) ∷ (1, aligned 4) ∷ [] },
)

unfoldable pub rectsv : Case
rectsv = (
  FEnum.gl_rectsv ∷ [],
  λ a len. record { datacb = u32 (2 * (aligned 2)); pargs = (0, 0) ∷ (1, aligned 2) ∷ [] },
)

unfoldable pub combiner_stage_parameterfv_nv : Case
combiner_stage_parameterfv_nv = (
  FEnum.gl_combiner_stage_parameterfv_nv ∷ FEnum.gl_lightfv ∷ FEnum.gl_lightiv ∷ FEnum.gl_materialfv
      ∷ FEnum.gl_materialiv ∷ FEnum.gl_sampler_parameter_iiv ∷ FEnum.gl_sampler_parameter_iuiv
      ∷ FEnum.gl_sampler_parameterfv ∷ FEnum.gl_sampler_parameteriv ∷ FEnum.gl_tex_envfv
      ∷ FEnum.gl_tex_enviv ∷ FEnum.gl_tex_genfv ∷ FEnum.gl_tex_geniv ∷ FEnum.gl_tex_parameterfv
      ∷ FEnum.gl_tex_parameteriv ∷ [],
  λ a len. record { datacb = u32 (aligned (szglname (a 1) * 4)); pargs = (2, 0) ∷ [] },
)

unfoldable pub tex_gendv : Case
tex_gendv = (
  FEnum.gl_tex_gendv ∷ [],
  λ a len. record { datacb = u32 (aligned (szglname (a 1) * 8)); pargs = (2, 0) ∷ [] },
)

unfoldable pub weightbv_arb : Case
weightbv_arb = (
  FEnum.gl_weightbv_arb ∷ FEnum.gl_weightubv_arb ∷ [],
  λ a len. record { datacb = u32 (aligned (a 0 * 1)); pargs = (1, 0) ∷ [] },
)

unfoldable pub weightsv_arb : Case
weightsv_arb = (
  FEnum.gl_weightsv_arb ∷ FEnum.gl_weightusv_arb ∷ [],
  λ a len. record { datacb = u32 (aligned (a 0 * 2)); pargs = (1, 0) ∷ [] },
)

unfoldable pub weightiv_arb : Case
weightiv_arb = (
  FEnum.gl_weightiv_arb ∷ FEnum.gl_weightuiv_arb ∷ FEnum.gl_weightfv_arb ∷ [],
  λ a len. record { datacb = u32 (aligned (a 0 * 4)); pargs = (1, 0) ∷ [] },
)

unfoldable pub weightdv_arb : Case
weightdv_arb =
    (FEnum.gl_weightdv_arb ∷ [], λ a len. record { datacb = u32 (a 0 * 8); pargs = (1, 0) ∷ [] })

unfoldable pub bind_attrib_location : Case
bind_attrib_location = (
  FEnum.gl_bind_attrib_location ∷ FEnum.gl_bind_attrib_location_arb
      ∷ FEnum.gl_bind_frag_data_location ∷ FEnum.gl_bind_frag_data_location_ext ∷ [],
  λ a len. record { datacb = u32 (aligned (len + 1)); pargs = (2, 0) ∷ [] },
)

unfoldable pub bind_frag_data_location_indexed : Case
bind_frag_data_location_indexed = (
  FEnum.gl_bind_frag_data_location_indexed ∷ [],
  λ a len. record { datacb = u32 (aligned (len + 1)); pargs = (3, 0) ∷ [] },
)

unfoldable pub get_attrib_location : Case
get_attrib_location = (
  FEnum.gl_get_attrib_location ∷ FEnum.gl_get_attrib_location_arb ∷ FEnum.gl_get_uniform_block_index
      ∷ FEnum.gl_get_uniform_location ∷ FEnum.gl_get_uniform_location_arb ∷ [],
  λ a len. record { datacb = u32 (aligned (len + 1)); pargs = (1, 0) ∷ [] },
)

unfoldable pub uniform1fv : Case
uniform1fv = (
  FEnum.gl_uniform1fv ∷ FEnum.gl_uniform1fv_arb ∷ FEnum.gl_uniform1iv ∷ FEnum.gl_uniform1iv_arb
      ∷ FEnum.gl_uniform1uiv ∷ FEnum.gl_uniform1uiv_ext ∷ [],
  λ a len. record { datacb = u32 (aligned (a 1 * 4)); pargs = (2, 0) ∷ [] },
)

unfoldable pub uniform2fv : Case
uniform2fv = (
  FEnum.gl_uniform2fv ∷ FEnum.gl_uniform2fv_arb ∷ FEnum.gl_uniform2iv ∷ FEnum.gl_uniform2iv_arb
      ∷ FEnum.gl_uniform2uiv ∷ FEnum.gl_uniform2uiv_ext ∷ [],
  λ a len. record { datacb = u32 ((u32 (2 * a 1)) * 4); pargs = (2, 0) ∷ [] },
)

unfoldable pub uniform3fv : Case
uniform3fv = (
  FEnum.gl_uniform3fv ∷ FEnum.gl_uniform3fv_arb ∷ FEnum.gl_uniform3iv ∷ FEnum.gl_uniform3iv_arb
      ∷ FEnum.gl_uniform3uiv ∷ FEnum.gl_uniform3uiv_ext ∷ [],
  λ a len. record { datacb = u32 (aligned ((u32 (3 * a 1)) * 4)); pargs = (2, 0) ∷ [] },
)

unfoldable pub scissor_arrayv : Case
scissor_arrayv = (
  FEnum.gl_scissor_arrayv ∷ FEnum.gl_uniform4fv ∷ FEnum.gl_uniform4fv_arb ∷ FEnum.gl_uniform4iv
      ∷ FEnum.gl_uniform4iv_arb ∷ FEnum.gl_uniform4uiv ∷ FEnum.gl_uniform4uiv_ext
      ∷ FEnum.gl_uniform_matrix2fv ∷ FEnum.gl_uniform_matrix2fv_arb ∷ FEnum.gl_viewport_arrayv ∷ [],
  λ a len. record { datacb = u32 ((u32 (4 * a 1)) * 4); pargs = (2, 0) ∷ (3, 0) ∷ [] },
)

unfoldable pub uniform_matrix2x3fv : Case
uniform_matrix2x3fv = (
  FEnum.gl_uniform_matrix2x3fv ∷ FEnum.gl_uniform_matrix3x2fv ∷ [],
  λ a len. record { datacb = u32 ((u32 (6 * a 1)) * 4); pargs = (3, 0) ∷ [] },
)

unfoldable pub uniform_matrix2x4fv : Case
uniform_matrix2x4fv = (
  FEnum.gl_uniform_matrix2x4fv ∷ FEnum.gl_uniform_matrix4x2fv ∷ [],
  λ a len. record { datacb = u32 ((u32 (8 * a 1)) * 4); pargs = (3, 0) ∷ [] },
)

unfoldable pub uniform_matrix3fv : Case
uniform_matrix3fv = (
  FEnum.gl_uniform_matrix3fv ∷ FEnum.gl_uniform_matrix3fv_arb ∷ [],
  λ a len. record { datacb = u32 (aligned ((u32 (9 * a 1)) * 4)); pargs = (3, 0) ∷ [] },
)

unfoldable pub uniform_matrix3x4fv : Case
uniform_matrix3x4fv = (
  FEnum.gl_uniform_matrix3x4fv ∷ FEnum.gl_uniform_matrix4x3fv ∷ [],
  λ a len. record { datacb = u32 ((u32 (12 * a 1)) * 4); pargs = (3, 0) ∷ [] },
)

unfoldable pub uniform_matrix4fv : Case
uniform_matrix4fv = (
  FEnum.gl_uniform_matrix4fv ∷ FEnum.gl_uniform_matrix4fv_arb ∷ [],
  λ a len. record { datacb = u32 ((u32 (16 * a 1)) * 4); pargs = (3, 0) ∷ [] },
)

unfoldable pub uniform1dv : Case
uniform1dv =
    (FEnum.gl_uniform1dv ∷ [], λ a len. record { datacb = u32 (a 1 * 8); pargs = (2, 0) ∷ [] })

unfoldable pub depth_range_arrayv : Case
depth_range_arrayv = (
  FEnum.gl_depth_range_arrayv ∷ FEnum.gl_uniform2dv ∷ [],
  λ a len. record { datacb = u32 ((u32 (2 * a 1)) * 8); pargs = (2, 0) ∷ [] },
)

unfoldable pub uniform3dv : Case
uniform3dv = (
  FEnum.gl_uniform3dv ∷ [],
  λ a len. record { datacb = u32 ((u32 (3 * a 1)) * 8); pargs = (2, 0) ∷ [] },
)

unfoldable pub uniform4dv : Case
uniform4dv = (
  FEnum.gl_uniform4dv ∷ FEnum.gl_uniform_matrix2dv ∷ [],
  λ a len. record { datacb = u32 ((u32 (4 * a 1)) * 8); pargs = (2, 0) ∷ (3, 0) ∷ [] },
)

unfoldable pub uniform_matrix2x3dv : Case
uniform_matrix2x3dv = (
  FEnum.gl_uniform_matrix2x3dv ∷ FEnum.gl_uniform_matrix3x2dv ∷ [],
  λ a len. record { datacb = u32 ((u32 (6 * a 1)) * 8); pargs = (3, 0) ∷ [] },
)

unfoldable pub uniform_matrix2x4dv : Case
uniform_matrix2x4dv = (
  FEnum.gl_uniform_matrix2x4dv ∷ FEnum.gl_uniform_matrix4x2dv ∷ [],
  λ a len. record { datacb = u32 ((u32 (8 * a 1)) * 8); pargs = (3, 0) ∷ [] },
)

unfoldable pub uniform_matrix3dv : Case
uniform_matrix3dv = (
  FEnum.gl_uniform_matrix3dv ∷ [],
  λ a len. record { datacb = u32 ((u32 (9 * a 1)) * 8); pargs = (3, 0) ∷ [] },
)

unfoldable pub uniform_matrix3x4dv : Case
uniform_matrix3x4dv = (
  FEnum.gl_uniform_matrix3x4dv ∷ FEnum.gl_uniform_matrix4x3dv ∷ [],
  λ a len. record { datacb = u32 ((u32 (12 * a 1)) * 8); pargs = (3, 0) ∷ [] },
)

unfoldable pub uniform_matrix4dv : Case
uniform_matrix4dv = (
  FEnum.gl_uniform_matrix4dv ∷ [],
  λ a len. record { datacb = u32 ((u32 (16 * a 1)) * 8); pargs = (3, 0) ∷ [] },
)

unfoldable pub clear_bufferfv : Case
clear_bufferfv = (
  FEnum.gl_clear_bufferfv ∷ FEnum.gl_clear_bufferiv ∷ FEnum.gl_clear_bufferuiv ∷ [],
  λ a len. record { datacb = if a 0 == gl_color then 4 * 4 else 4; pargs = (2, 0) ∷ [] },
)

unfoldable pub counted_cases : List Case
unfolding program_env_parameter4dv_arb execute_program_nv program_parameters4dv_nv
    program_env_parameters4fv_ext rectdv rectfv rectsv combiner_stage_parameterfv_nv tex_gendv
    weightbv_arb weightsv_arb weightiv_arb weightdv_arb bind_attrib_location
    bind_frag_data_location_indexed get_attrib_location uniform1fv uniform2fv uniform3fv
    scissor_arrayv uniform_matrix2x3fv uniform_matrix2x4fv uniform_matrix3fv uniform_matrix3x4fv
    uniform_matrix4fv uniform1dv depth_range_arrayv uniform3dv uniform4dv uniform_matrix2x3dv
    uniform_matrix2x4dv uniform_matrix3dv uniform_matrix3x4dv uniform_matrix4dv clear_bufferfv
counted_cases =
    program_env_parameter4dv_arb ∷ execute_program_nv ∷ program_parameters4dv_nv
    ∷ program_env_parameters4fv_ext ∷ rectdv ∷ rectfv ∷ rectsv ∷ combiner_stage_parameterfv_nv
    ∷ tex_gendv ∷ weightbv_arb ∷ weightsv_arb ∷ weightiv_arb ∷ weightdv_arb ∷ bind_attrib_location
    ∷ bind_frag_data_location_indexed ∷ get_attrib_location ∷ uniform1fv ∷ uniform2fv ∷ uniform3fv
    ∷ scissor_arrayv ∷ uniform_matrix2x3fv ∷ uniform_matrix2x4fv ∷ uniform_matrix3fv
    ∷ uniform_matrix3x4fv ∷ uniform_matrix4fv ∷ uniform1dv ∷ depth_range_arrayv ∷ uniform3dv
    ∷ uniform4dv ∷ uniform_matrix2x3dv ∷ uniform_matrix2x4dv ∷ uniform_matrix3dv
    ∷ uniform_matrix3x4dv ∷ uniform_matrix4dv ∷ clear_bufferfv ∷ []
