-- ===== src/Mesa/Guest/CountedB.antt =====
-- wrapgl32.c: wrappers that send data of a counted size, glProgramParameters4dvNV to glUniformMatrix2x3dv.
use qemu_win.Prelude.{◌*◌, List, [], ◌∷◌, u32}
use qemu_win.Mesa.FEnum
use qemu_win.Mesa.SzData.{szglname}
use qemu_win.Mesa.Args.State.{aligned}
use qemu_win.Mesa.Guest.Ops.{Wrapper, queued, Row, row}

unfoldable pub gl_program_parameters4dv_nv : Wrapper
gl_program_parameters4dv_nv strlen a =
    queued FEnum.gl_program_parameters4dv_nv 4 ((3, u32 ((u32 (4 * a 2)) * 8)) ∷ [])

unfoldable pub gl_program_parameters4fv_nv : Wrapper
gl_program_parameters4fv_nv strlen a =
    queued FEnum.gl_program_parameters4fv_nv 4 ((3, u32 ((u32 (4 * a 2)) * 4)) ∷ [])

unfoldable pub gl_sampler_parameter_iiv : Wrapper
gl_sampler_parameter_iiv strlen a =
    queued FEnum.gl_sampler_parameter_iiv 3 ((2, u32 (aligned (u32 (szglname (a 1) * 4)))) ∷ [])

unfoldable pub gl_sampler_parameter_iuiv : Wrapper
gl_sampler_parameter_iuiv strlen a =
    queued FEnum.gl_sampler_parameter_iuiv 3 ((2, u32 (aligned (u32 (szglname (a 1) * 4)))) ∷ [])

unfoldable pub gl_sampler_parameterfv : Wrapper
gl_sampler_parameterfv strlen a =
    queued FEnum.gl_sampler_parameterfv 3 ((2, u32 (aligned (u32 (szglname (a 1) * 4)))) ∷ [])

unfoldable pub gl_sampler_parameteriv : Wrapper
gl_sampler_parameteriv strlen a =
    queued FEnum.gl_sampler_parameteriv 3 ((2, u32 (aligned (u32 (szglname (a 1) * 4)))) ∷ [])

unfoldable pub gl_scissor_arrayv : Wrapper
gl_scissor_arrayv strlen a = queued FEnum.gl_scissor_arrayv 3 ((2, u32 ((u32 (a 1 * 4)) * 4)) ∷ [])

unfoldable pub gl_tex_envfv : Wrapper
gl_tex_envfv strlen a =
    queued FEnum.gl_tex_envfv 3 ((2, u32 (aligned (u32 (szglname (a 1) * 4)))) ∷ [])

unfoldable pub gl_tex_enviv : Wrapper
gl_tex_enviv strlen a =
    queued FEnum.gl_tex_enviv 3 ((2, u32 (aligned (u32 (szglname (a 1) * 4)))) ∷ [])

unfoldable pub gl_tex_gendv : Wrapper
gl_tex_gendv strlen a = queued FEnum.gl_tex_gendv 3 ((2, u32 (szglname (a 1) * 8)) ∷ [])

unfoldable pub gl_tex_genfv : Wrapper
gl_tex_genfv strlen a =
    queued FEnum.gl_tex_genfv 3 ((2, u32 (aligned (u32 (szglname (a 1) * 4)))) ∷ [])

unfoldable pub gl_tex_geniv : Wrapper
gl_tex_geniv strlen a =
    queued FEnum.gl_tex_geniv 3 ((2, u32 (aligned (u32 (szglname (a 1) * 4)))) ∷ [])

unfoldable pub gl_tex_parameterfv : Wrapper
gl_tex_parameterfv strlen a =
    queued FEnum.gl_tex_parameterfv 3 ((2, u32 (aligned (u32 (szglname (a 1) * 4)))) ∷ [])

unfoldable pub gl_tex_parameteriv : Wrapper
gl_tex_parameteriv strlen a =
    queued FEnum.gl_tex_parameteriv 3 ((2, u32 (aligned (u32 (szglname (a 1) * 4)))) ∷ [])

unfoldable pub gl_uniform1dv : Wrapper
gl_uniform1dv strlen a = queued FEnum.gl_uniform1dv 3 ((2, u32 (a 1 * 8)) ∷ [])

unfoldable pub gl_uniform1fv : Wrapper
gl_uniform1fv strlen a = queued FEnum.gl_uniform1fv 3 ((2, u32 (aligned (u32 (a 1 * 4)))) ∷ [])

unfoldable pub gl_uniform1fv_arb : Wrapper
gl_uniform1fv_arb strlen a =
    queued FEnum.gl_uniform1fv_arb 3 ((2, u32 (aligned (u32 (a 1 * 4)))) ∷ [])

unfoldable pub gl_uniform1iv : Wrapper
gl_uniform1iv strlen a = queued FEnum.gl_uniform1iv 3 ((2, u32 (aligned (u32 (a 1 * 4)))) ∷ [])

unfoldable pub gl_uniform1iv_arb : Wrapper
gl_uniform1iv_arb strlen a =
    queued FEnum.gl_uniform1iv_arb 3 ((2, u32 (aligned (u32 (a 1 * 4)))) ∷ [])

unfoldable pub gl_uniform1uiv : Wrapper
gl_uniform1uiv strlen a = queued FEnum.gl_uniform1uiv 3 ((2, u32 (aligned (u32 (a 1 * 4)))) ∷ [])

unfoldable pub gl_uniform1uiv_ext : Wrapper
gl_uniform1uiv_ext strlen a =
    queued FEnum.gl_uniform1uiv_ext 3 ((2, u32 (aligned (u32 (a 1 * 4)))) ∷ [])

unfoldable pub gl_uniform2dv : Wrapper
gl_uniform2dv strlen a = queued FEnum.gl_uniform2dv 3 ((2, u32 ((u32 (2 * a 1)) * 8)) ∷ [])

unfoldable pub gl_uniform2fv : Wrapper
gl_uniform2fv strlen a = queued FEnum.gl_uniform2fv 3 ((2, u32 ((u32 (2 * a 1)) * 4)) ∷ [])

unfoldable pub gl_uniform2fv_arb : Wrapper
gl_uniform2fv_arb strlen a = queued FEnum.gl_uniform2fv_arb 3 ((2, u32 ((u32 (2 * a 1)) * 4)) ∷ [])

unfoldable pub gl_uniform2iv : Wrapper
gl_uniform2iv strlen a = queued FEnum.gl_uniform2iv 3 ((2, u32 ((u32 (2 * a 1)) * 4)) ∷ [])

unfoldable pub gl_uniform2iv_arb : Wrapper
gl_uniform2iv_arb strlen a = queued FEnum.gl_uniform2iv_arb 3 ((2, u32 ((u32 (2 * a 1)) * 4)) ∷ [])

unfoldable pub gl_uniform2uiv : Wrapper
gl_uniform2uiv strlen a = queued FEnum.gl_uniform2uiv 3 ((2, u32 ((u32 (2 * a 1)) * 4)) ∷ [])

unfoldable pub gl_uniform2uiv_ext : Wrapper
gl_uniform2uiv_ext strlen a =
    queued FEnum.gl_uniform2uiv_ext 3 ((2, u32 ((u32 (2 * a 1)) * 4)) ∷ [])

unfoldable pub gl_uniform3dv : Wrapper
gl_uniform3dv strlen a = queued FEnum.gl_uniform3dv 3 ((2, u32 ((u32 (3 * a 1)) * 8)) ∷ [])

unfoldable pub gl_uniform3fv : Wrapper
gl_uniform3fv strlen a =
    queued FEnum.gl_uniform3fv 3 ((2, u32 (aligned (u32 ((u32 (3 * a 1)) * 4)))) ∷ [])

unfoldable pub gl_uniform3fv_arb : Wrapper
gl_uniform3fv_arb strlen a =
    queued FEnum.gl_uniform3fv_arb 3 ((2, u32 (aligned (u32 ((u32 (3 * a 1)) * 4)))) ∷ [])

unfoldable pub gl_uniform3iv : Wrapper
gl_uniform3iv strlen a =
    queued FEnum.gl_uniform3iv 3 ((2, u32 (aligned (u32 ((u32 (3 * a 1)) * 4)))) ∷ [])

unfoldable pub gl_uniform3iv_arb : Wrapper
gl_uniform3iv_arb strlen a =
    queued FEnum.gl_uniform3iv_arb 3 ((2, u32 (aligned (u32 ((u32 (3 * a 1)) * 4)))) ∷ [])

unfoldable pub gl_uniform3uiv : Wrapper
gl_uniform3uiv strlen a =
    queued FEnum.gl_uniform3uiv 3 ((2, u32 (aligned (u32 ((u32 (3 * a 1)) * 4)))) ∷ [])

unfoldable pub gl_uniform3uiv_ext : Wrapper
gl_uniform3uiv_ext strlen a =
    queued FEnum.gl_uniform3uiv_ext 3 ((2, u32 (aligned (u32 ((u32 (3 * a 1)) * 4)))) ∷ [])

unfoldable pub gl_uniform4dv : Wrapper
gl_uniform4dv strlen a = queued FEnum.gl_uniform4dv 3 ((2, u32 ((u32 (4 * a 1)) * 8)) ∷ [])

unfoldable pub gl_uniform4fv : Wrapper
gl_uniform4fv strlen a = queued FEnum.gl_uniform4fv 3 ((2, u32 ((u32 (4 * a 1)) * 4)) ∷ [])

unfoldable pub gl_uniform4fv_arb : Wrapper
gl_uniform4fv_arb strlen a = queued FEnum.gl_uniform4fv_arb 3 ((2, u32 ((u32 (4 * a 1)) * 4)) ∷ [])

unfoldable pub gl_uniform4iv : Wrapper
gl_uniform4iv strlen a = queued FEnum.gl_uniform4iv 3 ((2, u32 ((u32 (4 * a 1)) * 4)) ∷ [])

unfoldable pub gl_uniform4iv_arb : Wrapper
gl_uniform4iv_arb strlen a = queued FEnum.gl_uniform4iv_arb 3 ((2, u32 ((u32 (4 * a 1)) * 4)) ∷ [])

unfoldable pub gl_uniform4uiv : Wrapper
gl_uniform4uiv strlen a = queued FEnum.gl_uniform4uiv 3 ((2, u32 ((u32 (4 * a 1)) * 4)) ∷ [])

unfoldable pub gl_uniform4uiv_ext : Wrapper
gl_uniform4uiv_ext strlen a =
    queued FEnum.gl_uniform4uiv_ext 3 ((2, u32 ((u32 (4 * a 1)) * 4)) ∷ [])

unfoldable pub gl_uniform_matrix2dv : Wrapper
gl_uniform_matrix2dv strlen a =
    queued FEnum.gl_uniform_matrix2dv 4 ((3, u32 ((u32 (4 * a 1)) * 8)) ∷ [])

unfoldable pub gl_uniform_matrix2fv : Wrapper
gl_uniform_matrix2fv strlen a =
    queued FEnum.gl_uniform_matrix2fv 4 ((3, u32 ((u32 (4 * a 1)) * 4)) ∷ [])

unfoldable pub gl_uniform_matrix2fv_arb : Wrapper
gl_uniform_matrix2fv_arb strlen a =
    queued FEnum.gl_uniform_matrix2fv_arb 4 ((3, u32 ((u32 (4 * a 1)) * 4)) ∷ [])

unfoldable pub gl_uniform_matrix2x3dv : Wrapper
gl_uniform_matrix2x3dv strlen a =
    queued FEnum.gl_uniform_matrix2x3dv 4 ((3, u32 ((u32 (6 * a 1)) * 8)) ∷ [])

unfoldable pub counted_b : List Row
unfolding gl_program_parameters4dv_nv gl_program_parameters4fv_nv gl_sampler_parameter_iiv
    gl_sampler_parameter_iuiv gl_sampler_parameterfv gl_sampler_parameteriv gl_scissor_arrayv
    gl_tex_envfv gl_tex_enviv gl_tex_gendv gl_tex_genfv gl_tex_geniv gl_tex_parameterfv
    gl_tex_parameteriv gl_uniform1dv gl_uniform1fv gl_uniform1fv_arb gl_uniform1iv gl_uniform1iv_arb
    gl_uniform1uiv gl_uniform1uiv_ext gl_uniform2dv gl_uniform2fv gl_uniform2fv_arb gl_uniform2iv
    gl_uniform2iv_arb gl_uniform2uiv gl_uniform2uiv_ext gl_uniform3dv gl_uniform3fv
    gl_uniform3fv_arb gl_uniform3iv gl_uniform3iv_arb gl_uniform3uiv gl_uniform3uiv_ext
    gl_uniform4dv gl_uniform4fv gl_uniform4fv_arb gl_uniform4iv gl_uniform4iv_arb gl_uniform4uiv
    gl_uniform4uiv_ext gl_uniform_matrix2dv gl_uniform_matrix2fv gl_uniform_matrix2fv_arb
    gl_uniform_matrix2x3dv
counted_b =
    row gl_program_parameters4dv_nv (λ strlen a. 4 * a 2 * 8)
    ∷ row gl_program_parameters4fv_nv (λ strlen a. 4 * a 2 * 4)
    ∷ row gl_sampler_parameter_iiv (λ strlen a. szglname (a 1) * 4)
    ∷ row gl_sampler_parameter_iuiv (λ strlen a. szglname (a 1) * 4)
    ∷ row gl_sampler_parameterfv (λ strlen a. szglname (a 1) * 4)
    ∷ row gl_sampler_parameteriv (λ strlen a. szglname (a 1) * 4)
    ∷ row gl_scissor_arrayv (λ strlen a. a 1 * 4 * 4)
    ∷ row gl_tex_envfv (λ strlen a. szglname (a 1) * 4)
    ∷ row gl_tex_enviv (λ strlen a. szglname (a 1) * 4)
    ∷ row gl_tex_gendv (λ strlen a. szglname (a 1) * 8)
    ∷ row gl_tex_genfv (λ strlen a. szglname (a 1) * 4)
    ∷ row gl_tex_geniv (λ strlen a. szglname (a 1) * 4)
    ∷ row gl_tex_parameterfv (λ strlen a. szglname (a 1) * 4)
    ∷ row gl_tex_parameteriv (λ strlen a. szglname (a 1) * 4)
    ∷ row gl_uniform1dv (λ strlen a. a 1 * 8)
    ∷ row gl_uniform1fv (λ strlen a. a 1 * 4)
    ∷ row gl_uniform1fv_arb (λ strlen a. a 1 * 4)
    ∷ row gl_uniform1iv (λ strlen a. a 1 * 4)
    ∷ row gl_uniform1iv_arb (λ strlen a. a 1 * 4)
    ∷ row gl_uniform1uiv (λ strlen a. a 1 * 4)
    ∷ row gl_uniform1uiv_ext (λ strlen a. a 1 * 4)
    ∷ row gl_uniform2dv (λ strlen a. 2 * a 1 * 8)
    ∷ row gl_uniform2fv (λ strlen a. 2 * a 1 * 4)
    ∷ row gl_uniform2fv_arb (λ strlen a. 2 * a 1 * 4)
    ∷ row gl_uniform2iv (λ strlen a. 2 * a 1 * 4)
    ∷ row gl_uniform2iv_arb (λ strlen a. 2 * a 1 * 4)
    ∷ row gl_uniform2uiv (λ strlen a. 2 * a 1 * 4)
    ∷ row gl_uniform2uiv_ext (λ strlen a. 2 * a 1 * 4)
    ∷ row gl_uniform3dv (λ strlen a. 3 * a 1 * 8)
    ∷ row gl_uniform3fv (λ strlen a. 3 * a 1 * 4)
    ∷ row gl_uniform3fv_arb (λ strlen a. 3 * a 1 * 4)
    ∷ row gl_uniform3iv (λ strlen a. 3 * a 1 * 4)
    ∷ row gl_uniform3iv_arb (λ strlen a. 3 * a 1 * 4)
    ∷ row gl_uniform3uiv (λ strlen a. 3 * a 1 * 4)
    ∷ row gl_uniform3uiv_ext (λ strlen a. 3 * a 1 * 4)
    ∷ row gl_uniform4dv (λ strlen a. 4 * a 1 * 8)
    ∷ row gl_uniform4fv (λ strlen a. 4 * a 1 * 4)
    ∷ row gl_uniform4fv_arb (λ strlen a. 4 * a 1 * 4)
    ∷ row gl_uniform4iv (λ strlen a. 4 * a 1 * 4)
    ∷ row gl_uniform4iv_arb (λ strlen a. 4 * a 1 * 4)
    ∷ row gl_uniform4uiv (λ strlen a. 4 * a 1 * 4)
    ∷ row gl_uniform4uiv_ext (λ strlen a. 4 * a 1 * 4)
    ∷ row gl_uniform_matrix2dv (λ strlen a. 4 * a 1 * 8)
    ∷ row gl_uniform_matrix2fv (λ strlen a. 4 * a 1 * 4)
    ∷ row gl_uniform_matrix2fv_arb (λ strlen a. 4 * a 1 * 4)
    ∷ row gl_uniform_matrix2x3dv (λ strlen a. 6 * a 1 * 8)
    ∷ []
