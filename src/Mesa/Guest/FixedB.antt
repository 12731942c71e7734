-- ===== src/Mesa/Guest/FixedB.antt =====
-- wrapgl32.c: wrappers that send data of a fixed size, glMultiTexCoord2iv to glScissorIndexedv.
use qemu_win.Prelude.{◌*◌, List, [], ◌∷◌}
use qemu_win.Mesa.FEnum
use qemu_win.Mesa.Args.State.{aligned}
use qemu_win.Mesa.Guest.Ops.{Wrapper, queued}

unfoldable pub gl_multi_tex_coord2iv : Wrapper
gl_multi_tex_coord2iv strlen a = queued FEnum.gl_multi_tex_coord2iv 2 ((1, 2 * 4) ∷ [])

unfoldable pub gl_multi_tex_coord2iv_arb : Wrapper
gl_multi_tex_coord2iv_arb strlen a = queued FEnum.gl_multi_tex_coord2iv_arb 2 ((1, 2 * 4) ∷ [])

unfoldable pub gl_multi_tex_coord2sv : Wrapper
gl_multi_tex_coord2sv strlen a = queued FEnum.gl_multi_tex_coord2sv 2 ((1, aligned (2 * 2)) ∷ [])

unfoldable pub gl_multi_tex_coord2sv_arb : Wrapper
gl_multi_tex_coord2sv_arb strlen a =
    queued FEnum.gl_multi_tex_coord2sv_arb 2 ((1, aligned (2 * 2)) ∷ [])

unfoldable pub gl_multi_tex_coord3dv : Wrapper
gl_multi_tex_coord3dv strlen a = queued FEnum.gl_multi_tex_coord3dv 2 ((1, 3 * 8) ∷ [])

unfoldable pub gl_multi_tex_coord3dv_arb : Wrapper
gl_multi_tex_coord3dv_arb strlen a = queued FEnum.gl_multi_tex_coord3dv_arb 2 ((1, 3 * 8) ∷ [])

unfoldable pub gl_multi_tex_coord3fv : Wrapper
gl_multi_tex_coord3fv strlen a = queued FEnum.gl_multi_tex_coord3fv 2 ((1, aligned (3 * 4)) ∷ [])

unfoldable pub gl_multi_tex_coord3fv_arb : Wrapper
gl_multi_tex_coord3fv_arb strlen a =
    queued FEnum.gl_multi_tex_coord3fv_arb 2 ((1, aligned (3 * 4)) ∷ [])

unfoldable pub gl_multi_tex_coord3iv : Wrapper
gl_multi_tex_coord3iv strlen a = queued FEnum.gl_multi_tex_coord3iv 2 ((1, aligned (3 * 4)) ∷ [])

unfoldable pub gl_multi_tex_coord3iv_arb : Wrapper
gl_multi_tex_coord3iv_arb strlen a =
    queued FEnum.gl_multi_tex_coord3iv_arb 2 ((1, aligned (3 * 4)) ∷ [])

unfoldable pub gl_multi_tex_coord3sv : Wrapper
gl_multi_tex_coord3sv strlen a = queued FEnum.gl_multi_tex_coord3sv 2 ((1, aligned (3 * 2)) ∷ [])

unfoldable pub gl_multi_tex_coord3sv_arb : Wrapper
gl_multi_tex_coord3sv_arb strlen a =
    queued FEnum.gl_multi_tex_coord3sv_arb 2 ((1, aligned (3 * 2)) ∷ [])

unfoldable pub gl_multi_tex_coord4dv : Wrapper
gl_multi_tex_coord4dv strlen a = queued FEnum.gl_multi_tex_coord4dv 2 ((1, 4 * 8) ∷ [])

unfoldable pub gl_multi_tex_coord4dv_arb : Wrapper
gl_multi_tex_coord4dv_arb strlen a = queued FEnum.gl_multi_tex_coord4dv_arb 2 ((1, 4 * 8) ∷ [])

unfoldable pub gl_multi_tex_coord4fv : Wrapper
gl_multi_tex_coord4fv strlen a = queued FEnum.gl_multi_tex_coord4fv 2 ((1, 4 * 4) ∷ [])

unfoldable pub gl_multi_tex_coord4fv_arb : Wrapper
gl_multi_tex_coord4fv_arb strlen a = queued FEnum.gl_multi_tex_coord4fv_arb 2 ((1, 4 * 4) ∷ [])

unfoldable pub gl_multi_tex_coord4iv : Wrapper
gl_multi_tex_coord4iv strlen a = queued FEnum.gl_multi_tex_coord4iv 2 ((1, 4 * 4) ∷ [])

unfoldable pub gl_multi_tex_coord4iv_arb : Wrapper
gl_multi_tex_coord4iv_arb strlen a = queued FEnum.gl_multi_tex_coord4iv_arb 2 ((1, 4 * 4) ∷ [])

unfoldable pub gl_multi_tex_coord4sv : Wrapper
gl_multi_tex_coord4sv strlen a = queued FEnum.gl_multi_tex_coord4sv 2 ((1, 4 * 2) ∷ [])

unfoldable pub gl_multi_tex_coord4sv_arb : Wrapper
gl_multi_tex_coord4sv_arb strlen a = queued FEnum.gl_multi_tex_coord4sv_arb 2 ((1, 4 * 2) ∷ [])

unfoldable pub gl_normal3bv : Wrapper
gl_normal3bv strlen a = queued FEnum.gl_normal3bv 1 ((0, aligned (3 * 1)) ∷ [])

unfoldable pub gl_normal3dv : Wrapper
gl_normal3dv strlen a = queued FEnum.gl_normal3dv 1 ((0, 3 * 8) ∷ [])

unfoldable pub gl_normal3fv : Wrapper
gl_normal3fv strlen a = queued FEnum.gl_normal3fv 1 ((0, aligned (3 * 4)) ∷ [])

unfoldable pub gl_normal3iv : Wrapper
gl_normal3iv strlen a = queued FEnum.gl_normal3iv 1 ((0, aligned (3 * 4)) ∷ [])

unfoldable pub gl_normal3sv : Wrapper
gl_normal3sv strlen a = queued FEnum.gl_normal3sv 1 ((0, aligned (3 * 2)) ∷ [])

unfoldable pub gl_program_env_parameter4dv_arb : Wrapper
gl_program_env_parameter4dv_arb strlen a =
    queued FEnum.gl_program_env_parameter4dv_arb 3 ((2, 4 * 8) ∷ [])

unfoldable pub gl_program_env_parameter4fv_arb : Wrapper
gl_program_env_parameter4fv_arb strlen a =
    queued FEnum.gl_program_env_parameter4fv_arb 3 ((2, 4 * 4) ∷ [])

unfoldable pub gl_program_local_parameter4dv_arb : Wrapper
gl_program_local_parameter4dv_arb strlen a =
    queued FEnum.gl_program_local_parameter4dv_arb 3 ((2, 4 * 8) ∷ [])

unfoldable pub gl_program_local_parameter4fv_arb : Wrapper
gl_program_local_parameter4fv_arb strlen a =
    queued FEnum.gl_program_local_parameter4fv_arb 3 ((2, 4 * 4) ∷ [])

unfoldable pub gl_program_parameter4dv_nv : Wrapper
gl_program_parameter4dv_nv strlen a = queued FEnum.gl_program_parameter4dv_nv 3 ((2, 4 * 8) ∷ [])

unfoldable pub gl_program_parameter4fv_nv : Wrapper
gl_program_parameter4fv_nv strlen a = queued FEnum.gl_program_parameter4fv_nv 3 ((2, 4 * 4) ∷ [])

unfoldable pub gl_raster_pos2dv : Wrapper
gl_raster_pos2dv strlen a = queued FEnum.gl_raster_pos2dv 1 ((0, 2 * 8) ∷ [])

unfoldable pub gl_raster_pos2fv : Wrapper
gl_raster_pos2fv strlen a = queued FEnum.gl_raster_pos2fv 1 ((0, 2 * 4) ∷ [])

unfoldable pub gl_raster_pos2iv : Wrapper
gl_raster_pos2iv strlen a = queued FEnum.gl_raster_pos2iv 1 ((0, 2 * 4) ∷ [])

unfoldable pub gl_raster_pos2sv : Wrapper
gl_raster_pos2sv strlen a = queued FEnum.gl_raster_pos2sv 1 ((0, aligned (2 * 2)) ∷ [])

unfoldable pub gl_raster_pos3dv : Wrapper
gl_raster_pos3dv strlen a = queued FEnum.gl_raster_pos3dv 1 ((0, 3 * 8) ∷ [])

unfoldable pub gl_raster_pos3fv : Wrapper
gl_raster_pos3fv strlen a = queued FEnum.gl_raster_pos3fv 1 ((0, aligned (3 * 4)) ∷ [])

unfoldable pub gl_raster_pos3iv : Wrapper
gl_raster_pos3iv strlen a = queued FEnum.gl_raster_pos3iv 1 ((0, aligned (3 * 4)) ∷ [])

unfoldable pub gl_raster_pos3sv : Wrapper
gl_raster_pos3sv strlen a = queued FEnum.gl_raster_pos3sv 1 ((0, aligned (3 * 2)) ∷ [])

unfoldable pub gl_raster_pos4dv : Wrapper
gl_raster_pos4dv strlen a = queued FEnum.gl_raster_pos4dv 1 ((0, 4 * 8) ∷ [])

unfoldable pub gl_raster_pos4fv : Wrapper
gl_raster_pos4fv strlen a = queued FEnum.gl_raster_pos4fv 1 ((0, 4 * 4) ∷ [])

unfoldable pub gl_raster_pos4iv : Wrapper
gl_raster_pos4iv strlen a = queued FEnum.gl_raster_pos4iv 1 ((0, 4 * 4) ∷ [])

unfoldable pub gl_raster_pos4sv : Wrapper
gl_raster_pos4sv strlen a = queued FEnum.gl_raster_pos4sv 1 ((0, 4 * 2) ∷ [])

unfoldable pub gl_rectdv : Wrapper
gl_rectdv strlen a = queued FEnum.gl_rectdv 2 ((0, 8) ∷ (1, 8) ∷ [])

unfoldable pub gl_rectfv : Wrapper
gl_rectfv strlen a = queued FEnum.gl_rectfv 2 ((0, aligned 4) ∷ (1, aligned 4) ∷ [])

unfoldable pub gl_rectiv : Wrapper
gl_rectiv strlen a = queued FEnum.gl_rectiv 2 ((0, aligned 4) ∷ (1, aligned 4) ∷ [])

unfoldable pub gl_rectsv : Wrapper
gl_rectsv strlen a = queued FEnum.gl_rectsv 2 ((0, aligned 2) ∷ (1, aligned 2) ∷ [])

unfoldable pub gl_scissor_indexedv : Wrapper
gl_scissor_indexedv strlen a = queued FEnum.gl_scissor_indexedv 2 ((1, 4 * 4) ∷ [])

unfoldable pub fixed_b : List Wrapper
unfolding gl_multi_tex_coord2iv gl_multi_tex_coord2iv_arb gl_multi_tex_coord2sv
    gl_multi_tex_coord2sv_arb gl_multi_tex_coord3dv gl_multi_tex_coord3dv_arb gl_multi_tex_coord3fv
    gl_multi_tex_coord3fv_arb gl_multi_tex_coord3iv gl_multi_tex_coord3iv_arb gl_multi_tex_coord3sv
    gl_multi_tex_coord3sv_arb gl_multi_tex_coord4dv gl_multi_tex_coord4dv_arb gl_multi_tex_coord4fv
    gl_multi_tex_coord4fv_arb gl_multi_tex_coord4iv gl_multi_tex_coord4iv_arb gl_multi_tex_coord4sv
    gl_multi_tex_coord4sv_arb gl_normal3bv gl_normal3dv gl_normal3fv gl_normal3iv gl_normal3sv
    gl_program_env_parameter4dv_arb gl_program_env_parameter4fv_arb
    gl_program_local_parameter4dv_arb gl_program_local_parameter4fv_arb gl_program_parameter4dv_nv
    gl_program_parameter4fv_nv gl_raster_pos2dv gl_raster_pos2fv gl_raster_pos2iv gl_raster_pos2sv
    gl_raster_pos3dv gl_raster_pos3fv gl_raster_pos3iv gl_raster_pos3sv gl_raster_pos4dv
    gl_raster_pos4fv gl_raster_pos4iv gl_raster_pos4sv gl_rectdv gl_rectfv gl_rectiv gl_rectsv
    gl_scissor_indexedv
fixed_b =
    gl_multi_tex_coord2iv ∷ gl_multi_tex_coord2iv_arb ∷ gl_multi_tex_coord2sv
    ∷ gl_multi_tex_coord2sv_arb ∷ gl_multi_tex_coord3dv ∷ gl_multi_tex_coord3dv_arb
    ∷ gl_multi_tex_coord3fv ∷ gl_multi_tex_coord3fv_arb ∷ gl_multi_tex_coord3iv
    ∷ gl_multi_tex_coord3iv_arb ∷ gl_multi_tex_coord3sv ∷ gl_multi_tex_coord3sv_arb
    ∷ gl_multi_tex_coord4dv ∷ gl_multi_tex_coord4dv_arb ∷ gl_multi_tex_coord4fv
    ∷ gl_multi_tex_coord4fv_arb ∷ gl_multi_tex_coord4iv ∷ gl_multi_tex_coord4iv_arb
    ∷ gl_multi_tex_coord4sv ∷ gl_multi_tex_coord4sv_arb ∷ gl_normal3bv ∷ gl_normal3dv ∷ gl_normal3fv
    ∷ gl_normal3iv ∷ gl_normal3sv ∷ gl_program_env_parameter4dv_arb
    ∷ gl_program_env_parameter4fv_arb ∷ gl_program_local_parameter4dv_arb
    ∷ gl_program_local_parameter4fv_arb ∷ gl_program_parameter4dv_nv ∷ gl_program_parameter4fv_nv
    ∷ gl_raster_pos2dv ∷ gl_raster_pos2fv ∷ gl_raster_pos2iv ∷ gl_raster_pos2sv ∷ gl_raster_pos3dv
    ∷ gl_raster_pos3fv ∷ gl_raster_pos3iv ∷ gl_raster_pos3sv ∷ gl_raster_pos4dv ∷ gl_raster_pos4fv
    ∷ gl_raster_pos4iv ∷ gl_raster_pos4sv ∷ gl_rectdv ∷ gl_rectfv ∷ gl_rectiv ∷ gl_rectsv
    ∷ gl_scissor_indexedv ∷ []
