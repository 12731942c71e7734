-- ===== src/Mesa/Guest/FixedD.antt =====
-- wrapgl32.c: wrappers that send data of a fixed size, glVertexAttrib1svARB to glVertexAttrib4ubvNV.
use qemu_win.Prelude.{◌*◌, List, [], ◌∷◌}
use qemu_win.Mesa.FEnum
use qemu_win.Mesa.Args.State.{aligned}
use qemu_win.Mesa.Guest.Ops.{Wrapper, queued}

unfoldable pub gl_vertex_attrib1sv_arb : Wrapper
gl_vertex_attrib1sv_arb strlen a = queued FEnum.gl_vertex_attrib1sv_arb 2 ((1, aligned 2) ∷ [])

unfoldable pub gl_vertex_attrib1sv_nv : Wrapper
gl_vertex_attrib1sv_nv strlen a = queued FEnum.gl_vertex_attrib1sv_nv 2 ((1, aligned 2) ∷ [])

unfoldable pub gl_vertex_attrib2dv : Wrapper
gl_vertex_attrib2dv strlen a = queued FEnum.gl_vertex_attrib2dv 2 ((1, 2 * 8) ∷ [])

unfoldable pub gl_vertex_attrib2dv_arb : Wrapper
gl_vertex_attrib2dv_arb strlen a = queued FEnum.gl_vertex_attrib2dv_arb 2 ((1, 2 * 8) ∷ [])

unfoldable pub gl_vertex_attrib2dv_nv : Wrapper
gl_vertex_attrib2dv_nv strlen a = queued FEnum.gl_vertex_attrib2dv_nv 2 ((1, 2 * 8) ∷ [])

unfoldable pub gl_vertex_attrib2fv : Wrapper
gl_vertex_attrib2fv strlen a = queued FEnum.gl_vertex_attrib2fv 2 ((1, 2 * 4) ∷ [])

unfoldable pub gl_vertex_attrib2fv_arb : Wrapper
gl_vertex_attrib2fv_arb strlen a = queued FEnum.gl_vertex_attrib2fv_arb 2 ((1, 2 * 4) ∷ [])

unfoldable pub gl_vertex_attrib2fv_nv : Wrapper
gl_vertex_attrib2fv_nv strlen a = queued FEnum.gl_vertex_attrib2fv_nv 2 ((1, 2 * 4) ∷ [])

unfoldable pub gl_vertex_attrib2sv : Wrapper
gl_vertex_attrib2sv strlen a = queued FEnum.gl_vertex_attrib2sv 2 ((1, aligned (2 * 2)) ∷ [])

unfoldable pub gl_vertex_attrib2sv_arb : Wrapper
gl_vertex_attrib2sv_arb strlen a =
    queued FEnum.gl_vertex_attrib2sv_arb 2 ((1, aligned (2 * 2)) ∷ [])

unfoldable pub gl_vertex_attrib2sv_nv : Wrapper
gl_vertex_attrib2sv_nv strlen a = queued FEnum.gl_vertex_attrib2sv_nv 2 ((1, aligned (2 * 2)) ∷ [])

unfoldable pub gl_vertex_attrib3dv : Wrapper
gl_vertex_attrib3dv strlen a = queued FEnum.gl_vertex_attrib3dv 2 ((1, 3 * 8) ∷ [])

unfoldable pub gl_vertex_attrib3dv_arb : Wrapper
gl_vertex_attrib3dv_arb strlen a = queued FEnum.gl_vertex_attrib3dv_arb 2 ((1, 3 * 8) ∷ [])

unfoldable pub gl_vertex_attrib3dv_nv : Wrapper
gl_vertex_attrib3dv_nv strlen a = queued FEnum.gl_vertex_attrib3dv_nv 2 ((1, 3 * 8) ∷ [])

unfoldable pub gl_vertex_attrib3fv : Wrapper
gl_vertex_attrib3fv strlen a = queued FEnum.gl_vertex_attrib3fv 2 ((1, aligned (3 * 4)) ∷ [])

unfoldable pub gl_vertex_attrib3fv_arb : Wrapper
gl_vertex_attrib3fv_arb strlen a =
    queued FEnum.gl_vertex_attrib3fv_arb 2 ((1, aligned (3 * 4)) ∷ [])

unfoldable pub gl_vertex_attrib3fv_nv : Wrapper
gl_vertex_attrib3fv_nv strlen a = queued FEnum.gl_vertex_attrib3fv_nv 2 ((1, aligned (3 * 4)) ∷ [])

unfoldable pub gl_vertex_attrib3sv : Wrapper
gl_vertex_attrib3sv strlen a = queued FEnum.gl_vertex_attrib3sv 2 ((1, aligned (3 * 2)) ∷ [])

unfoldable pub gl_vertex_attrib3sv_arb : Wrapper
gl_vertex_attrib3sv_arb strlen a =
    queued FEnum.gl_vertex_attrib3sv_arb 2 ((1, aligned (3 * 2)) ∷ [])

unfoldable pub gl_vertex_attrib3sv_nv : Wrapper
gl_vertex_attrib3sv_nv strlen a = queued FEnum.gl_vertex_attrib3sv_nv 2 ((1, aligned (3 * 2)) ∷ [])

unfoldable pub gl_vertex_attrib4_nbv : Wrapper
gl_vertex_attrib4_nbv strlen a = queued FEnum.gl_vertex_attrib4_nbv 2 ((1, aligned (4 * 1)) ∷ [])

unfoldable pub gl_vertex_attrib4_nbv_arb : Wrapper
gl_vertex_attrib4_nbv_arb strlen a =
    queued FEnum.gl_vertex_attrib4_nbv_arb 2 ((1, aligned (4 * 1)) ∷ [])

unfoldable pub gl_vertex_attrib4_niv : Wrapper
gl_vertex_attrib4_niv strlen a = queued FEnum.gl_vertex_attrib4_niv 2 ((1, 4 * 4) ∷ [])

unfoldable pub gl_vertex_attrib4_niv_arb : Wrapper
gl_vertex_attrib4_niv_arb strlen a = queued FEnum.gl_vertex_attrib4_niv_arb 2 ((1, 4 * 4) ∷ [])

unfoldable pub gl_vertex_attrib4_nsv : Wrapper
gl_vertex_attrib4_nsv strlen a = queued FEnum.gl_vertex_attrib4_nsv 2 ((1, 4 * 2) ∷ [])

unfoldable pub gl_vertex_attrib4_nsv_arb : Wrapper
gl_vertex_attrib4_nsv_arb strlen a = queued FEnum.gl_vertex_attrib4_nsv_arb 2 ((1, 4 * 2) ∷ [])

unfoldable pub gl_vertex_attrib4_nubv : Wrapper
gl_vertex_attrib4_nubv strlen a = queued FEnum.gl_vertex_attrib4_nubv 2 ((1, aligned (4 * 1)) ∷ [])

unfoldable pub gl_vertex_attrib4_nubv_arb : Wrapper
gl_vertex_attrib4_nubv_arb strlen a =
    queued FEnum.gl_vertex_attrib4_nubv_arb 2 ((1, aligned (4 * 1)) ∷ [])

unfoldable pub gl_vertex_attrib4_nuiv : Wrapper
gl_vertex_attrib4_nuiv strlen a = queued FEnum.gl_vertex_attrib4_nuiv 2 ((1, 4 * 4) ∷ [])

unfoldable pub gl_vertex_attrib4_nuiv_arb : Wrapper
gl_vertex_attrib4_nuiv_arb strlen a = queued FEnum.gl_vertex_attrib4_nuiv_arb 2 ((1, 4 * 4) ∷ [])

unfoldable pub gl_vertex_attrib4_nusv : Wrapper
gl_vertex_attrib4_nusv strlen a = queued FEnum.gl_vertex_attrib4_nusv 2 ((1, 4 * 2) ∷ [])

unfoldable pub gl_vertex_attrib4_nusv_arb : Wrapper
gl_vertex_attrib4_nusv_arb strlen a = queued FEnum.gl_vertex_attrib4_nusv_arb 2 ((1, 4 * 2) ∷ [])

unfoldable pub gl_vertex_attrib4bv : Wrapper
gl_vertex_attrib4bv strlen a = queued FEnum.gl_vertex_attrib4bv 2 ((1, aligned (4 * 1)) ∷ [])

unfoldable pub gl_vertex_attrib4bv_arb : Wrapper
gl_vertex_attrib4bv_arb strlen a =
    queued FEnum.gl_vertex_attrib4bv_arb 2 ((1, aligned (4 * 1)) ∷ [])

unfoldable pub gl_vertex_attrib4dv : Wrapper
gl_vertex_attrib4dv strlen a = queued FEnum.gl_vertex_attrib4dv 2 ((1, 4 * 8) ∷ [])

unfoldable pub gl_vertex_attrib4dv_arb : Wrapper
gl_vertex_attrib4dv_arb strlen a = queued FEnum.gl_vertex_attrib4dv_arb 2 ((1, 4 * 8) ∷ [])

unfoldable pub gl_vertex_attrib4dv_nv : Wrapper
gl_vertex_attrib4dv_nv strlen a = queued FEnum.gl_vertex_attrib4dv_nv 2 ((1, 4 * 8) ∷ [])

unfoldable pub gl_vertex_attrib4fv : Wrapper
gl_vertex_attrib4fv strlen a = queued FEnum.gl_vertex_attrib4fv 2 ((1, 4 * 4) ∷ [])

unfoldable pub gl_vertex_attrib4fv_arb : Wrapper
gl_vertex_attrib4fv_arb strlen a = queued FEnum.gl_vertex_attrib4fv_arb 2 ((1, 4 * 4) ∷ [])

unfoldable pub gl_vertex_attrib4fv_nv : Wrapper
gl_vertex_attrib4fv_nv strlen a = queued FEnum.gl_vertex_attrib4fv_nv 2 ((1, 4 * 4) ∷ [])

unfoldable pub gl_vertex_attrib4iv : Wrapper
gl_vertex_attrib4iv strlen a = queued FEnum.gl_vertex_attrib4iv 2 ((1, 4 * 4) ∷ [])

unfoldable pub gl_vertex_attrib4iv_arb : Wrapper
gl_vertex_attrib4iv_arb strlen a = queued FEnum.gl_vertex_attrib4iv_arb 2 ((1, 4 * 4) ∷ [])

unfoldable pub gl_vertex_attrib4sv : Wrapper
gl_vertex_attrib4sv strlen a = queued FEnum.gl_vertex_attrib4sv 2 ((1, 4 * 2) ∷ [])

unfoldable pub gl_vertex_attrib4sv_arb : Wrapper
gl_vertex_attrib4sv_arb strlen a = queued FEnum.gl_vertex_attrib4sv_arb 2 ((1, 4 * 2) ∷ [])

unfoldable pub gl_vertex_attrib4sv_nv : Wrapper
gl_vertex_attrib4sv_nv strlen a = queued FEnum.gl_vertex_attrib4sv_nv 2 ((1, 4 * 2) ∷ [])

unfoldable pub gl_vertex_attrib4ubv : Wrapper
gl_vertex_attrib4ubv strlen a = queued FEnum.gl_vertex_attrib4ubv 2 ((1, aligned (4 * 1)) ∷ [])

unfoldable pub gl_vertex_attrib4ubv_arb : Wrapper
gl_vertex_attrib4ubv_arb strlen a =
    queued FEnum.gl_vertex_attrib4ubv_arb 2 ((1, aligned (4 * 1)) ∷ [])

unfoldable pub gl_vertex_attrib4ubv_nv : Wrapper
gl_vertex_attrib4ubv_nv strlen a =
    queued FEnum.gl_vertex_attrib4ubv_nv 2 ((1, aligned (4 * 1)) ∷ [])

unfoldable pub fixed_d : List Wrapper
unfolding gl_vertex_attrib1sv_arb gl_vertex_attrib1sv_nv gl_vertex_attrib2dv gl_vertex_attrib2dv_arb
    gl_vertex_attrib2dv_nv gl_vertex_attrib2fv gl_vertex_attrib2fv_arb gl_vertex_attrib2fv_nv
    gl_vertex_attrib2sv gl_vertex_attrib2sv_arb gl_vertex_attrib2sv_nv gl_vertex_attrib3dv
    gl_vertex_attrib3dv_arb gl_vertex_attrib3dv_nv gl_vertex_attrib3fv gl_vertex_attrib3fv_arb
    gl_vertex_attrib3fv_nv gl_vertex_attrib3sv gl_vertex_attrib3sv_arb gl_vertex_attrib3sv_nv
    gl_vertex_attrib4_nbv gl_vertex_attrib4_nbv_arb gl_vertex_attrib4_niv gl_vertex_attrib4_niv_arb
    gl_vertex_attrib4_nsv gl_vertex_attrib4_nsv_arb gl_vertex_attrib4_nubv
    gl_vertex_attrib4_nubv_arb gl_vertex_attrib4_nuiv gl_vertex_attrib4_nuiv_arb
    gl_vertex_attrib4_nusv gl_vertex_attrib4_nusv_arb gl_vertex_attrib4bv gl_vertex_attrib4bv_arb
    gl_vertex_attrib4dv gl_vertex_attrib4dv_arb gl_vertex_attrib4dv_nv gl_vertex_attrib4fv
    gl_vertex_attrib4fv_arb gl_vertex_attrib4fv_nv gl_vertex_attrib4iv gl_vertex_attrib4iv_arb
    gl_vertex_attrib4sv gl_vertex_attrib4sv_arb gl_vertex_attrib4sv_nv gl_vertex_attrib4ubv
    gl_vertex_attrib4ubv_arb gl_vertex_attrib4ubv_nv
fixed_d =
    gl_vertex_attrib1sv_arb ∷ gl_vertex_attrib1sv_nv ∷ gl_vertex_attrib2dv ∷ gl_vertex_attrib2dv_arb
    ∷ gl_vertex_attrib2dv_nv ∷ gl_vertex_attrib2fv ∷ gl_vertex_attrib2fv_arb
    ∷ gl_vertex_attrib2fv_nv ∷ gl_vertex_attrib2sv ∷ gl_vertex_attrib2sv_arb
    ∷ gl_vertex_attrib2sv_nv ∷ gl_vertex_attrib3dv ∷ gl_vertex_attrib3dv_arb
    ∷ gl_vertex_attrib3dv_nv ∷ gl_vertex_attrib3fv ∷ gl_vertex_attrib3fv_arb
    ∷ gl_vertex_attrib3fv_nv ∷ gl_vertex_attrib3sv ∷ gl_vertex_attrib3sv_arb
    ∷ gl_vertex_attrib3sv_nv ∷ gl_vertex_attrib4_nbv ∷ gl_vertex_attrib4_nbv_arb
    ∷ gl_vertex_attrib4_niv ∷ gl_vertex_attrib4_niv_arb ∷ gl_vertex_attrib4_nsv
    ∷ gl_vertex_attrib4_nsv_arb ∷ gl_vertex_attrib4_nubv ∷ gl_vertex_attrib4_nubv_arb
    ∷ gl_vertex_attrib4_nuiv ∷ gl_vertex_attrib4_nuiv_arb ∷ gl_vertex_attrib4_nusv
    ∷ gl_vertex_attrib4_nusv_arb ∷ gl_vertex_attrib4bv ∷ gl_vertex_attrib4bv_arb
    ∷ gl_vertex_attrib4dv ∷ gl_vertex_attrib4dv_arb ∷ gl_vertex_attrib4dv_nv ∷ gl_vertex_attrib4fv
    ∷ gl_vertex_attrib4fv_arb ∷ gl_vertex_attrib4fv_nv ∷ gl_vertex_attrib4iv
    ∷ gl_vertex_attrib4iv_arb ∷ gl_vertex_attrib4sv ∷ gl_vertex_attrib4sv_arb
    ∷ gl_vertex_attrib4sv_nv ∷ gl_vertex_attrib4ubv ∷ gl_vertex_attrib4ubv_arb
    ∷ gl_vertex_attrib4ubv_nv ∷ []
