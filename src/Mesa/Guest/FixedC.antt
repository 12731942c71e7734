-- ===== src/Mesa/Guest/FixedC.antt =====
-- wrapgl32.c: wrappers that send data of a fixed size, glSecondaryColor3bv to glVertexAttrib1sv.
use qemu_win.Prelude.{◌*◌, List, [], ◌∷◌}
use qemu_win.Mesa.FEnum
use qemu_win.Mesa.Args.State.{aligned}
use qemu_win.Mesa.Guest.Ops.{Wrapper, queued}

unfoldable pub gl_secondary_color3bv : Wrapper
gl_secondary_color3bv strlen a = queued FEnum.gl_secondary_color3bv 1 ((0, aligned (3 * 1)) ∷ [])

unfoldable pub gl_secondary_color3bv_ext : Wrapper
gl_secondary_color3bv_ext strlen a =
    queued FEnum.gl_secondary_color3bv_ext 1 ((0, aligned (3 * 1)) ∷ [])

unfoldable pub gl_secondary_color3dv : Wrapper
gl_secondary_color3dv strlen a = queued FEnum.gl_secondary_color3dv 1 ((0, 3 * 8) ∷ [])

unfoldable pub gl_secondary_color3dv_ext : Wrapper
gl_secondary_color3dv_ext strlen a = queued FEnum.gl_secondary_color3dv_ext 1 ((0, 3 * 8) ∷ [])

unfoldable pub gl_secondary_color3fv : Wrapper
gl_secondary_color3fv strlen a = queued FEnum.gl_secondary_color3fv 1 ((0, aligned (3 * 4)) ∷ [])

unfoldable pub gl_secondary_color3fv_ext : Wrapper
gl_secondary_color3fv_ext strlen a =
    queued FEnum.gl_secondary_color3fv_ext 1 ((0, aligned (3 * 4)) ∷ [])

unfoldable pub gl_secondary_color3iv : Wrapper
gl_secondary_color3iv strlen a = queued FEnum.gl_secondary_color3iv 1 ((0, aligned (3 * 4)) ∷ [])

unfoldable pub gl_secondary_color3iv_ext : Wrapper
gl_secondary_color3iv_ext strlen a =
    queued FEnum.gl_secondary_color3iv_ext 1 ((0, aligned (3 * 4)) ∷ [])

unfoldable pub gl_secondary_color3sv : Wrapper
gl_secondary_color3sv strlen a = queued FEnum.gl_secondary_color3sv 1 ((0, aligned (3 * 2)) ∷ [])

unfoldable pub gl_secondary_color3sv_ext : Wrapper
gl_secondary_color3sv_ext strlen a =
    queued FEnum.gl_secondary_color3sv_ext 1 ((0, aligned (3 * 2)) ∷ [])

unfoldable pub gl_secondary_color3ubv : Wrapper
gl_secondary_color3ubv strlen a = queued FEnum.gl_secondary_color3ubv 1 ((0, aligned (3 * 1)) ∷ [])

unfoldable pub gl_secondary_color3ubv_ext : Wrapper
gl_secondary_color3ubv_ext strlen a =
    queued FEnum.gl_secondary_color3ubv_ext 1 ((0, aligned (3 * 1)) ∷ [])

unfoldable pub gl_secondary_color3uiv : Wrapper
gl_secondary_color3uiv strlen a = queued FEnum.gl_secondary_color3uiv 1 ((0, aligned (3 * 4)) ∷ [])

unfoldable pub gl_secondary_color3uiv_ext : Wrapper
gl_secondary_color3uiv_ext strlen a =
    queued FEnum.gl_secondary_color3uiv_ext 1 ((0, aligned (3 * 4)) ∷ [])

unfoldable pub gl_secondary_color3usv : Wrapper
gl_secondary_color3usv strlen a = queued FEnum.gl_secondary_color3usv 1 ((0, aligned (3 * 2)) ∷ [])

unfoldable pub gl_secondary_color3usv_ext : Wrapper
gl_secondary_color3usv_ext strlen a =
    queued FEnum.gl_secondary_color3usv_ext 1 ((0, aligned (3 * 2)) ∷ [])

unfoldable pub gl_set_fragment_shader_constant_ati : Wrapper
gl_set_fragment_shader_constant_ati strlen a =
    queued FEnum.gl_set_fragment_shader_constant_ati 2 ((1, 4 * 4) ∷ [])

unfoldable pub gl_tex_coord2dv : Wrapper
gl_tex_coord2dv strlen a = queued FEnum.gl_tex_coord2dv 1 ((0, 2 * 8) ∷ [])

unfoldable pub gl_tex_coord2fv : Wrapper
gl_tex_coord2fv strlen a = queued FEnum.gl_tex_coord2fv 1 ((0, 2 * 4) ∷ [])

unfoldable pub gl_tex_coord2iv : Wrapper
gl_tex_coord2iv strlen a = queued FEnum.gl_tex_coord2iv 1 ((0, 2 * 4) ∷ [])

unfoldable pub gl_tex_coord2sv : Wrapper
gl_tex_coord2sv strlen a = queued FEnum.gl_tex_coord2sv 1 ((0, aligned (2 * 2)) ∷ [])

unfoldable pub gl_tex_coord3dv : Wrapper
gl_tex_coord3dv strlen a = queued FEnum.gl_tex_coord3dv 1 ((0, 3 * 8) ∷ [])

unfoldable pub gl_tex_coord3fv : Wrapper
gl_tex_coord3fv strlen a = queued FEnum.gl_tex_coord3fv 1 ((0, aligned (3 * 4)) ∷ [])

unfoldable pub gl_tex_coord3iv : Wrapper
gl_tex_coord3iv strlen a = queued FEnum.gl_tex_coord3iv 1 ((0, aligned (3 * 4)) ∷ [])

unfoldable pub gl_tex_coord3sv : Wrapper
gl_tex_coord3sv strlen a = queued FEnum.gl_tex_coord3sv 1 ((0, aligned (3 * 2)) ∷ [])

unfoldable pub gl_tex_coord4dv : Wrapper
gl_tex_coord4dv strlen a = queued FEnum.gl_tex_coord4dv 1 ((0, 4 * 8) ∷ [])

unfoldable pub gl_tex_coord4fv : Wrapper
gl_tex_coord4fv strlen a = queued FEnum.gl_tex_coord4fv 1 ((0, 4 * 4) ∷ [])

unfoldable pub gl_tex_coord4iv : Wrapper
gl_tex_coord4iv strlen a = queued FEnum.gl_tex_coord4iv 1 ((0, 4 * 4) ∷ [])

unfoldable pub gl_tex_coord4sv : Wrapper
gl_tex_coord4sv strlen a = queued FEnum.gl_tex_coord4sv 1 ((0, 4 * 2) ∷ [])

unfoldable pub gl_vertex2dv : Wrapper
gl_vertex2dv strlen a = queued FEnum.gl_vertex2dv 1 ((0, 2 * 8) ∷ [])

unfoldable pub gl_vertex2fv : Wrapper
gl_vertex2fv strlen a = queued FEnum.gl_vertex2fv 1 ((0, 2 * 4) ∷ [])

unfoldable pub gl_vertex2iv : Wrapper
gl_vertex2iv strlen a = queued FEnum.gl_vertex2iv 1 ((0, 2 * 4) ∷ [])

unfoldable pub gl_vertex2sv : Wrapper
gl_vertex2sv strlen a = queued FEnum.gl_vertex2sv 1 ((0, aligned (2 * 2)) ∷ [])

unfoldable pub gl_vertex3dv : Wrapper
gl_vertex3dv strlen a = queued FEnum.gl_vertex3dv 1 ((0, 3 * 8) ∷ [])

unfoldable pub gl_vertex3fv : Wrapper
gl_vertex3fv strlen a = queued FEnum.gl_vertex3fv 1 ((0, aligned (3 * 4)) ∷ [])

unfoldable pub gl_vertex3iv : Wrapper
gl_vertex3iv strlen a = queued FEnum.gl_vertex3iv 1 ((0, aligned (3 * 4)) ∷ [])

unfoldable pub gl_vertex3sv : Wrapper
gl_vertex3sv strlen a = queued FEnum.gl_vertex3sv 1 ((0, aligned (3 * 2)) ∷ [])

unfoldable pub gl_vertex4dv : Wrapper
gl_vertex4dv strlen a = queued FEnum.gl_vertex4dv 1 ((0, 4 * 8) ∷ [])

unfoldable pub gl_vertex4fv : Wrapper
gl_vertex4fv strlen a = queued FEnum.gl_vertex4fv 1 ((0, 4 * 4) ∷ [])

unfoldable pub gl_vertex4iv : Wrapper
gl_vertex4iv strlen a = queued FEnum.gl_vertex4iv 1 ((0, 4 * 4) ∷ [])

unfoldable pub gl_vertex4sv : Wrapper
gl_vertex4sv strlen a = queued FEnum.gl_vertex4sv 1 ((0, 4 * 2) ∷ [])

unfoldable pub gl_vertex_attrib1dv : Wrapper
gl_vertex_attrib1dv strlen a = queued FEnum.gl_vertex_attrib1dv 2 ((1, 8) ∷ [])

unfoldable pub gl_vertex_attrib1dv_arb : Wrapper
gl_vertex_attrib1dv_arb strlen a = queued FEnum.gl_vertex_attrib1dv_arb 2 ((1, 8) ∷ [])

unfoldable pub gl_vertex_attrib1dv_nv : Wrapper
gl_vertex_attrib1dv_nv strlen a = queued FEnum.gl_vertex_attrib1dv_nv 2 ((1, 8) ∷ [])

unfoldable pub gl_vertex_attrib1fv : Wrapper
gl_vertex_attrib1fv strlen a = queued FEnum.gl_vertex_attrib1fv 2 ((1, aligned 4) ∷ [])

unfoldable pub gl_vertex_attrib1fv_arb : Wrapper
gl_vertex_attrib1fv_arb strlen a = queued FEnum.gl_vertex_attrib1fv_arb 2 ((1, aligned 4) ∷ [])

unfoldable pub gl_vertex_attrib1fv_nv : Wrapper
gl_vertex_attrib1fv_nv strlen a = queued FEnum.gl_vertex_attrib1fv_nv 2 ((1, aligned 4) ∷ [])

unfoldable pub gl_vertex_attrib1sv : Wrapper
gl_vertex_attrib1sv strlen a = queued FEnum.gl_vertex_attrib1sv 2 ((1, aligned 2) ∷ [])

unfoldable pub fixed_c : List Wrapper
unfolding gl_secondary_color3bv gl_secondary_color3bv_ext gl_secondary_color3dv
    gl_secondary_color3dv_ext gl_secondary_color3fv gl_secondary_color3fv_ext gl_secondary_color3iv
    gl_secondary_color3iv_ext gl_secondary_color3sv gl_secondary_color3sv_ext gl_secondary_color3ubv
    gl_secondary_color3ubv_ext gl_secondary_color3uiv gl_secondary_color3uiv_ext
    gl_secondary_color3usv gl_secondary_color3usv_ext gl_set_fragment_shader_constant_ati
    gl_tex_coord2dv gl_tex_coord2fv gl_tex_coord2iv gl_tex_coord2sv gl_tex_coord3dv gl_tex_coord3fv
    gl_tex_coord3iv gl_tex_coord3sv gl_tex_coord4dv gl_tex_coord4fv gl_tex_coord4iv gl_tex_coord4sv
    gl_vertex2dv gl_vertex2fv gl_vertex2iv gl_vertex2sv gl_vertex3dv gl_vertex3fv gl_vertex3iv
    gl_vertex3sv gl_vertex4dv gl_vertex4fv gl_vertex4iv gl_vertex4sv gl_vertex_attrib1dv
    gl_vertex_attrib1dv_arb gl_vertex_attrib1dv_nv gl_vertex_attrib1fv gl_vertex_attrib1fv_arb
    gl_vertex_attrib1fv_nv gl_vertex_attrib1sv
fixed_c =
    gl_secondary_color3bv ∷ gl_secondary_color3bv_ext ∷ gl_secondary_color3dv
    ∷ gl_secondary_color3dv_ext ∷ gl_secondary_color3fv ∷ gl_secondary_color3fv_ext
    ∷ gl_secondary_color3iv ∷ gl_secondary_color3iv_ext ∷ gl_secondary_color3sv
    ∷ gl_secondary_color3sv_ext ∷ gl_secondary_color3ubv ∷ gl_secondary_color3ubv_ext
    ∷ gl_secondary_color3uiv ∷ gl_secondary_color3uiv_ext ∷ gl_secondary_color3usv
    ∷ gl_secondary_color3usv_ext ∷ gl_set_fragment_shader_constant_ati ∷ gl_tex_coord2dv
    ∷ gl_tex_coord2fv ∷ gl_tex_coord2iv ∷ gl_tex_coord2sv ∷ gl_tex_coord3dv ∷ gl_tex_coord3fv
    ∷ gl_tex_coord3iv ∷ gl_tex_coord3sv ∷ gl_tex_coord4dv ∷ gl_tex_coord4fv ∷ gl_tex_coord4iv
    ∷ gl_tex_coord4sv ∷ gl_vertex2dv ∷ gl_vertex2fv ∷ gl_vertex2iv ∷ gl_vertex2sv ∷ gl_vertex3dv
    ∷ gl_vertex3fv ∷ gl_vertex3iv ∷ gl_vertex3sv ∷ gl_vertex4dv ∷ gl_vertex4fv ∷ gl_vertex4iv
    ∷ gl_vertex4sv ∷ gl_vertex_attrib1dv ∷ gl_vertex_attrib1dv_arb ∷ gl_vertex_attrib1dv_nv
    ∷ gl_vertex_attrib1fv ∷ gl_vertex_attrib1fv_arb ∷ gl_vertex_attrib1fv_nv ∷ gl_vertex_attrib1sv
    ∷ []
