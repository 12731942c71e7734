-- ===== src/Mesa/Guest/FixedA.antt =====
-- wrapgl32.c: wrappers that send data of a fixed size, glClipPlane to glMultiTexCoord2fvARB.
use qemu_win.Prelude.{◌*◌, List, [], ◌∷◌}
use qemu_win.Mesa.FEnum
use qemu_win.Mesa.Args.State.{aligned}
use qemu_win.Mesa.Guest.Ops.{Wrapper, queued}

unfoldable pub gl_clip_plane : Wrapper
gl_clip_plane strlen a = queued FEnum.gl_clip_plane 2 ((1, 4 * 8) ∷ [])

unfoldable pub gl_color3bv : Wrapper
gl_color3bv strlen a = queued FEnum.gl_color3bv 1 ((0, aligned (3 * 1)) ∷ [])

unfoldable pub gl_color3dv : Wrapper
gl_color3dv strlen a = queued FEnum.gl_color3dv 1 ((0, 3 * 8) ∷ [])

unfoldable pub gl_color3fv : Wrapper
gl_color3fv strlen a = queued FEnum.gl_color3fv 1 ((0, aligned (3 * 4)) ∷ [])

unfoldable pub gl_color3iv : Wrapper
gl_color3iv strlen a = queued FEnum.gl_color3iv 1 ((0, aligned (3 * 4)) ∷ [])

unfoldable pub gl_color3sv : Wrapper
gl_color3sv strlen a = queued FEnum.gl_color3sv 1 ((0, aligned (3 * 2)) ∷ [])

unfoldable pub gl_color3ubv : Wrapper
gl_color3ubv strlen a = queued FEnum.gl_color3ubv 1 ((0, aligned (3 * 1)) ∷ [])

unfoldable pub gl_color3uiv : Wrapper
gl_color3uiv strlen a = queued FEnum.gl_color3uiv 1 ((0, aligned (3 * 4)) ∷ [])

unfoldable pub gl_color3usv : Wrapper
gl_color3usv strlen a = queued FEnum.gl_color3usv 1 ((0, aligned (3 * 2)) ∷ [])

unfoldable pub gl_color4bv : Wrapper
gl_color4bv strlen a = queued FEnum.gl_color4bv 1 ((0, aligned (4 * 1)) ∷ [])

unfoldable pub gl_color4dv : Wrapper
gl_color4dv strlen a = queued FEnum.gl_color4dv 1 ((0, 4 * 8) ∷ [])

unfoldable pub gl_color4fv : Wrapper
gl_color4fv strlen a = queued FEnum.gl_color4fv 1 ((0, 4 * 4) ∷ [])

unfoldable pub gl_color4iv : Wrapper
gl_color4iv strlen a = queued FEnum.gl_color4iv 1 ((0, 4 * 4) ∷ [])

unfoldable pub gl_color4sv : Wrapper
gl_color4sv strlen a = queued FEnum.gl_color4sv 1 ((0, 4 * 2) ∷ [])

unfoldable pub gl_color4ubv : Wrapper
gl_color4ubv strlen a = queued FEnum.gl_color4ubv 1 ((0, aligned (4 * 1)) ∷ [])

unfoldable pub gl_color4uiv : Wrapper
gl_color4uiv strlen a = queued FEnum.gl_color4uiv 1 ((0, 4 * 4) ∷ [])

unfoldable pub gl_color4usv : Wrapper
gl_color4usv strlen a = queued FEnum.gl_color4usv 1 ((0, 4 * 2) ∷ [])

unfoldable pub gl_edge_flagv : Wrapper
gl_edge_flagv strlen a = queued FEnum.gl_edge_flagv 1 ((0, aligned 4) ∷ [])

unfoldable pub gl_eval_coord1dv : Wrapper
gl_eval_coord1dv strlen a = queued FEnum.gl_eval_coord1dv 1 ((0, 8) ∷ [])

unfoldable pub gl_eval_coord1fv : Wrapper
gl_eval_coord1fv strlen a = queued FEnum.gl_eval_coord1fv 1 ((0, aligned 4) ∷ [])

unfoldable pub gl_eval_coord2dv : Wrapper
gl_eval_coord2dv strlen a = queued FEnum.gl_eval_coord2dv 1 ((0, 2 * 8) ∷ [])

unfoldable pub gl_eval_coord2fv : Wrapper
gl_eval_coord2fv strlen a = queued FEnum.gl_eval_coord2fv 1 ((0, 2 * 4) ∷ [])

unfoldable pub gl_execute_program_nv : Wrapper
gl_execute_program_nv strlen a = queued FEnum.gl_execute_program_nv 3 ((2, 4 * 4) ∷ [])

unfoldable pub gl_fog_coorddv : Wrapper
gl_fog_coorddv strlen a = queued FEnum.gl_fog_coorddv 1 ((0, 8) ∷ [])

unfoldable pub gl_fog_coorddv_ext : Wrapper
gl_fog_coorddv_ext strlen a = queued FEnum.gl_fog_coorddv_ext 1 ((0, 8) ∷ [])

unfoldable pub gl_fog_coordfv : Wrapper
gl_fog_coordfv strlen a = queued FEnum.gl_fog_coordfv 1 ((0, aligned 4) ∷ [])

unfoldable pub gl_fog_coordfv_ext : Wrapper
gl_fog_coordfv_ext strlen a = queued FEnum.gl_fog_coordfv_ext 1 ((0, aligned 4) ∷ [])

unfoldable pub gl_indexdv : Wrapper
gl_indexdv strlen a = queued FEnum.gl_indexdv 1 ((0, 8) ∷ [])

unfoldable pub gl_indexfv : Wrapper
gl_indexfv strlen a = queued FEnum.gl_indexfv 1 ((0, aligned 4) ∷ [])

unfoldable pub gl_indexiv : Wrapper
gl_indexiv strlen a = queued FEnum.gl_indexiv 1 ((0, aligned 4) ∷ [])

unfoldable pub gl_indexsv : Wrapper
gl_indexsv strlen a = queued FEnum.gl_indexsv 1 ((0, aligned 2) ∷ [])

unfoldable pub gl_indexubv : Wrapper
gl_indexubv strlen a = queued FEnum.gl_indexubv 1 ((0, aligned 1) ∷ [])

unfoldable pub gl_load_matrixd : Wrapper
gl_load_matrixd strlen a = queued FEnum.gl_load_matrixd 1 ((0, 16 * 8) ∷ [])

unfoldable pub gl_load_matrixf : Wrapper
gl_load_matrixf strlen a = queued FEnum.gl_load_matrixf 1 ((0, 16 * 4) ∷ [])

unfoldable pub gl_mult_matrixd : Wrapper
gl_mult_matrixd strlen a = queued FEnum.gl_mult_matrixd 1 ((0, 16 * 8) ∷ [])

unfoldable pub gl_mult_matrixf : Wrapper
gl_mult_matrixf strlen a = queued FEnum.gl_mult_matrixf 1 ((0, 16 * 4) ∷ [])

unfoldable pub gl_multi_tex_coord1dv : Wrapper
gl_multi_tex_coord1dv strlen a = queued FEnum.gl_multi_tex_coord1dv 2 ((1, 8) ∷ [])

unfoldable pub gl_multi_tex_coord1dv_arb : Wrapper
gl_multi_tex_coord1dv_arb strlen a = queued FEnum.gl_multi_tex_coord1dv_arb 2 ((1, 8) ∷ [])

unfoldable pub gl_multi_tex_coord1fv : Wrapper
gl_multi_tex_coord1fv strlen a = queued FEnum.gl_multi_tex_coord1fv 2 ((1, aligned 4) ∷ [])

unfoldable pub gl_multi_tex_coord1fv_arb : Wrapper
gl_multi_tex_coord1fv_arb strlen a = queued FEnum.gl_multi_tex_coord1fv_arb 2 ((1, aligned 4) ∷ [])

unfoldable pub gl_multi_tex_coord1iv : Wrapper
gl_multi_tex_coord1iv strlen a = queued FEnum.gl_multi_tex_coord1iv 2 ((1, aligned 4) ∷ [])

unfoldable pub gl_multi_tex_coord1iv_arb : Wrapper
gl_multi_tex_coord1iv_arb strlen a = queued FEnum.gl_multi_tex_coord1iv_arb 2 ((1, aligned 4) ∷ [])

unfoldable pub gl_multi_tex_coord1sv : Wrapper
gl_multi_tex_coord1sv strlen a = queued FEnum.gl_multi_tex_coord1sv 2 ((1, aligned 2) ∷ [])

unfoldable pub gl_multi_tex_coord1sv_arb : Wrapper
gl_multi_tex_coord1sv_arb strlen a = queued FEnum.gl_multi_tex_coord1sv_arb 2 ((1, aligned 2) ∷ [])

unfoldable pub gl_multi_tex_coord2dv : Wrapper
gl_multi_tex_coord2dv strlen a = queued FEnum.gl_multi_tex_coord2dv 2 ((1, 2 * 8) ∷ [])

unfoldable pub gl_multi_tex_coord2dv_arb : Wrapper
gl_multi_tex_coord2dv_arb strlen a = queued FEnum.gl_multi_tex_coord2dv_arb 2 ((1, 2 * 8) ∷ [])

unfoldable pub gl_multi_tex_coord2fv : Wrapper
gl_multi_tex_coord2fv strlen a = queued FEnum.gl_multi_tex_coord2fv 2 ((1, 2 * 4) ∷ [])

unfoldable pub gl_multi_tex_coord2fv_arb : Wrapper
gl_multi_tex_coord2fv_arb strlen a = queued FEnum.gl_multi_tex_coord2fv_arb 2 ((1, 2 * 4) ∷ [])

unfoldable pub fixed_a : List Wrapper
unfolding gl_clip_plane gl_color3bv gl_color3dv gl_color3fv gl_color3iv gl_color3sv gl_color3ubv
    gl_color3uiv gl_color3usv gl_color4bv gl_color4dv gl_color4fv gl_color4iv gl_color4sv
    gl_color4ubv gl_color4uiv gl_color4usv gl_edge_flagv gl_eval_coord1dv gl_eval_coord1fv
    gl_eval_coord2dv gl_eval_coord2fv gl_execute_program_nv gl_fog_coorddv gl_fog_coorddv_ext
    gl_fog_coordfv gl_fog_coordfv_ext gl_indexdv gl_indexfv gl_indexiv gl_indexsv gl_indexubv
    gl_load_matrixd gl_load_matrixf gl_mult_matrixd gl_mult_matrixf gl_multi_tex_coord1dv
    gl_multi_tex_coord1dv_arb gl_multi_tex_coord1fv gl_multi_tex_coord1fv_arb gl_multi_tex_coord1iv
    gl_multi_tex_coord1iv_arb gl_multi_tex_coord1sv gl_multi_tex_coord1sv_arb gl_multi_tex_coord2dv
    gl_multi_tex_coord2dv_arb gl_multi_tex_coord2fv gl_multi_tex_coord2fv_arb
fixed_a =
    gl_clip_plane ∷ gl_color3bv ∷ gl_color3dv ∷ gl_color3fv ∷ gl_color3iv ∷ gl_color3sv
    ∷ gl_color3ubv ∷ gl_color3uiv ∷ gl_color3usv ∷ gl_color4bv ∷ gl_color4dv ∷ gl_color4fv
    ∷ gl_color4iv ∷ gl_color4sv ∷ gl_color4ubv ∷ gl_color4uiv ∷ gl_color4usv ∷ gl_edge_flagv
    ∷ gl_eval_coord1dv ∷ gl_eval_coord1fv ∷ gl_eval_coord2dv ∷ gl_eval_coord2fv
    ∷ gl_execute_program_nv ∷ gl_fog_coorddv ∷ gl_fog_coorddv_ext ∷ gl_fog_coordfv
    ∷ gl_fog_coordfv_ext ∷ gl_indexdv ∷ gl_indexfv ∷ gl_indexiv ∷ gl_indexsv ∷ gl_indexubv
    ∷ gl_load_matrixd ∷ gl_load_matrixf ∷ gl_mult_matrixd ∷ gl_mult_matrixf ∷ gl_multi_tex_coord1dv
    ∷ gl_multi_tex_coord1dv_arb ∷ gl_multi_tex_coord1fv ∷ gl_multi_tex_coord1fv_arb
    ∷ gl_multi_tex_coord1iv ∷ gl_multi_tex_coord1iv_arb ∷ gl_multi_tex_coord1sv
    ∷ gl_multi_tex_coord1sv_arb ∷ gl_multi_tex_coord2dv ∷ gl_multi_tex_coord2dv_arb
    ∷ gl_multi_tex_coord2fv ∷ gl_multi_tex_coord2fv_arb ∷ []
