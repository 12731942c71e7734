-- ===== src/Mesa/Guest/Unprepared.antt =====
-- wrapgl32.c: the wrappers that send data for which processArgs has no case.
use qemu_win.Prelude.{ℕ, ◌*◌, List, [], ◌∷◌, u32}
use qemu_win.Mesa.FEnum
use qemu_win.Mesa.SzData.{szglname}
use qemu_win.Mesa.Args.State.{aligned}
use qemu_win.Mesa.Guest.Ops.{Wrapper, queued}

unfoldable pub gl_color_table_parameterfv : Wrapper
gl_color_table_parameterfv strlen a =
    queued FEnum.gl_color_table_parameterfv 3 ((2, u32 (aligned (szglname (a 1) * 4))) ∷ [])

unfoldable pub gl_color_table_parameteriv : Wrapper
gl_color_table_parameteriv strlen a =
    queued FEnum.gl_color_table_parameteriv 3 ((2, u32 (aligned (szglname (a 1) * 4))) ∷ [])

unfoldable pub gl_request_resident_programs_nv : Wrapper
gl_request_resident_programs_nv strlen a =
    queued FEnum.gl_request_resident_programs_nv 2 ((1, u32 (a 0 * 4)) ∷ [])

unfoldable pub gl_tex_coord1dv : Wrapper
gl_tex_coord1dv strlen a = queued FEnum.gl_tex_coord1dv 1 ((0, 8) ∷ [])

unfoldable pub gl_tex_coord1fv : Wrapper
gl_tex_coord1fv strlen a = queued FEnum.gl_tex_coord1fv 1 ((0, u32 (aligned 4)) ∷ [])

unfoldable pub gl_tex_coord1iv : Wrapper
gl_tex_coord1iv strlen a = queued FEnum.gl_tex_coord1iv 1 ((0, u32 (aligned 4)) ∷ [])

unfoldable pub gl_tex_coord1sv : Wrapper
gl_tex_coord1sv strlen a = queued FEnum.gl_tex_coord1sv 1 ((0, u32 (aligned 2)) ∷ [])

unfoldable pub gl_vertex_attribs1dv_nv : Wrapper
gl_vertex_attribs1dv_nv strlen a = queued FEnum.gl_vertex_attribs1dv_nv 3 ((2, u32 (a 1 * 8)) ∷ [])

unfoldable pub gl_vertex_attribs1fv_nv : Wrapper
gl_vertex_attribs1fv_nv strlen a = queued FEnum.gl_vertex_attribs1fv_nv 3 ((2, u32 (a 1 * 4)) ∷ [])

unfoldable pub gl_vertex_attribs1sv_nv : Wrapper
gl_vertex_attribs1sv_nv strlen a = queued FEnum.gl_vertex_attribs1sv_nv 3 ((2, u32 (a 1 * 2)) ∷ [])

unfoldable pub gl_vertex_attribs2dv_nv : Wrapper
gl_vertex_attribs2dv_nv strlen a =
    queued FEnum.gl_vertex_attribs2dv_nv 3 ((2, u32 ((u32 (2 * a 1)) * 8)) ∷ [])

unfoldable pub gl_vertex_attribs2fv_nv : Wrapper
gl_vertex_attribs2fv_nv strlen a =
    queued FEnum.gl_vertex_attribs2fv_nv 3 ((2, u32 ((u32 (2 * a 1)) * 4)) ∷ [])

unfoldable pub gl_vertex_attribs2sv_nv : Wrapper
gl_vertex_attribs2sv_nv strlen a =
    queued FEnum.gl_vertex_attribs2sv_nv 3 ((2, u32 ((u32 (2 * a 1)) * 2)) ∷ [])

unfoldable pub gl_vertex_attribs3dv_nv : Wrapper
gl_vertex_attribs3dv_nv strlen a =
    queued FEnum.gl_vertex_attribs3dv_nv 3 ((2, u32 ((u32 (3 * a 1)) * 8)) ∷ [])

unfoldable pub gl_vertex_attribs3fv_nv : Wrapper
gl_vertex_attribs3fv_nv strlen a =
    queued FEnum.gl_vertex_attribs3fv_nv 3 ((2, u32 ((u32 (3 * a 1)) * 4)) ∷ [])

unfoldable pub gl_vertex_attribs3sv_nv : Wrapper
gl_vertex_attribs3sv_nv strlen a =
    queued FEnum.gl_vertex_attribs3sv_nv 3 ((2, u32 ((u32 (3 * a 1)) * 2)) ∷ [])

unfoldable pub gl_vertex_attribs4dv_nv : Wrapper
gl_vertex_attribs4dv_nv strlen a =
    queued FEnum.gl_vertex_attribs4dv_nv 3 ((2, u32 ((u32 (4 * a 1)) * 8)) ∷ [])

unfoldable pub gl_vertex_attribs4fv_nv : Wrapper
gl_vertex_attribs4fv_nv strlen a =
    queued FEnum.gl_vertex_attribs4fv_nv 3 ((2, u32 ((u32 (4 * a 1)) * 4)) ∷ [])

unfoldable pub gl_vertex_attribs4sv_nv : Wrapper
gl_vertex_attribs4sv_nv strlen a =
    queued FEnum.gl_vertex_attribs4sv_nv 3 ((2, u32 ((u32 (4 * a 1)) * 2)) ∷ [])

unfoldable pub gl_vertex_attribs4ubv_nv : Wrapper
gl_vertex_attribs4ubv_nv strlen a =
    queued FEnum.gl_vertex_attribs4ubv_nv 3 ((2, u32 ((u32 (4 * a 1)) * 1)) ∷ [])

unfoldable pub unprepared : List Wrapper
unfolding gl_color_table_parameterfv gl_color_table_parameteriv gl_request_resident_programs_nv
    gl_tex_coord1dv gl_tex_coord1fv gl_tex_coord1iv gl_tex_coord1sv gl_vertex_attribs1dv_nv
    gl_vertex_attribs1fv_nv gl_vertex_attribs1sv_nv gl_vertex_attribs2dv_nv gl_vertex_attribs2fv_nv
    gl_vertex_attribs2sv_nv gl_vertex_attribs3dv_nv gl_vertex_attribs3fv_nv gl_vertex_attribs3sv_nv
    gl_vertex_attribs4dv_nv gl_vertex_attribs4fv_nv gl_vertex_attribs4sv_nv gl_vertex_attribs4ubv_nv
unprepared =
    gl_color_table_parameterfv ∷ gl_color_table_parameteriv ∷ gl_request_resident_programs_nv
    ∷ gl_tex_coord1dv ∷ gl_tex_coord1fv ∷ gl_tex_coord1iv ∷ gl_tex_coord1sv
    ∷ gl_vertex_attribs1dv_nv ∷ gl_vertex_attribs1fv_nv ∷ gl_vertex_attribs1sv_nv
    ∷ gl_vertex_attribs2dv_nv ∷ gl_vertex_attribs2fv_nv ∷ gl_vertex_attribs2sv_nv
    ∷ gl_vertex_attribs3dv_nv ∷ gl_vertex_attribs3fv_nv ∷ gl_vertex_attribs3sv_nv
    ∷ gl_vertex_attribs4dv_nv ∷ gl_vertex_attribs4fv_nv ∷ gl_vertex_attribs4sv_nv
    ∷ gl_vertex_attribs4ubv_nv ∷ []

-- their functions
abbrev pub no_case : List ℕ
no_case =
    FEnum.gl_color_table_parameterfv ∷ FEnum.gl_color_table_parameteriv
    ∷ FEnum.gl_request_resident_programs_nv ∷ FEnum.gl_tex_coord1dv ∷ FEnum.gl_tex_coord1fv
    ∷ FEnum.gl_tex_coord1iv ∷ FEnum.gl_tex_coord1sv ∷ FEnum.gl_vertex_attribs1dv_nv
    ∷ FEnum.gl_vertex_attribs1fv_nv ∷ FEnum.gl_vertex_attribs1sv_nv ∷ FEnum.gl_vertex_attribs2dv_nv
    ∷ FEnum.gl_vertex_attribs2fv_nv ∷ FEnum.gl_vertex_attribs2sv_nv ∷ FEnum.gl_vertex_attribs3dv_nv
    ∷ FEnum.gl_vertex_attribs3fv_nv ∷ FEnum.gl_vertex_attribs3sv_nv ∷ FEnum.gl_vertex_attribs4dv_nv
    ∷ FEnum.gl_vertex_attribs4fv_nv ∷ FEnum.gl_vertex_attribs4sv_nv ∷ FEnum.gl_vertex_attribs4ubv_nv
    ∷ []
