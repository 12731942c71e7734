-- ===== src/Mesa/Guest/FixedE.antt =====
-- wrapgl32.c: wrappers that send data of a fixed size, glVertexAttrib4uiv to glViewportIndexedfv.
use qemu_win.Prelude.{◌*◌, List, [], ◌∷◌}
use qemu_win.Mesa.FEnum
use qemu_win.Mesa.Args.State.{aligned}
use qemu_win.Mesa.Guest.Ops.{Wrapper, queued}

unfoldable pub gl_vertex_attrib4uiv : Wrapper
gl_vertex_attrib4uiv strlen a = queued FEnum.gl_vertex_attrib4uiv 2 ((1, 4 * 4) ∷ [])

unfoldable pub gl_vertex_attrib4uiv_arb : Wrapper
gl_vertex_attrib4uiv_arb strlen a = queued FEnum.gl_vertex_attrib4uiv_arb 2 ((1, 4 * 4) ∷ [])

unfoldable pub gl_vertex_attrib4usv : Wrapper
gl_vertex_attrib4usv strlen a = queued FEnum.gl_vertex_attrib4usv 2 ((1, 4 * 2) ∷ [])

unfoldable pub gl_vertex_attrib4usv_arb : Wrapper
gl_vertex_attrib4usv_arb strlen a = queued FEnum.gl_vertex_attrib4usv_arb 2 ((1, 4 * 2) ∷ [])

unfoldable pub gl_vertex_weightfv_ext : Wrapper
gl_vertex_weightfv_ext strlen a = queued FEnum.gl_vertex_weightfv_ext 1 ((0, aligned 4) ∷ [])

unfoldable pub gl_viewport_indexedfv : Wrapper
gl_viewport_indexedfv strlen a = queued FEnum.gl_viewport_indexedfv 2 ((1, 4 * 4) ∷ [])

unfoldable pub fixed_e : List Wrapper
unfolding gl_vertex_attrib4uiv gl_vertex_attrib4uiv_arb gl_vertex_attrib4usv
    gl_vertex_attrib4usv_arb gl_vertex_weightfv_ext gl_viewport_indexedfv
fixed_e =
    gl_vertex_attrib4uiv ∷ gl_vertex_attrib4uiv_arb ∷ gl_vertex_attrib4usv
    ∷ gl_vertex_attrib4usv_arb ∷ gl_vertex_weightfv_ext ∷ gl_viewport_indexedfv ∷ []
