-- ===== src/Glide/Guest/Draw.antt =====
-- glidedll.c: the wrappers that send vertices.
use qemu_win.Prelude.{ℕ, zero, suc, ◌+◌, ◌*◌, List, [], ◌∷◌, ◌++◌, u32}
use qemu_win.Glide.FEnum
use qemu_win.Glide.Args.Draw.{size_grvertex}
use qemu_win.Glide.Guest.Ops.{Op, at, add_data, grfunc, Args, Env, Wrapper, stores}

-- n vertices, the first in `pt[i]`
abbrev pub vertices : ℕ → ℕ → Args → List Op
vertices zero i a = []
vertices (suc n) i a = add_data (i + 1) (at (a i)) size_grvertex ∷ vertices n (i + 1) a

-- the vertices of a polygon, by the indices in `ilist` from the i-th on
abbrev pub by_index : ℕ → ℕ → Env → Args → List Op
by_index zero i env a = []
by_index (suc n) i env a =
    add_data 0 (at (u32 (a 2 + env.word (a 1 + i * 4) * size_grvertex))) size_grvertex
    ∷ by_index n (i + 1) env a

abbrev pub polygon : ℕ → Wrapper
polygon f g env a =
    add_data 0 (at (a 1)) (u32 (a 0 * 4))
    ∷ (by_index (a 0) 0 env a ++ (stores 3 0 a ++ (grfunc f 3 ∷ [])))

abbrev pub vertex_list : ℕ → Wrapper
vertex_list f g env a =
    add_data 0 (at (a 1)) (u32 (a 0 * size_grvertex)) ∷ (stores 2 0 a ++ (grfunc f 2 ∷ []))

abbrev pub shape : ℕ → ℕ → Wrapper
shape f n g env a = vertices n 0 a ++ (grfunc f n ∷ [])

unfoldable pub gr_aadraw_line : Wrapper
gr_aadraw_line = shape FEnum.gr_aadraw_line 2

unfoldable pub gr_aadraw_point : Wrapper
gr_aadraw_point = shape FEnum.gr_aadraw_point 1

unfoldable pub gr_aadraw_polygon : Wrapper
gr_aadraw_polygon = polygon FEnum.gr_aadraw_polygon

unfoldable pub gr_aadraw_polygon_vertex_list : Wrapper
gr_aadraw_polygon_vertex_list = vertex_list FEnum.gr_aadraw_polygon_vertex_list

-- the three flags of the edges are stored behind the vertices
unfoldable pub gr_aadraw_triangle : Wrapper
gr_aadraw_triangle g env a =
    vertices 3 0 a ++ (stores 3 3 a ++ (grfunc FEnum.gr_aadraw_triangle 6 ∷ []))

unfoldable pub gr_draw_line : Wrapper
gr_draw_line = shape FEnum.gr_draw_line 2

unfoldable pub gr_draw_planar_polygon : Wrapper
gr_draw_planar_polygon = polygon FEnum.gr_draw_planar_polygon

unfoldable pub gr_draw_planar_polygon_vertex_list : Wrapper
gr_draw_planar_polygon_vertex_list = vertex_list FEnum.gr_draw_planar_polygon_vertex_list

unfoldable pub gr_draw_point : Wrapper
gr_draw_point = shape FEnum.gr_draw_point 1

unfoldable pub gr_draw_polygon : Wrapper
gr_draw_polygon = polygon FEnum.gr_draw_polygon

unfoldable pub gr_draw_polygon_vertex_list : Wrapper
gr_draw_polygon_vertex_list = vertex_list FEnum.gr_draw_polygon_vertex_list

unfoldable pub gr_draw_triangle : Wrapper
gr_draw_triangle = shape FEnum.gr_draw_triangle 3

unfoldable pub gu_aadraw_triangle_with_clip : Wrapper
gu_aadraw_triangle_with_clip = shape FEnum.gu_aadraw_triangle_with_clip 3

unfoldable pub gu_draw_polygon_vertex_list_with_clip : Wrapper
gu_draw_polygon_vertex_list_with_clip = vertex_list FEnum.gu_draw_polygon_vertex_list_with_clip

unfoldable pub gu_draw_triangle_with_clip : Wrapper
gu_draw_triangle_with_clip = shape FEnum.gu_draw_triangle_with_clip 3
