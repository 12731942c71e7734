-- ===== src/Mesa/FEnum/PartG.antt =====
-- mglfunci.h: FEnum_glX is gl_x here; functions that processArgs has no case for.
use qemu_win.Prelude.{ℕ}

abbrev pub gl_color_table_parameterfv : ℕ
gl_color_table_parameterfv = 0x105

abbrev pub gl_color_table_parameteriv : ℕ
gl_color_table_parameteriv = 0x107

abbrev pub gl_request_resident_programs_nv : ℕ
gl_request_resident_programs_nv = 0x7d1

abbrev pub gl_tex_coord1dv : ℕ
gl_tex_coord1dv = 0x874

abbrev pub gl_tex_coord1fv : ℕ
gl_tex_coord1fv = 0x876

abbrev pub gl_tex_coord1iv : ℕ
gl_tex_coord1iv = 0x87a

abbrev pub gl_tex_coord1sv : ℕ
gl_tex_coord1sv = 0x87c

abbrev pub gl_vertex_attribs1dv_nv : ℕ
gl_vertex_attribs1dv_nv = 0xaee

abbrev pub gl_vertex_attribs1fv_nv : ℕ
gl_vertex_attribs1fv_nv = 0xaef

abbrev pub gl_vertex_attribs1sv_nv : ℕ
gl_vertex_attribs1sv_nv = 0xaf1

abbrev pub gl_vertex_attribs2dv_nv : ℕ
gl_vertex_attribs2dv_nv = 0xaf2

abbrev pub gl_vertex_attribs2fv_nv : ℕ
gl_vertex_attribs2fv_nv = 0xaf3

abbrev pub gl_vertex_attribs2sv_nv : ℕ
gl_vertex_attribs2sv_nv = 0xaf5

abbrev pub gl_vertex_attribs3dv_nv : ℕ
gl_vertex_attribs3dv_nv = 0xaf6

abbrev pub gl_vertex_attribs3fv_nv : ℕ
gl_vertex_attribs3fv_nv = 0xaf7

abbrev pub gl_vertex_attribs3sv_nv : ℕ
gl_vertex_attribs3sv_nv = 0xaf9

abbrev pub gl_vertex_attribs4dv_nv : ℕ
gl_vertex_attribs4dv_nv = 0xafa

abbrev pub gl_vertex_attribs4fv_nv : ℕ
gl_vertex_attribs4fv_nv = 0xafb

abbrev pub gl_vertex_attribs4sv_nv : ℕ
gl_vertex_attribs4sv_nv = 0xafd

abbrev pub gl_vertex_attribs4ubv_nv : ℕ
gl_vertex_attribs4ubv_nv = 0xafe
