-- ===== src/Mesa/FEnum/PartE.antt =====
-- mglfunci.h: FEnum_glX is gl_x here; glUniform4iv to glVertexAttrib3dv.
use qemu_win.Prelude.{ℕ}

abbrev pub gl_uniform4iv : ℕ
gl_uniform4iv = 0x98c

abbrev pub gl_uniform4iv_arb : ℕ
gl_uniform4iv_arb = 0x98d

abbrev pub gl_uniform4uiv : ℕ
gl_uniform4uiv = 0x994

abbrev pub gl_uniform4uiv_ext : ℕ
gl_uniform4uiv_ext = 0x995

abbrev pub gl_uniform_matrix2dv : ℕ
gl_uniform_matrix2dv = 0x99c

abbrev pub gl_uniform_matrix2fv : ℕ
gl_uniform_matrix2fv = 0x99d

abbrev pub gl_uniform_matrix2fv_arb : ℕ
gl_uniform_matrix2fv_arb = 0x99e

abbrev pub gl_uniform_matrix2x3dv : ℕ
gl_uniform_matrix2x3dv = 0x99f

abbrev pub gl_uniform_matrix2x3fv : ℕ
gl_uniform_matrix2x3fv = 0x9a0

abbrev pub gl_uniform_matrix2x4dv : ℕ
gl_uniform_matrix2x4dv = 0x9a1

abbrev pub gl_uniform_matrix2x4fv : ℕ
gl_uniform_matrix2x4fv = 0x9a2

abbrev pub gl_uniform_matrix3dv : ℕ
gl_uniform_matrix3dv = 0x9a3

abbrev pub gl_uniform_matrix3fv : ℕ
gl_uniform_matrix3fv = 0x9a4

abbrev pub gl_uniform_matrix3fv_arb : ℕ
gl_uniform_matrix3fv_arb = 0x9a5

abbrev pub gl_uniform_matrix3x2dv : ℕ
gl_uniform_matrix3x2dv = 0x9a6

abbrev pub gl_uniform_matrix3x2fv : ℕ
gl_uniform_matrix3x2fv = 0x9a7

abbrev pub gl_uniform_matrix3x4dv : ℕ
gl_uniform_matrix3x4dv = 0x9a8

abbrev pub gl_uniform_matrix3x4fv : ℕ
gl_uniform_matrix3x4fv = 0x9a9

abbrev pub gl_uniform_matrix4dv : ℕ
gl_uniform_matrix4dv = 0x9aa

abbrev pub gl_uniform_matrix4fv : ℕ
gl_uniform_matrix4fv = 0x9ab

abbrev pub gl_uniform_matrix4fv_arb : ℕ
gl_uniform_matrix4fv_arb = 0x9ac

abbrev pub gl_uniform_matrix4x2dv : ℕ
gl_uniform_matrix4x2dv = 0x9ad

abbrev pub gl_uniform_matrix4x2fv : ℕ
gl_uniform_matrix4x2fv = 0x9ae

abbrev pub gl_uniform_matrix4x3dv : ℕ
gl_uniform_matrix4x3dv = 0x9af

abbrev pub gl_uniform_matrix4x3fv : ℕ
gl_uniform_matrix4x3fv = 0x9b0

abbrev pub gl_vertex2dv : ℕ
gl_vertex2dv = 0x9db

abbrev pub gl_vertex2fv : ℕ
gl_vertex2fv = 0x9dd

abbrev pub gl_vertex2iv : ℕ
gl_vertex2iv = 0x9e1

abbrev pub gl_vertex2sv : ℕ
gl_vertex2sv = 0x9e3

abbrev pub gl_vertex3dv : ℕ
gl_vertex3dv = 0x9e9

abbrev pub gl_vertex3fv : ℕ
gl_vertex3fv = 0x9eb

abbrev pub gl_vertex3iv : ℕ
gl_vertex3iv = 0x9ef

abbrev pub gl_vertex3sv : ℕ
gl_vertex3sv = 0x9f1

abbrev pub gl_vertex4dv : ℕ
gl_vertex4dv = 0x9f7

abbrev pub gl_vertex4fv : ℕ
gl_vertex4fv = 0x9f9

abbrev pub gl_vertex4iv : ℕ
gl_vertex4iv = 0x9fd

abbrev pub gl_vertex4sv : ℕ
gl_vertex4sv = 0x9ff

abbrev pub gl_vertex_attrib1dv : ℕ
gl_vertex_attrib1dv = 0xa23

abbrev pub gl_vertex_attrib1dv_arb : ℕ
gl_vertex_attrib1dv_arb = 0xa24

abbrev pub gl_vertex_attrib1dv_nv : ℕ
gl_vertex_attrib1dv_nv = 0xa25

abbrev pub gl_vertex_attrib1fv : ℕ
gl_vertex_attrib1fv = 0xa29

abbrev pub gl_vertex_attrib1fv_arb : ℕ
gl_vertex_attrib1fv_arb = 0xa2a

abbrev pub gl_vertex_attrib1fv_nv : ℕ
gl_vertex_attrib1fv_nv = 0xa2b

abbrev pub gl_vertex_attrib1sv : ℕ
gl_vertex_attrib1sv = 0xa31

abbrev pub gl_vertex_attrib1sv_arb : ℕ
gl_vertex_attrib1sv_arb = 0xa32

abbrev pub gl_vertex_attrib1sv_nv : ℕ
gl_vertex_attrib1sv_nv = 0xa33

abbrev pub gl_vertex_attrib2dv : ℕ
gl_vertex_attrib2dv = 0xa37

abbrev pub gl_vertex_attrib2dv_arb : ℕ
gl_vertex_attrib2dv_arb = 0xa38

abbrev pub gl_vertex_attrib2dv_nv : ℕ
gl_vertex_attrib2dv_nv = 0xa39

abbrev pub gl_vertex_attrib2fv : ℕ
gl_vertex_attrib2fv = 0xa3d

abbrev pub gl_vertex_attrib2fv_arb : ℕ
gl_vertex_attrib2fv_arb = 0xa3e

abbrev pub gl_vertex_attrib2fv_nv : ℕ
gl_vertex_attrib2fv_nv = 0xa3f

abbrev pub gl_vertex_attrib2sv : ℕ
gl_vertex_attrib2sv = 0xa45

abbrev pub gl_vertex_attrib2sv_arb : ℕ
gl_vertex_attrib2sv_arb = 0xa46

abbrev pub gl_vertex_attrib2sv_nv : ℕ
gl_vertex_attrib2sv_nv = 0xa47

abbrev pub gl_vertex_attrib3dv : ℕ
gl_vertex_attrib3dv = 0xa4b
