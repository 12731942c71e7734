-- ===== src/Mesa/FEnum/PartF.antt =====
-- mglfunci.h: FEnum_glX is gl_x here; glVertexAttrib3dvARB to glWeightusvARB.
use qemu_win.Prelude.{ℕ}

abbrev pub gl_vertex_attrib3dv_arb : ℕ
gl_vertex_attrib3dv_arb = 0xa4c

abbrev pub gl_vertex_attrib3dv_nv : ℕ
gl_vertex_attrib3dv_nv = 0xa4d

abbrev pub gl_vertex_attrib3fv : ℕ
gl_vertex_attrib3fv = 0xa51

abbrev pub gl_vertex_attrib3fv_arb : ℕ
gl_vertex_attrib3fv_arb = 0xa52

abbrev pub gl_vertex_attrib3fv_nv : ℕ
gl_vertex_attrib3fv_nv = 0xa53

abbrev pub gl_vertex_attrib3sv : ℕ
gl_vertex_attrib3sv = 0xa59

abbrev pub gl_vertex_attrib3sv_arb : ℕ
gl_vertex_attrib3sv_arb = 0xa5a

abbrev pub gl_vertex_attrib3sv_nv : ℕ
gl_vertex_attrib3sv_nv = 0xa5b

abbrev pub gl_vertex_attrib4bv : ℕ
gl_vertex_attrib4bv = 0xa5c

abbrev pub gl_vertex_attrib4bv_arb : ℕ
gl_vertex_attrib4bv_arb = 0xa5d

abbrev pub gl_vertex_attrib4dv : ℕ
gl_vertex_attrib4dv = 0xa61

abbrev pub gl_vertex_attrib4dv_arb : ℕ
gl_vertex_attrib4dv_arb = 0xa62

abbrev pub gl_vertex_attrib4dv_nv : ℕ
gl_vertex_attrib4dv_nv = 0xa63

abbrev pub gl_vertex_attrib4fv : ℕ
gl_vertex_attrib4fv = 0xa67

abbrev pub gl_vertex_attrib4fv_arb : ℕ
gl_vertex_attrib4fv_arb = 0xa68

abbrev pub gl_vertex_attrib4fv_nv : ℕ
gl_vertex_attrib4fv_nv = 0xa69

abbrev pub gl_vertex_attrib4iv : ℕ
gl_vertex_attrib4iv = 0xa6c

abbrev pub gl_vertex_attrib4iv_arb : ℕ
gl_vertex_attrib4iv_arb = 0xa6d

abbrev pub gl_vertex_attrib4_nbv : ℕ
gl_vertex_attrib4_nbv = 0xa6e

abbrev pub gl_vertex_attrib4_nbv_arb : ℕ
gl_vertex_attrib4_nbv_arb = 0xa6f

abbrev pub gl_vertex_attrib4_niv : ℕ
gl_vertex_attrib4_niv = 0xa70

abbrev pub gl_vertex_attrib4_niv_arb : ℕ
gl_vertex_attrib4_niv_arb = 0xa71

abbrev pub gl_vertex_attrib4_nsv : ℕ
gl_vertex_attrib4_nsv = 0xa72

abbrev pub gl_vertex_attrib4_nsv_arb : ℕ
gl_vertex_attrib4_nsv_arb = 0xa73

abbrev pub gl_vertex_attrib4_nubv : ℕ
gl_vertex_attrib4_nubv = 0xa76

abbrev pub gl_vertex_attrib4_nubv_arb : ℕ
gl_vertex_attrib4_nubv_arb = 0xa77

abbrev pub gl_vertex_attrib4_nuiv : ℕ
gl_vertex_attrib4_nuiv = 0xa78

abbrev pub gl_vertex_attrib4_nuiv_arb : ℕ
gl_vertex_attrib4_nuiv_arb = 0xa79

abbrev pub gl_vertex_attrib4_nusv : ℕ
gl_vertex_attrib4_nusv = 0xa7a

abbrev pub gl_vertex_attrib4_nusv_arb : ℕ
gl_vertex_attrib4_nusv_arb = 0xa7b

abbrev pub gl_vertex_attrib4sv : ℕ
gl_vertex_attrib4sv = 0xa7f

abbrev pub gl_vertex_attrib4sv_arb : ℕ
gl_vertex_attrib4sv_arb = 0xa80

abbrev pub gl_vertex_attrib4sv_nv : ℕ
gl_vertex_attrib4sv_nv = 0xa81

abbrev pub gl_vertex_attrib4ubv : ℕ
gl_vertex_attrib4ubv = 0xa83

abbrev pub gl_vertex_attrib4ubv_arb : ℕ
gl_vertex_attrib4ubv_arb = 0xa84

abbrev pub gl_vertex_attrib4ubv_nv : ℕ
gl_vertex_attrib4ubv_nv = 0xa85

abbrev pub gl_vertex_attrib4uiv : ℕ
gl_vertex_attrib4uiv = 0xa86

abbrev pub gl_vertex_attrib4uiv_arb : ℕ
gl_vertex_attrib4uiv_arb = 0xa87

abbrev pub gl_vertex_attrib4usv : ℕ
gl_vertex_attrib4usv = 0xa88

abbrev pub gl_vertex_attrib4usv_arb : ℕ
gl_vertex_attrib4usv_arb = 0xa89

abbrev pub gl_vertex_weightfv_ext : ℕ
gl_vertex_weightfv_ext = 0xb2f

abbrev pub gl_viewport_arrayv : ℕ
gl_viewport_arrayv = 0xb38

abbrev pub gl_viewport_indexedfv : ℕ
gl_viewport_indexedfv = 0xb3a

abbrev pub gl_weightbv_arb : ℕ
gl_weightbv_arb = 0xb40

abbrev pub gl_weightdv_arb : ℕ
gl_weightdv_arb = 0xb41

abbrev pub gl_weightfv_arb : ℕ
gl_weightfv_arb = 0xb42

abbrev pub gl_weightiv_arb : ℕ
gl_weightiv_arb = 0xb43

abbrev pub gl_weightsv_arb : ℕ
gl_weightsv_arb = 0xb46

abbrev pub gl_weightubv_arb : ℕ
gl_weightubv_arb = 0xb47

abbrev pub gl_weightuiv_arb : ℕ
gl_weightuiv_arb = 0xb48

abbrev pub gl_weightusv_arb : ℕ
gl_weightusv_arb = 0xb49
