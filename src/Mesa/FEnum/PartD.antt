-- ===== src/Mesa/FEnum/PartD.antt =====
-- mglfunci.h: FEnum_glX is gl_x here; glSecondaryColor3fv to glUniform4fvARB.
use qemu_win.Prelude.{ℕ}

abbrev pub gl_secondary_color3fv : ℕ
gl_secondary_color3fv = 0x800

abbrev pub gl_secondary_color3fv_ext : ℕ
gl_secondary_color3fv_ext = 0x801

abbrev pub gl_secondary_color3iv : ℕ
gl_secondary_color3iv = 0x806

abbrev pub gl_secondary_color3iv_ext : ℕ
gl_secondary_color3iv_ext = 0x807

abbrev pub gl_secondary_color3sv : ℕ
gl_secondary_color3sv = 0x80a

abbrev pub gl_secondary_color3sv_ext : ℕ
gl_secondary_color3sv_ext = 0x80b

abbrev pub gl_secondary_color3ubv : ℕ
gl_secondary_color3ubv = 0x80e

abbrev pub gl_secondary_color3ubv_ext : ℕ
gl_secondary_color3ubv_ext = 0x80f

abbrev pub gl_secondary_color3uiv : ℕ
gl_secondary_color3uiv = 0x812

abbrev pub gl_secondary_color3uiv_ext : ℕ
gl_secondary_color3uiv_ext = 0x813

abbrev pub gl_secondary_color3usv : ℕ
gl_secondary_color3usv = 0x816

abbrev pub gl_secondary_color3usv_ext : ℕ
gl_secondary_color3usv_ext = 0x817

abbrev pub gl_set_fragment_shader_constant_ati : ℕ
gl_set_fragment_shader_constant_ati = 0x825

abbrev pub gl_tex_coord2dv : ℕ
gl_tex_coord2dv = 0x882

abbrev pub gl_tex_coord2fv : ℕ
gl_tex_coord2fv = 0x88c

abbrev pub gl_tex_coord2iv : ℕ
gl_tex_coord2iv = 0x892

abbrev pub gl_tex_coord2sv : ℕ
gl_tex_coord2sv = 0x894

abbrev pub gl_tex_coord3dv : ℕ
gl_tex_coord3dv = 0x89a

abbrev pub gl_tex_coord3fv : ℕ
gl_tex_coord3fv = 0x89c

abbrev pub gl_tex_coord3iv : ℕ
gl_tex_coord3iv = 0x8a0

abbrev pub gl_tex_coord3sv : ℕ
gl_tex_coord3sv = 0x8a2

abbrev pub gl_tex_coord4dv : ℕ
gl_tex_coord4dv = 0x8a8

abbrev pub gl_tex_coord4fv : ℕ
gl_tex_coord4fv = 0x8ac

abbrev pub gl_tex_coord4iv : ℕ
gl_tex_coord4iv = 0x8b2

abbrev pub gl_tex_coord4sv : ℕ
gl_tex_coord4sv = 0x8b4

abbrev pub gl_tex_envfv : ℕ
gl_tex_envfv = 0x8c5

abbrev pub gl_tex_enviv : ℕ
gl_tex_enviv = 0x8c7

abbrev pub gl_tex_gendv : ℕ
gl_tex_gendv = 0x8cc

abbrev pub gl_tex_genfv : ℕ
gl_tex_genfv = 0x8ce

abbrev pub gl_tex_geniv : ℕ
gl_tex_geniv = 0x8d0

abbrev pub gl_tex_parameterfv : ℕ
gl_tex_parameterfv = 0x8de

abbrev pub gl_tex_parameteriv : ℕ
gl_tex_parameteriv = 0x8e4

abbrev pub gl_uniform1dv : ℕ
gl_uniform1dv = 0x93f

abbrev pub gl_uniform1fv : ℕ
gl_uniform1fv = 0x942

abbrev pub gl_uniform1fv_arb : ℕ
gl_uniform1fv_arb = 0x943

abbrev pub gl_uniform1iv : ℕ
gl_uniform1iv = 0x94a

abbrev pub gl_uniform1iv_arb : ℕ
gl_uniform1iv_arb = 0x94b

abbrev pub gl_uniform1uiv : ℕ
gl_uniform1uiv = 0x952

abbrev pub gl_uniform1uiv_ext : ℕ
gl_uniform1uiv_ext = 0x953

abbrev pub gl_uniform2dv : ℕ
gl_uniform2dv = 0x955

abbrev pub gl_uniform2fv : ℕ
gl_uniform2fv = 0x958

abbrev pub gl_uniform2fv_arb : ℕ
gl_uniform2fv_arb = 0x959

abbrev pub gl_uniform2iv : ℕ
gl_uniform2iv = 0x960

abbrev pub gl_uniform2iv_arb : ℕ
gl_uniform2iv_arb = 0x961

abbrev pub gl_uniform2uiv : ℕ
gl_uniform2uiv = 0x968

abbrev pub gl_uniform2uiv_ext : ℕ
gl_uniform2uiv_ext = 0x969

abbrev pub gl_uniform3dv : ℕ
gl_uniform3dv = 0x96b

abbrev pub gl_uniform3fv : ℕ
gl_uniform3fv = 0x96e

abbrev pub gl_uniform3fv_arb : ℕ
gl_uniform3fv_arb = 0x96f

abbrev pub gl_uniform3iv : ℕ
gl_uniform3iv = 0x976

abbrev pub gl_uniform3iv_arb : ℕ
gl_uniform3iv_arb = 0x977

abbrev pub gl_uniform3uiv : ℕ
gl_uniform3uiv = 0x97e

abbrev pub gl_uniform3uiv_ext : ℕ
gl_uniform3uiv_ext = 0x97f

abbrev pub gl_uniform4dv : ℕ
gl_uniform4dv = 0x981

abbrev pub gl_uniform4fv : ℕ
gl_uniform4fv = 0x984

abbrev pub gl_uniform4fv_arb : ℕ
gl_uniform4fv_arb = 0x985
