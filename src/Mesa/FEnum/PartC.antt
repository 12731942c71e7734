-- ===== src/Mesa/FEnum/PartC.antt =====
-- mglfunci.h: FEnum_glX is gl_x here; glMultiTexCoord4fvARB to glSecondaryColor3dvEXT.
use qemu_win.Prelude.{ℕ}

abbrev pub gl_multi_tex_coord4fv_arb : ℕ
gl_multi_tex_coord4fv_arb = 0x5d2

abbrev pub gl_multi_tex_coord4iv : ℕ
gl_multi_tex_coord4iv = 0x5d7

abbrev pub gl_multi_tex_coord4iv_arb : ℕ
gl_multi_tex_coord4iv_arb = 0x5d8

abbrev pub gl_multi_tex_coord4sv : ℕ
gl_multi_tex_coord4sv = 0x5db

abbrev pub gl_multi_tex_coord4sv_arb : ℕ
gl_multi_tex_coord4sv_arb = 0x5dc

abbrev pub gl_mult_matrixd : ℕ
gl_mult_matrixd = 0x5ff

abbrev pub gl_mult_matrixf : ℕ
gl_mult_matrixf = 0x600

abbrev pub gl_normal3bv : ℕ
gl_normal3bv = 0x63b

abbrev pub gl_normal3dv : ℕ
gl_normal3dv = 0x63d

abbrev pub gl_normal3fv : ℕ
gl_normal3fv = 0x63f

abbrev pub gl_normal3iv : ℕ
gl_normal3iv = 0x645

abbrev pub gl_normal3sv : ℕ
gl_normal3sv = 0x647

abbrev pub gl_point_parameterfv : ℕ
gl_point_parameterfv = 0x69b

abbrev pub gl_point_parameterfv_arb : ℕ
gl_point_parameterfv_arb = 0x69c

abbrev pub gl_point_parameterfv_ext : ℕ
gl_point_parameterfv_ext = 0x69d

abbrev pub gl_point_parameteriv : ℕ
gl_point_parameteriv = 0x6a1

abbrev pub gl_prioritize_textures : ℕ
gl_prioritize_textures = 0x6bb

abbrev pub gl_prioritize_textures_ext : ℕ
gl_prioritize_textures_ext = 0x6bc

abbrev pub gl_program_env_parameter4dv_arb : ℕ
gl_program_env_parameter4dv_arb = 0x6c3

abbrev pub gl_program_env_parameter4fv_arb : ℕ
gl_program_env_parameter4fv_arb = 0x6c5

abbrev pub gl_program_env_parameters4fv_ext : ℕ
gl_program_env_parameters4fv_ext = 0x6ca

abbrev pub gl_program_local_parameter4dv_arb : ℕ
gl_program_local_parameter4dv_arb = 0x6ce

abbrev pub gl_program_local_parameter4fv_arb : ℕ
gl_program_local_parameter4fv_arb = 0x6d0

abbrev pub gl_program_local_parameters4fv_ext : ℕ
gl_program_local_parameters4fv_ext = 0x6d5

abbrev pub gl_program_named_parameter4d_nv : ℕ
gl_program_named_parameter4d_nv = 0x6d8

abbrev pub gl_program_named_parameter4f_nv : ℕ
gl_program_named_parameter4f_nv = 0x6da

abbrev pub gl_program_parameter4dv_nv : ℕ
gl_program_parameter4dv_nv = 0x6dd

abbrev pub gl_program_parameter4fv_nv : ℕ
gl_program_parameter4fv_nv = 0x6df

abbrev pub gl_program_parameters4dv_nv : ℕ
gl_program_parameters4dv_nv = 0x6e3

abbrev pub gl_program_parameters4fv_nv : ℕ
gl_program_parameters4fv_nv = 0x6e4

abbrev pub gl_raster_pos2dv : ℕ
gl_raster_pos2dv = 0x782

abbrev pub gl_raster_pos2fv : ℕ
gl_raster_pos2fv = 0x784

abbrev pub gl_raster_pos2iv : ℕ
gl_raster_pos2iv = 0x786

abbrev pub gl_raster_pos2sv : ℕ
gl_raster_pos2sv = 0x788

abbrev pub gl_raster_pos3dv : ℕ
gl_raster_pos3dv = 0x78c

abbrev pub gl_raster_pos3fv : ℕ
gl_raster_pos3fv = 0x78e

abbrev pub gl_raster_pos3iv : ℕ
gl_raster_pos3iv = 0x790

abbrev pub gl_raster_pos3sv : ℕ
gl_raster_pos3sv = 0x792

abbrev pub gl_raster_pos4dv : ℕ
gl_raster_pos4dv = 0x796

abbrev pub gl_raster_pos4fv : ℕ
gl_raster_pos4fv = 0x798

abbrev pub gl_raster_pos4iv : ℕ
gl_raster_pos4iv = 0x79a

abbrev pub gl_raster_pos4sv : ℕ
gl_raster_pos4sv = 0x79c

abbrev pub gl_rectdv : ℕ
gl_rectdv = 0x7a6

abbrev pub gl_rectfv : ℕ
gl_rectfv = 0x7a8

abbrev pub gl_rectiv : ℕ
gl_rectiv = 0x7aa

abbrev pub gl_rectsv : ℕ
gl_rectsv = 0x7ac

abbrev pub gl_sampler_parameterfv : ℕ
gl_sampler_parameterfv = 0x7e8

abbrev pub gl_sampler_parameter_iiv : ℕ
gl_sampler_parameter_iiv = 0x7ea

abbrev pub gl_sampler_parameter_iuiv : ℕ
gl_sampler_parameter_iuiv = 0x7eb

abbrev pub gl_sampler_parameteriv : ℕ
gl_sampler_parameteriv = 0x7ec

abbrev pub gl_scissor_arrayv : ℕ
gl_scissor_arrayv = 0x7f1

abbrev pub gl_scissor_indexedv : ℕ
gl_scissor_indexedv = 0x7f5

abbrev pub gl_secondary_color3bv : ℕ
gl_secondary_color3bv = 0x7f8

abbrev pub gl_secondary_color3bv_ext : ℕ
gl_secondary_color3bv_ext = 0x7f9

abbrev pub gl_secondary_color3dv : ℕ
gl_secondary_color3dv = 0x7fc

abbrev pub gl_secondary_color3dv_ext : ℕ
gl_secondary_color3dv_ext = 0x7fd
