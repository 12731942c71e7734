-- ===== src/Mesa/FEnum/PartB.antt =====
-- mglfunci.h: FEnum_glX is gl_x here; glEvalCoord1dv to glMultiTexCoord4fv.
use qemu_win.Prelude.{ℕ}

abbrev pub gl_eval_coord1dv : ℕ
gl_eval_coord1dv = 0x228

abbrev pub gl_eval_coord1fv : ℕ
gl_eval_coord1fv = 0x22a

abbrev pub gl_eval_coord2dv : ℕ
gl_eval_coord2dv = 0x22e

abbrev pub gl_eval_coord2fv : ℕ
gl_eval_coord2fv = 0x230

abbrev pub gl_execute_program_nv : ℕ
gl_execute_program_nv = 0x239

abbrev pub gl_fog_coorddv : ℕ
gl_fog_coorddv = 0x251

abbrev pub gl_fog_coorddv_ext : ℕ
gl_fog_coorddv_ext = 0x252

abbrev pub gl_fog_coordfv : ℕ
gl_fog_coordfv = 0x256

abbrev pub gl_fog_coordfv_ext : ℕ
gl_fog_coordfv_ext = 0x257

abbrev pub gl_fogfv : ℕ
gl_fogfv = 0x25f

abbrev pub gl_fogiv : ℕ
gl_fogiv = 0x261

abbrev pub gl_get_attrib_location : ℕ
gl_get_attrib_location = 0x2c7

abbrev pub gl_get_attrib_location_arb : ℕ
gl_get_attrib_location_arb = 0x2c8

abbrev pub gl_get_uniform_block_index : ℕ
gl_get_uniform_block_index = 0x43a

abbrev pub gl_get_uniform_location : ℕ
gl_get_uniform_location = 0x444

abbrev pub gl_get_uniform_location_arb : ℕ
gl_get_uniform_location_arb = 0x445

abbrev pub gl_indexdv : ℕ
gl_indexdv = 0x495

abbrev pub gl_indexfv : ℕ
gl_indexfv = 0x499

abbrev pub gl_indexiv : ℕ
gl_indexiv = 0x49b

abbrev pub gl_indexsv : ℕ
gl_indexsv = 0x4a2

abbrev pub gl_indexubv : ℕ
gl_indexubv = 0x4a4

abbrev pub gl_lightfv : ℕ
gl_lightfv = 0x4ea

abbrev pub gl_lightiv : ℕ
gl_lightiv = 0x4ec

abbrev pub gl_light_modelfv : ℕ
gl_light_modelfv = 0x4ee

abbrev pub gl_light_modeliv : ℕ
gl_light_modeliv = 0x4f0

abbrev pub gl_load_matrixd : ℕ
gl_load_matrixd = 0x502

abbrev pub gl_load_matrixf : ℕ
gl_load_matrixf = 0x503

abbrev pub gl_materialfv : ℕ
gl_materialfv = 0x537

abbrev pub gl_materialiv : ℕ
gl_materialiv = 0x539

abbrev pub gl_multi_tex_coord1dv : ℕ
gl_multi_tex_coord1dv = 0x58b

abbrev pub gl_multi_tex_coord1dv_arb : ℕ
gl_multi_tex_coord1dv_arb = 0x58c

abbrev pub gl_multi_tex_coord1fv : ℕ
gl_multi_tex_coord1fv = 0x58f

abbrev pub gl_multi_tex_coord1fv_arb : ℕ
gl_multi_tex_coord1fv_arb = 0x590

abbrev pub gl_multi_tex_coord1iv : ℕ
gl_multi_tex_coord1iv = 0x595

abbrev pub gl_multi_tex_coord1iv_arb : ℕ
gl_multi_tex_coord1iv_arb = 0x596

abbrev pub gl_multi_tex_coord1sv : ℕ
gl_multi_tex_coord1sv = 0x599

abbrev pub gl_multi_tex_coord1sv_arb : ℕ
gl_multi_tex_coord1sv_arb = 0x59a

abbrev pub gl_multi_tex_coord2dv : ℕ
gl_multi_tex_coord2dv = 0x5a1

abbrev pub gl_multi_tex_coord2dv_arb : ℕ
gl_multi_tex_coord2dv_arb = 0x5a2

abbrev pub gl_multi_tex_coord2fv : ℕ
gl_multi_tex_coord2fv = 0x5a5

abbrev pub gl_multi_tex_coord2fv_arb : ℕ
gl_multi_tex_coord2fv_arb = 0x5a6

abbrev pub gl_multi_tex_coord2iv : ℕ
gl_multi_tex_coord2iv = 0x5ab

abbrev pub gl_multi_tex_coord2iv_arb : ℕ
gl_multi_tex_coord2iv_arb = 0x5ac

abbrev pub gl_multi_tex_coord2sv : ℕ
gl_multi_tex_coord2sv = 0x5af

abbrev pub gl_multi_tex_coord2sv_arb : ℕ
gl_multi_tex_coord2sv_arb = 0x5b0

abbrev pub gl_multi_tex_coord3dv : ℕ
gl_multi_tex_coord3dv = 0x5b7

abbrev pub gl_multi_tex_coord3dv_arb : ℕ
gl_multi_tex_coord3dv_arb = 0x5b8

abbrev pub gl_multi_tex_coord3fv : ℕ
gl_multi_tex_coord3fv = 0x5bb

abbrev pub gl_multi_tex_coord3fv_arb : ℕ
gl_multi_tex_coord3fv_arb = 0x5bc

abbrev pub gl_multi_tex_coord3iv : ℕ
gl_multi_tex_coord3iv = 0x5c1

abbrev pub gl_multi_tex_coord3iv_arb : ℕ
gl_multi_tex_coord3iv_arb = 0x5c2

abbrev pub gl_multi_tex_coord3sv : ℕ
gl_multi_tex_coord3sv = 0x5c5

abbrev pub gl_multi_tex_coord3sv_arb : ℕ
gl_multi_tex_coord3sv_arb = 0x5c6

abbrev pub gl_multi_tex_coord4dv : ℕ
gl_multi_tex_coord4dv = 0x5cd

abbrev pub gl_multi_tex_coord4dv_arb : ℕ
gl_multi_tex_coord4dv_arb = 0x5ce

abbrev pub gl_multi_tex_coord4fv : ℕ
gl_multi_tex_coord4fv = 0x5d1
