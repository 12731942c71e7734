-- ===== src/Mesa/FEnum/PartA.antt =====
-- mglfunci.h: FEnum_glX is gl_x here; glBindAttribLocation to glEdgeFlagv.
use qemu_win.Prelude.{ℕ}

abbrev pub gl_bind_attrib_location : ℕ
gl_bind_attrib_location = 0x02a

abbrev pub gl_bind_attrib_location_arb : ℕ
gl_bind_attrib_location_arb = 0x02b

abbrev pub gl_bind_frag_data_location : ℕ
gl_bind_frag_data_location = 0x038

abbrev pub gl_bind_frag_data_location_ext : ℕ
gl_bind_frag_data_location_ext = 0x039

abbrev pub gl_bind_frag_data_location_indexed : ℕ
gl_bind_frag_data_location_indexed = 0x03a

abbrev pub gl_bind_image_textures : ℕ
gl_bind_image_textures = 0x040

abbrev pub gl_bind_samplers : ℕ
gl_bind_samplers = 0x04b

abbrev pub gl_call_lists : ℕ
gl_call_lists = 0x093

abbrev pub gl_clear_bufferfv : ℕ
gl_clear_bufferfv = 0x09f

abbrev pub gl_clear_bufferiv : ℕ
gl_clear_bufferiv = 0x0a0

abbrev pub gl_clear_bufferuiv : ℕ
gl_clear_bufferuiv = 0x0a2

abbrev pub gl_clip_plane : ℕ
gl_clip_plane = 0x0be

abbrev pub gl_color3bv : ℕ
gl_color3bv = 0x0c2

abbrev pub gl_color3dv : ℕ
gl_color3dv = 0x0c4

abbrev pub gl_color3fv : ℕ
gl_color3fv = 0x0c6

abbrev pub gl_color3iv : ℕ
gl_color3iv = 0x0cc

abbrev pub gl_color3sv : ℕ
gl_color3sv = 0x0ce

abbrev pub gl_color3ubv : ℕ
gl_color3ubv = 0x0d0

abbrev pub gl_color3uiv : ℕ
gl_color3uiv = 0x0d2

abbrev pub gl_color3usv : ℕ
gl_color3usv = 0x0d4

abbrev pub gl_color4bv : ℕ
gl_color4bv = 0x0d8

abbrev pub gl_color4dv : ℕ
gl_color4dv = 0x0da

abbrev pub gl_color4fv : ℕ
gl_color4fv = 0x0de

abbrev pub gl_color4iv : ℕ
gl_color4iv = 0x0e2

abbrev pub gl_color4sv : ℕ
gl_color4sv = 0x0e4

abbrev pub gl_color4ubv : ℕ
gl_color4ubv = 0x0e6

abbrev pub gl_color4uiv : ℕ
gl_color4uiv = 0x0ec

abbrev pub gl_color4usv : ℕ
gl_color4usv = 0x0ee

abbrev pub gl_color_sub_table : ℕ
gl_color_sub_table = 0x101

abbrev pub gl_color_sub_table_ext : ℕ
gl_color_sub_table_ext = 0x102

abbrev pub gl_color_table : ℕ
gl_color_table = 0x103

abbrev pub gl_color_table_ext : ℕ
gl_color_table_ext = 0x104

abbrev pub gl_combiner_parameterfv_nv : ℕ
gl_combiner_parameterfv_nv = 0x10d

abbrev pub gl_combiner_parameteriv_nv : ℕ
gl_combiner_parameteriv_nv = 0x10f

abbrev pub gl_combiner_stage_parameterfv_nv : ℕ
gl_combiner_stage_parameterfv_nv = 0x110

abbrev pub gl_delete_buffers : ℕ
gl_delete_buffers = 0x191

abbrev pub gl_delete_buffers_arb : ℕ
gl_delete_buffers_arb = 0x192

abbrev pub gl_delete_fences_apple : ℕ
gl_delete_fences_apple = 0x194

abbrev pub gl_delete_fences_nv : ℕ
gl_delete_fences_nv = 0x195

abbrev pub gl_delete_framebuffers : ℕ
gl_delete_framebuffers = 0x197

abbrev pub gl_delete_framebuffers_ext : ℕ
gl_delete_framebuffers_ext = 0x198

abbrev pub gl_delete_occlusion_queries_nv : ℕ
gl_delete_occlusion_queries_nv = 0x19e

abbrev pub gl_delete_programs_arb : ℕ
gl_delete_programs_arb = 0x1a4

abbrev pub gl_delete_programs_nv : ℕ
gl_delete_programs_nv = 0x1a5

abbrev pub gl_delete_queries : ℕ
gl_delete_queries = 0x1a6

abbrev pub gl_delete_queries_arb : ℕ
gl_delete_queries_arb = 0x1a7

abbrev pub gl_delete_renderbuffers : ℕ
gl_delete_renderbuffers = 0x1a9

abbrev pub gl_delete_renderbuffers_ext : ℕ
gl_delete_renderbuffers_ext = 0x1aa

abbrev pub gl_delete_samplers : ℕ
gl_delete_samplers = 0x1ab

abbrev pub gl_delete_textures : ℕ
gl_delete_textures = 0x1b0

abbrev pub gl_delete_textures_ext : ℕ
gl_delete_textures_ext = 0x1b1

abbrev pub gl_delete_vertex_arrays : ℕ
gl_delete_vertex_arrays = 0x1b4

abbrev pub gl_depth_range_arrayv : ℕ
gl_depth_range_arrayv = 0x1bc

abbrev pub gl_draw_buffers : ℕ
gl_draw_buffers = 0x1dd

abbrev pub gl_draw_buffers_arb : ℕ
gl_draw_buffers_arb = 0x1de

abbrev pub gl_edge_flagv : ℕ
gl_edge_flagv = 0x204
