-- ===== src/Glide/FEnum/Upper.antt =====
-- g2xfuncs.h: the numbers of the Glide functions that the host treats specially, the second half.
use qemu_win.Prelude.{ℕ}

abbrev pub gr_tex_texture_mem_required : ℕ
gr_tex_texture_mem_required = 0x60

abbrev pub gr_tri_stats : ℕ
gr_tri_stats = 0x61

abbrev pub gu3df_get_info : ℕ
gu3df_get_info = 0x62

abbrev pub gu3df_load : ℕ
gu3df_load = 0x63

abbrev pub gu_aadraw_triangle_with_clip : ℕ
gu_aadraw_triangle_with_clip = 0x64

abbrev pub gu_draw_polygon_vertex_list_with_clip : ℕ
gu_draw_polygon_vertex_list_with_clip = 0x67

abbrev pub gu_draw_triangle_with_clip : ℕ
gu_draw_triangle_with_clip = 0x68

abbrev pub gu_fog_generate_exp2 : ℕ
gu_fog_generate_exp2 = 0x6c

abbrev pub gu_fog_generate_exp : ℕ
gu_fog_generate_exp = 0x6d

abbrev pub gu_fog_generate_linear : ℕ
gu_fog_generate_linear = 0x6e

abbrev pub gu_fog_table_index_to_w : ℕ
gu_fog_table_index_to_w = 0x6f

abbrev pub gu_tex_allocate_memory : ℕ
gu_tex_allocate_memory = 0x77

abbrev pub gu_tex_download_mip_map : ℕ
gu_tex_download_mip_map = 0x7b

abbrev pub gu_tex_download_mip_map_level : ℕ
gu_tex_download_mip_map_level = 0x7c

abbrev pub gr_lfb_begin : ℕ
gr_lfb_begin = 0x82

abbrev pub gr_lfb_bypass_mode : ℕ
gr_lfb_bypass_mode = 0x83

abbrev pub gr_lfb_end : ℕ
gr_lfb_end = 0x84

abbrev pub gr_lfb_get_read_ptr : ℕ
gr_lfb_get_read_ptr = 0x85

abbrev pub gr_lfb_get_write_ptr : ℕ
gr_lfb_get_write_ptr = 0x86

abbrev pub gr_lfb_origin : ℕ
gr_lfb_origin = 0x87

abbrev pub gr_lfb_write_mode : ℕ
gr_lfb_write_mode = 0x88

abbrev pub gr_sst_open : ℕ
gr_sst_open = 0x89

abbrev pub gr_sst_passthru_mode : ℕ
gr_sst_passthru_mode = 0x8a

abbrev pub gu_fb_read_region : ℕ
gu_fb_read_region = 0x8b

abbrev pub gu_fb_write_region : ℕ
gu_fb_write_region = 0x8c

abbrev pub gr_splash0 : ℕ
gr_splash0 = 0x8d

abbrev pub gr_depth_range : ℕ
gr_depth_range = 0x8f

abbrev pub gr_draw_vertex_array : ℕ
gr_draw_vertex_array = 0x91

abbrev pub gr_draw_vertex_array_contiguous : ℕ
gr_draw_vertex_array_contiguous = 0x92

abbrev pub gr_get : ℕ
gr_get = 0x96

abbrev pub gr_glide_get_vertex_layout : ℕ
gr_glide_get_vertex_layout = 0x99

abbrev pub gr_glide_set_vertex_layout : ℕ
gr_glide_set_vertex_layout = 0x9a

abbrev pub gr_lfb_write_region3x : ℕ
gr_lfb_write_region3x = 0x9b

abbrev pub gr_load_gamma_table : ℕ
gr_load_gamma_table = 0x9c

abbrev pub gr_query_resolutions : ℕ
gr_query_resolutions = 0x9d

abbrev pub gr_sst_win_close3x : ℕ
gr_sst_win_close3x = 0xa0

abbrev pub gr_tex_download_table3x : ℕ
gr_tex_download_table3x = 0xa1

abbrev pub gr_tex_download_table_partial3x : ℕ
gr_tex_download_table_partial3x = 0xa2

abbrev pub gu_gamma_correction_rgb : ℕ
gu_gamma_correction_rgb = 0xa6

abbrev pub gr_get_gamma_table_ext : ℕ
gr_get_gamma_table_ext = 0xa7

abbrev pub gr_sst_win_open_ext : ℕ
gr_sst_win_open_ext = 0xbc
