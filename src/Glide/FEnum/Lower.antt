-- ===== src/Glide/FEnum/Lower.antt =====
-- g2xfuncs.h: the numbers of the Glide functions that the host treats specially, the first half.
use qemu_win.Prelude.{ℕ}

abbrev pub gr_aadraw_line : ℕ
gr_aadraw_line = 0x01

abbrev pub gr_aadraw_point : ℕ
gr_aadraw_point = 0x02

abbrev pub gr_aadraw_polygon : ℕ
gr_aadraw_polygon = 0x03

abbrev pub gr_aadraw_polygon_vertex_list : ℕ
gr_aadraw_polygon_vertex_list = 0x04

abbrev pub gr_aadraw_triangle : ℕ
gr_aadraw_triangle = 0x05

abbrev pub gr_buffer_swap : ℕ
gr_buffer_swap = 0x0d

abbrev pub gr_constant_color_value4 : ℕ
gr_constant_color_value4 = 0x14

abbrev pub gr_draw_line : ℕ
gr_draw_line = 0x1d

abbrev pub gr_draw_planar_polygon : ℕ
gr_draw_planar_polygon = 0x1e

abbrev pub gr_draw_planar_polygon_vertex_list : ℕ
gr_draw_planar_polygon_vertex_list = 0x1f

abbrev pub gr_draw_point : ℕ
gr_draw_point = 0x20

abbrev pub gr_draw_polygon : ℕ
gr_draw_polygon = 0x21

abbrev pub gr_draw_polygon_vertex_list : ℕ
gr_draw_polygon_vertex_list = 0x22

abbrev pub gr_draw_triangle : ℕ
gr_draw_triangle = 0x23

abbrev pub gr_fog_table : ℕ
gr_fog_table = 0x27

abbrev pub gr_gamma_correction_value : ℕ
gr_gamma_correction_value = 0x28

abbrev pub gr_glide_get_state : ℕ
gr_glide_get_state = 0x29

abbrev pub gr_glide_get_version : ℕ
gr_glide_get_version = 0x2a

abbrev pub gr_glide_init : ℕ
gr_glide_init = 0x2b

abbrev pub gr_glide_set_state : ℕ
gr_glide_set_state = 0x2c

abbrev pub gr_glide_shutdown : ℕ
gr_glide_shutdown = 0x2e

abbrev pub gr_lfb_lock : ℕ
gr_lfb_lock = 0x32

abbrev pub gr_lfb_read_region : ℕ
gr_lfb_read_region = 0x33

abbrev pub gr_lfb_unlock : ℕ
gr_lfb_unlock = 0x34

abbrev pub gr_lfb_write_region : ℕ
gr_lfb_write_region = 0x37

abbrev pub gr_splash : ℕ
gr_splash = 0x3a

abbrev pub gr_sst_control : ℕ
gr_sst_control = 0x3c

abbrev pub gr_sst_perf_stats : ℕ
gr_sst_perf_stats = 0x40

abbrev pub gr_sst_query_boards : ℕ
gr_sst_query_boards = 0x41

abbrev pub gr_sst_query_hardware : ℕ
gr_sst_query_hardware = 0x42

abbrev pub gr_sst_select : ℕ
gr_sst_select = 0x46

abbrev pub gr_sst_win_close : ℕ
gr_sst_win_close = 0x4b

abbrev pub gr_sst_win_open : ℕ
gr_sst_win_open = 0x4c

abbrev pub gr_tex_detail_control : ℕ
gr_tex_detail_control = 0x51

abbrev pub gr_tex_download_mip_map : ℕ
gr_tex_download_mip_map = 0x52

abbrev pub gr_tex_download_mip_map_level : ℕ
gr_tex_download_mip_map_level = 0x53

abbrev pub gr_tex_download_mip_map_level_partial : ℕ
gr_tex_download_mip_map_level_partial = 0x54

abbrev pub gr_tex_download_table : ℕ
gr_tex_download_table = 0x55

abbrev pub gr_tex_download_table_partial : ℕ
gr_tex_download_table_partial = 0x56

abbrev pub gr_tex_lod_bias_value : ℕ
gr_tex_lod_bias_value = 0x58

abbrev pub gr_tex_source : ℕ
gr_tex_source = 0x5f
