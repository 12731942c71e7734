-- ===== src/Glide/FEnum/Rest.antt =====
-- g2xfuncs.h: the numbers of the Glide functions that the host only passes on, the second half.
use qemu_win.Prelude.{ℕ}

abbrev pub gr_sst_screen_height : ℕ
gr_sst_screen_height = 0x44

abbrev pub gr_sst_screen_width : ℕ
gr_sst_screen_width = 0x45

abbrev pub gr_sst_status : ℕ
gr_sst_status = 0x47

abbrev pub gr_sst_vretrace_on : ℕ
gr_sst_vretrace_on = 0x48

abbrev pub gr_sst_vid_mode : ℕ
gr_sst_vid_mode = 0x49

abbrev pub gr_sst_video_line : ℕ
gr_sst_video_line = 0x4a

abbrev pub gr_tex_calc_mem_required : ℕ
gr_tex_calc_mem_required = 0x4d

abbrev pub gr_tex_clamp_mode : ℕ
gr_tex_clamp_mode = 0x4e

abbrev pub gr_tex_combine : ℕ
gr_tex_combine = 0x4f

abbrev pub gr_tex_combine_function : ℕ
gr_tex_combine_function = 0x50

abbrev pub gr_tex_filter_mode : ℕ
gr_tex_filter_mode = 0x57

abbrev pub gr_tex_max_address : ℕ
gr_tex_max_address = 0x59

abbrev pub gr_tex_min_address : ℕ
gr_tex_min_address = 0x5a

abbrev pub gr_tex_mip_map_mode : ℕ
gr_tex_mip_map_mode = 0x5b

abbrev pub gr_tex_multibase : ℕ
gr_tex_multibase = 0x5c

abbrev pub gr_tex_multibase_address : ℕ
gr_tex_multibase_address = 0x5d

abbrev pub gr_tex_ncctable : ℕ
gr_tex_ncctable = 0x5e

abbrev pub gu_alpha_source : ℕ
gu_alpha_source = 0x65

abbrev pub gu_color_combine_function : ℕ
gu_color_combine_function = 0x66

abbrev pub gu_encode_rle16 : ℕ
gu_encode_rle16 = 0x69

abbrev pub gu_endian_swap_bytes : ℕ
gu_endian_swap_bytes = 0x6a

abbrev pub gu_endian_swap_words : ℕ
gu_endian_swap_words = 0x6b

abbrev pub gu_mpdraw_triangle : ℕ
gu_mpdraw_triangle = 0x70

abbrev pub gu_mpinit : ℕ
gu_mpinit = 0x71

abbrev pub gu_mptex_combine_function : ℕ
gu_mptex_combine_function = 0x72

abbrev pub gu_mptex_source : ℕ
gu_mptex_source = 0x73

abbrev pub gu_movie_set_name : ℕ
gu_movie_set_name = 0x74

abbrev pub gu_movie_start : ℕ
gu_movie_start = 0x75

abbrev pub gu_movie_stop : ℕ
gu_movie_stop = 0x76

abbrev pub gu_tex_change_attributes : ℕ
gu_tex_change_attributes = 0x78

abbrev pub gu_tex_combine_function : ℕ
gu_tex_combine_function = 0x79

abbrev pub gu_tex_create_color_mip_map : ℕ
gu_tex_create_color_mip_map = 0x7a

abbrev pub gu_tex_get_current_mip_map : ℕ
gu_tex_get_current_mip_map = 0x7d

abbrev pub gu_tex_get_mip_map_info : ℕ
gu_tex_get_mip_map_info = 0x7e

abbrev pub gu_tex_mem_query_avail : ℕ
gu_tex_mem_query_avail = 0x7f

abbrev pub gu_tex_mem_reset : ℕ
gu_tex_mem_reset = 0x80

abbrev pub gu_tex_source : ℕ
gu_tex_source = 0x81

abbrev pub gr_disable : ℕ
gr_disable = 0x90

abbrev pub gr_enable : ℕ
gr_enable = 0x93

abbrev pub gr_reset : ℕ
gr_reset = 0x9e

abbrev pub gr_vertex_layout : ℕ
gr_vertex_layout = 0xa4
