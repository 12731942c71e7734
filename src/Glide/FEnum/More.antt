-- ===== src/Glide/FEnum/More.antt =====
-- g2xfuncs.h: the numbers of the Glide functions that the host only passes on, the first half.
use qemu_win.Prelude.{ℕ}

abbrev pub gr_alpha_blend_function : ℕ
gr_alpha_blend_function = 0x06

abbrev pub gr_alpha_combine : ℕ
gr_alpha_combine = 0x07

abbrev pub gr_alpha_controls_itrgblighting : ℕ
gr_alpha_controls_itrgblighting = 0x08

abbrev pub gr_alpha_test_function : ℕ
gr_alpha_test_function = 0x09

abbrev pub gr_alpha_test_reference_value : ℕ
gr_alpha_test_reference_value = 0x0a

abbrev pub gr_buffer_clear : ℕ
gr_buffer_clear = 0x0b

abbrev pub gr_buffer_num_pending : ℕ
gr_buffer_num_pending = 0x0c

abbrev pub gr_check_for_room : ℕ
gr_check_for_room = 0x0e

abbrev pub gr_chromakey_mode : ℕ
gr_chromakey_mode = 0x0f

abbrev pub gr_chromakey_value : ℕ
gr_chromakey_value = 0x10

abbrev pub gr_clip_window : ℕ
gr_clip_window = 0x11

abbrev pub gr_color_combine : ℕ
gr_color_combine = 0x12

abbrev pub gr_color_mask : ℕ
gr_color_mask = 0x13

abbrev pub gr_constant_color_value : ℕ
gr_constant_color_value = 0x15

abbrev pub gr_cull_mode : ℕ
gr_cull_mode = 0x16

abbrev pub gr_depth_bias_level : ℕ
gr_depth_bias_level = 0x17

abbrev pub gr_depth_buffer_function : ℕ
gr_depth_buffer_function = 0x18

abbrev pub gr_depth_buffer_mode : ℕ
gr_depth_buffer_mode = 0x19

abbrev pub gr_depth_mask : ℕ
gr_depth_mask = 0x1a

abbrev pub gr_disable_all_effects : ℕ
gr_disable_all_effects = 0x1b

abbrev pub gr_dither_mode : ℕ
gr_dither_mode = 0x1c

abbrev pub gr_error_set_callback : ℕ
gr_error_set_callback = 0x24

abbrev pub gr_fog_color_value : ℕ
gr_fog_color_value = 0x25

abbrev pub gr_fog_mode : ℕ
gr_fog_mode = 0x26

abbrev pub gr_glide_shameless_plug : ℕ
gr_glide_shameless_plug = 0x2d

abbrev pub gr_hints : ℕ
gr_hints = 0x2f

abbrev pub gr_lfb_constant_alpha : ℕ
gr_lfb_constant_alpha = 0x30

abbrev pub gr_lfb_constant_depth : ℕ
gr_lfb_constant_depth = 0x31

abbrev pub gr_lfb_write_color_format : ℕ
gr_lfb_write_color_format = 0x35

abbrev pub gr_lfb_write_color_swizzle : ℕ
gr_lfb_write_color_swizzle = 0x36

abbrev pub gr_render_buffer : ℕ
gr_render_buffer = 0x38

abbrev pub gr_reset_tri_stats : ℕ
gr_reset_tri_stats = 0x39

abbrev pub gr_sst_config_pipeline : ℕ
gr_sst_config_pipeline = 0x3b

abbrev pub gr_sst_idle : ℕ
gr_sst_idle = 0x3d

abbrev pub gr_sst_is_busy : ℕ
gr_sst_is_busy = 0x3e

abbrev pub gr_sst_origin : ℕ
gr_sst_origin = 0x3f

abbrev pub gr_sst_reset_perf_stats : ℕ
gr_sst_reset_perf_stats = 0x43
