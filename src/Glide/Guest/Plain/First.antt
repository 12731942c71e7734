-- ===== src/Glide/Guest/Plain/First.antt =====
-- glidedll.c: the wrappers that only hand their arguments on, in runs as they stand in the file, the
-- first half.
use qemu_win.Prelude.{List, [], ◌∷◌}
use qemu_win.Glide.FEnum
use qemu_win.Glide.Guest.Ops.{Plain, queued, direct}

unfoldable pub from_gr_alpha_blend_function : List Plain
from_gr_alpha_blend_function =
    queued FEnum.gr_alpha_blend_function 4
    ∷ queued FEnum.gr_alpha_combine 5
    ∷ queued FEnum.gr_alpha_controls_itrgblighting 1
    ∷ queued FEnum.gr_alpha_test_function 1
    ∷ queued FEnum.gr_alpha_test_reference_value 1
    ∷ queued FEnum.gr_buffer_clear 3
    ∷ direct FEnum.gr_buffer_num_pending 0
    ∷ []

unfoldable pub from_gr_check_for_room : List Plain
from_gr_check_for_room =
    direct FEnum.gr_check_for_room 1
    ∷ queued FEnum.gr_chromakey_mode 1
    ∷ queued FEnum.gr_chromakey_value 1
    ∷ queued FEnum.gr_clip_window 4
    ∷ queued FEnum.gr_color_combine 5
    ∷ queued FEnum.gr_color_mask 2
    ∷ queued FEnum.gr_constant_color_value4 4
    ∷ queued FEnum.gr_constant_color_value 1
    ∷ queued FEnum.gr_cull_mode 1
    ∷ queued FEnum.gr_depth_bias_level 1
    ∷ queued FEnum.gr_depth_buffer_function 1
    ∷ queued FEnum.gr_depth_buffer_mode 1
    ∷ queued FEnum.gr_depth_mask 1
    ∷ queued FEnum.gr_disable_all_effects 0
    ∷ queued FEnum.gr_dither_mode 1
    ∷ []

unfoldable pub from_gr_error_set_callback : List Plain
from_gr_error_set_callback =
    direct FEnum.gr_error_set_callback 1
    ∷ queued FEnum.gr_fog_color_value 1
    ∷ queued FEnum.gr_fog_mode 1
    ∷ []

unfoldable pub from_gr_gamma_correction_value : List Plain
from_gr_gamma_correction_value =
    queued FEnum.gr_gamma_correction_value 1 ∷ direct FEnum.gr_glide_get_state 1 ∷ []

unfoldable pub from_gr_glide_set_state : List Plain
from_gr_glide_set_state =
    direct FEnum.gr_glide_set_state 1 ∷ direct FEnum.gr_glide_shameless_plug 1 ∷ []

unfoldable pub from_gr_hints : List Plain
from_gr_hints =
    queued FEnum.gr_hints 2
    ∷ queued FEnum.gr_lfb_constant_alpha 1
    ∷ queued FEnum.gr_lfb_constant_depth 1
    ∷ []

unfoldable pub from_gr_lfb_unlock : List Plain
from_gr_lfb_unlock =
    direct FEnum.gr_lfb_unlock 2
    ∷ direct FEnum.gr_lfb_write_color_format 1
    ∷ direct FEnum.gr_lfb_write_color_swizzle 2
    ∷ []

unfoldable pub from_gr_render_buffer : List Plain
from_gr_render_buffer =
    queued FEnum.gr_render_buffer 1
    ∷ direct FEnum.gr_reset_tri_stats 0
    ∷ direct FEnum.gr_splash 5
    ∷ direct FEnum.gr_sst_config_pipeline 3
    ∷ direct FEnum.gr_sst_control 1
    ∷ direct FEnum.gr_sst_idle 0
    ∷ direct FEnum.gr_sst_is_busy 0
    ∷ direct FEnum.gr_sst_origin 1
    ∷ []

unfoldable pub from_gr_sst_reset_perf_stats : List Plain
from_gr_sst_reset_perf_stats =
    direct FEnum.gr_sst_reset_perf_stats 0
    ∷ direct FEnum.gr_sst_screen_height 0
    ∷ direct FEnum.gr_sst_screen_width 0
    ∷ direct FEnum.gr_sst_select 1
    ∷ direct FEnum.gr_sst_status 0
    ∷ direct FEnum.gr_sst_vretrace_on 0
    ∷ direct FEnum.gr_sst_vid_mode 2
    ∷ direct FEnum.gr_sst_video_line 0
    ∷ []

unfoldable pub from_gr_tex_calc_mem_required : List Plain
from_gr_tex_calc_mem_required =
    direct FEnum.gr_tex_calc_mem_required 4
    ∷ queued FEnum.gr_tex_clamp_mode 3
    ∷ queued FEnum.gr_tex_combine 7
    ∷ queued FEnum.gr_tex_combine_function 2
    ∷ queued FEnum.gr_tex_detail_control 4
    ∷ []
