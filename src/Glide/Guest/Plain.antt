-- ===== src/Glide/Guest/Plain.antt =====
-- glidedll.c: the wrappers that only hand their arguments on.
mod First
mod Second
use qemu_win.Prelude.{List, ◌++◌}
use qemu_win.Glide.Guest.Ops.{Plain}
use First.*
use Second.*

unfoldable pub plain_wrappers : List Plain
unfolding from_gr_alpha_blend_function from_gr_check_for_room from_gr_error_set_callback
    from_gr_gamma_correction_value from_gr_glide_set_state from_gr_hints from_gr_lfb_unlock
    from_gr_render_buffer from_gr_sst_reset_perf_stats from_gr_tex_calc_mem_required
    from_gr_tex_filter_mode from_gu_alpha_source from_gu_encode_rle16 from_gu_mpdraw_triangle
    from_gu_tex_change_attributes from_gu_tex_get_current_mip_map from_gu_tex_source
plain_wrappers =
    from_gr_alpha_blend_function
    ++ (from_gr_check_for_room
        ++ (from_gr_error_set_callback
            ++ (from_gr_gamma_correction_value
                ++ (from_gr_glide_set_state
                    ++ (from_gr_hints
                        ++ (from_gr_lfb_unlock
                            ++ (from_gr_render_buffer
                                ++ (from_gr_sst_reset_perf_stats
                                    ++ (from_gr_tex_calc_mem_required
                                        ++ (from_gr_tex_filter_mode
                                            ++ (from_gu_alpha_source
                                                ++ (from_gu_encode_rle16
                                                    ++ (from_gu_mpdraw_triangle
                                                        ++ (from_gu_tex_change_attributes
                                                            ++ (from_gu_tex_get_current_mip_map
                                                            ++ from_gu_tex_source)))))))))))))))
