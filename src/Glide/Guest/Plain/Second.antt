-- ===== src/Glide/Guest/Plain/Second.antt =====
-- glidedll.c: the wrappers that only hand their arguments on, in runs as they stand in the file, the
-- second half.
use qemu_win.Prelude.{List, [], ◌∷◌}
use qemu_win.Glide.FEnum
use qemu_win.Glide.Guest.Ops.{Plain, queued, direct}

unfoldable pub from_gr_tex_filter_mode : List Plain
from_gr_tex_filter_mode =
    queued FEnum.gr_tex_filter_mode 3
    ∷ queued FEnum.gr_tex_lod_bias_value 2
    ∷ direct FEnum.gr_tex_max_address 1
    ∷ direct FEnum.gr_tex_min_address 1
    ∷ queued FEnum.gr_tex_mip_map_mode 3
    ∷ direct FEnum.gr_tex_multibase 2
    ∷ direct FEnum.gr_tex_multibase_address 5
    ∷ queued FEnum.gr_tex_ncctable 2
    ∷ []

unfoldable pub from_gu_alpha_source : List Plain
from_gu_alpha_source =
    queued FEnum.gu_alpha_source 1 ∷ queued FEnum.gu_color_combine_function 1 ∷ []

unfoldable pub from_gu_encode_rle16 : List Plain
from_gu_encode_rle16 =
    direct FEnum.gu_encode_rle16 4
    ∷ direct FEnum.gu_endian_swap_bytes 1
    ∷ direct FEnum.gu_endian_swap_words 1
    ∷ []

unfoldable pub from_gu_mpdraw_triangle : List Plain
from_gu_mpdraw_triangle =
    direct FEnum.gu_mpdraw_triangle 3
    ∷ direct FEnum.gu_mpinit 0
    ∷ direct FEnum.gu_mptex_combine_function 1
    ∷ direct FEnum.gu_mptex_source 2
    ∷ direct FEnum.gu_movie_set_name 1
    ∷ direct FEnum.gu_movie_start 0
    ∷ direct FEnum.gu_movie_stop 0
    ∷ []

unfoldable pub from_gu_tex_change_attributes : List Plain
from_gu_tex_change_attributes =
    direct FEnum.gu_tex_change_attributes 12
    ∷ queued FEnum.gu_tex_combine_function 2
    ∷ direct FEnum.gu_tex_create_color_mip_map 0
    ∷ []

unfoldable pub from_gu_tex_get_current_mip_map : List Plain
from_gu_tex_get_current_mip_map =
    direct FEnum.gu_tex_get_current_mip_map 1
    ∷ direct FEnum.gu_tex_get_mip_map_info 1
    ∷ direct FEnum.gu_tex_mem_query_avail 1
    ∷ []

unfoldable pub from_gu_tex_source : List Plain
from_gu_tex_source = queued FEnum.gu_tex_source 1 ∷ []
