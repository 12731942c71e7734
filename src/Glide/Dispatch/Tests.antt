-- ===== src/Glide/Dispatch/Tests.antt =====
-- Runs of the argument counts and of doGlideFunc.
use qemu_win.Prelude.{ℕ, ◌≤◌, ◌≡◌, refl, true, false, ◌&&◌, ◌||◌, some, [], ◌∷◌, arith, is_in}
use qemu_win.Glide.FEnum.{
  gr_get, gr_glide_init, gr_draw_line, gr_tex_download_mip_map, gr_tex_source, gu_fb_read_region,
}
use qemu_win.Glide.Symbols.{get_num_args, sym, grf_enum_args_cnt}
use qemu_win.Glide.Symbols.Laws.{grf_enum_args_cnt_le}
use qemu_win.Glide.Dispatch.Forms.{parg}
use qemu_win.Glide.Dispatch.{gate, library_calls, early_calls, do_glide_func}
use qemu_win.Glide.Dispatch.Laws.{counts, named_counts, library_calls_named}
use qemu_win.Glide.Dispatch.Gate.{is_open, is_provided, post_init_after, gate_history}

get_args : get_num_args "_grGet@12" ≡ some 3
unfolding get_num_args
get_args = refl

download_args : grf_enum_args_cnt gr_tex_download_mip_map ≡ some 5
unfolding grf_enum_args_cnt
download_args = refl

grf_enum_args_cnt_le_example :
    (n : ℕ) × (grf_enum_args_cnt gr_tex_download_mip_map ≡ some n) × (n ≤ 22)
grf_enum_args_cnt_le_example = grf_enum_args_cnt_le gr_tex_download_mip_map (omega arith)

library_calls_named_example :
    counts (library_calls false false gr_tex_source)
    ≡ named_counts gr_tex_source (get_num_args (sym gr_tex_source))
library_calls_named_example = library_calls_named gr_tex_source (omega arith)

-- the second call of guFbReadRegion gets the guest's address as its fifth argument
fb_read_twice : counts (library_calls false false gu_fb_read_region) ≡ 6 ∷ 6 ∷ []
unfolding counts library_calls
fb_read_twice = refl

-- a library that has every function
abbrev everything : ℕ → ℕ
everything f = 0x1000

gate_history_example :
    (gate everything false
      (post_init_after everything false (gr_get ∷ gr_glide_init ∷ []))
      gr_draw_line).1
    ≡ ((is_open (gr_get ∷ gr_glide_init ∷ []) || is_in early_calls gr_draw_line)
        && is_provided everything false gr_draw_line)
gate_history_example = gate_history everything false (gr_get ∷ gr_glide_init ∷ []) gr_draw_line

draw_line_open :
    do_glide_func everything false true gr_draw_line 7 ≡ (true, (parg 0 ∷ parg 1 ∷ []) ∷ [], 7)
unfolding do_glide_func
draw_line_open = refl

draw_line_shut : do_glide_func everything false false gr_draw_line 7 ≡ (false, [], 7)
unfolding do_glide_func
draw_line_shut = refl
