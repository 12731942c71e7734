-- ===== src/Glide/Guest/Rows.antt =====
-- The table of all the wrappers of GLIDE2X.DLL.
use qemu_win.Prelude.{ℕ, ◌+◌, ◌*◌, List, [], ◌∷◌, ◌++◌, u32}
use qemu_win.Glide.Guest.Ops.{Args, Env, Wrapper, Plain, plain}
use qemu_win.Glide.Guest.Plain.{plain_wrappers}
use qemu_win.Glide.Guest.Draw
use qemu_win.Glide.Guest.Tex
use qemu_win.Glide.Guest.System

-- a wrapper, with the bytes that it sends when their number depends on the arguments
pub record Row : Type 0 where
  pub run : Wrapper
  pub size : Env → Args → ℕ

abbrev pub row : Wrapper → (Env → Args → ℕ) → Row
row f n = record { run = f; size = n }

abbrev pub plain_row : Plain → Row
plain_row p = row (plain p) (λ env a. 0)

abbrev pub plain_rows : List Plain → List Row
plain_rows [] = []
plain_rows (p ∷ ps) = plain_row p ∷ plain_rows ps

unfoldable pub draw_rows : List Row
draw_rows =
    row Draw.gr_aadraw_line (λ env a. 0)
    ∷ row Draw.gr_aadraw_point (λ env a. 0)
    ∷ row Draw.gr_aadraw_triangle (λ env a. 0)
    ∷ row Draw.gr_draw_line (λ env a. 0)
    ∷ row Draw.gr_draw_point (λ env a. 0)
    ∷ row Draw.gr_draw_triangle (λ env a. 0)
    ∷ row Draw.gu_aadraw_triangle_with_clip (λ env a. 0)
    ∷ row Draw.gu_draw_triangle_with_clip (λ env a. 0)
    ∷ row Draw.gr_aadraw_polygon_vertex_list (λ env a. a 0 * 60)
    ∷ row Draw.gr_draw_planar_polygon_vertex_list (λ env a. a 0 * 60)
    ∷ row Draw.gr_draw_polygon_vertex_list (λ env a. a 0 * 60)
    ∷ row Draw.gu_draw_polygon_vertex_list_with_clip (λ env a. a 0 * 60)
    ∷ row Draw.gr_aadraw_polygon (λ env a. a 0 * 68)
    ∷ row Draw.gr_draw_planar_polygon (λ env a. a 0 * 68)
    ∷ row Draw.gr_draw_polygon (λ env a. a 0 * 68)
    ∷ []

unfoldable pub tex_rows : List Row
tex_rows =
    row Tex.gr_tex_texture_mem_required (λ env a. 0)
    ∷ row Tex.gr_tex_source (λ env a. 0)
    ∷ row Tex.gr_tex_download_mip_map (λ env a. env.mem_required)
    ∷ row Tex.gr_tex_download_mip_map_level (λ env a. env.mem_required)
    ∷ row Tex.gr_tex_download_mip_map_level_partial (λ env a. Tex.tex_bytes a)
    ∷ row Tex.gr_tex_download_table (λ env a. 0)
    ∷ row Tex.gr_tex_download_table_partial (λ env a. (a 4 + 1) * 4)
    ∷ row Tex.gr_fog_table (λ env a. 0)
    ∷ row Tex.gu_fog_generate_exp2 (λ env a. 0)
    ∷ row Tex.gu_fog_generate_exp (λ env a. 0)
    ∷ row Tex.gu_fog_generate_linear (λ env a. 0)
    ∷ row Tex.gu_tex_download_mip_map (λ env a. env.mem_required)
    ∷ row Tex.gu_tex_download_mip_map_level (λ env a. env.mem_required)
    ∷ row (λ g env a. (Tex.gu_tex_allocate_memory g env a).0) (λ env a. 0)
    ∷ row (λ g env a. (Tex.gu_tex_mem_reset g env a).0) (λ env a. 0)
    ∷ []

unfoldable pub system_rows : List Row
system_rows =
    row System.gr_buffer_swap (λ env a. 0)
    ∷ row System.gr_glide_get_version (λ env a. 0)
    ∷ row System.gr_lfb_lock (λ env a. 0)
    ∷ row System.gr_lfb_read_region (λ env a. 0)
    ∷ row System.gr_lfb_write_region (λ env a. u32 (a 5 * a 6))
    ∷ row System.gr_sst_perf_stats (λ env a. 0)
    ∷ row System.gr_sst_query_boards (λ env a. 0)
    ∷ row System.gr_sst_query_hardware (λ env a. 0)
    ∷ row System.gr_tri_stats (λ env a. 0)
    ∷ row System.gu3df_get_info (λ env a. 0)
    ∷ row System.gu3df_load (λ env a. 0)
    ∷ row System.gu_fog_table_index_to_w (λ env a. 0)
    ∷ row (λ g env a. (System.gr_glide_init g env).0) (λ env a. 0)
    ∷ row (λ g env a. (System.gr_glide_shutdown g).0) (λ env a. 0)
    ∷ row (λ g env a. (System.gr_sst_win_close g).0) (λ env a. 0)
    ∷ row (λ g env a. (System.gr_sst_win_open g env a).0) (λ env a. 0)
    ∷ []

unfoldable pub wrappers : List Row
unfolding draw_rows tex_rows system_rows
wrappers = draw_rows ++ (tex_rows ++ (system_rows ++ plain_rows plain_wrappers))

-- beyond the table
abbrev pub no_wrapper : Row
no_wrapper = row (λ g env a. []) (λ env a. 0)
