-- ===== src/Glide/Guest/Laws.antt =====
-- The guest and the host stay together: the theorem on all the wrappers.
use qemu_win.Prelude.{
  ℕ, zero, suc, ◌+◌, ◌^◌, ◌<◌, ◌≤◌, ◌≢◌, refl, List, [], ◌∷◌, ◌++◌, arith, get_or, length,
}
use qemu_win.Glide.Args.State.{GlidePt, Host}
use qemu_win.Glide.Args.{process_args}
use qemu_win.Fifo.Defs.{num_data}
use qemu_win.Glide.Guest.Ops.{Args, Env, Statics, Plain, plain}
use qemu_win.Glide.Guest.Plain.{plain_wrappers}
use qemu_win.Glide.Guest.Tex
use qemu_win.Glide.Guest.Rows.{
  Row, plain_rows, draw_rows, tex_rows, system_rows, wrappers, no_wrapper,
}
use qemu_win.Glide.Guest.Synced.{host_words, Synced}
use qemu_win.Glide.Guest.Quiet.{plain_wrappers-Synced}
use qemu_win.Glide.Guest.Drawn
use qemu_win.Glide.Guest.Textured
use qemu_win.Glide.Guest.Opened

module _ (host : Host) (s : GlidePt) (g : Statics) (env : Env) (a : Args) (pt : ℕ → ℕ)
    (first : ℕ) where
  Agrees : Row → Type 0
  Agrees r = r.size env a + 128 ≤ 2 ^ 32 → Synced env.word host s (r.run g env a) pt 0 first

  infixr 5 ◌◁◌
  data Kept : List Row → Type 0 where
    done : Kept []
    ◌◁◌ : {r : Row} {rs : List Row} → Agrees r → Kept rs → Kept (r ∷ rs)

  Kept-get : (rs : List Row) (k : ℕ) → Kept rs → k < length rs → Agrees (get_or rs k no_wrapper)
  Kept-get [] k h lt = ground arith
  Kept-get (r ∷ rs) zero (x ◁ h) lt = x
  Kept-get (r ∷ rs) (suc k) (x ◁ h) lt = Kept-get rs k h (omega arith)

  Kept-append : (rs qs : List Row) → Kept rs → Kept qs → Kept (rs ++ qs)
  Kept-append [] qs hr hq = hq
  Kept-append (r ∷ rs) qs (x ◁ h) hq = x ◁ Kept-append rs qs h hq

  plain_rows-Agrees :
      (ps : List Plain)
      → ((k : ℕ) (d : Plain)
          → k < length ps
          → Synced env.word host s (plain (get_or ps k d) g env a) pt 0 first)
      → Kept (plain_rows ps)
  unfolding Agrees
  plain_rows-Agrees [] h = done
  plain_rows-Agrees (p ∷ ps) h =
      (λ small. h 0 p (omega arith)) ◁ plain_rows-Agrees ps (λ k d lt. h (suc k) d (omega arith))

  allocate-Synced : Synced env.word host s (Tex.gu_tex_allocate_memory g env a).0 pt 0 first
  unfolding Tex.gu_tex_allocate_memory host_words process_args num_data
  allocate-Synced = (refl, refl)

  reset-Synced : Synced env.word host s (Tex.gu_tex_mem_reset g env a).0 pt 0 first
  unfolding Tex.gu_tex_mem_reset host_words process_args num_data
  reset-Synced = (refl, refl)

  draw_rows-Agrees : s.init_dll ≢ 0x301a0 → Kept draw_rows
  unfolding Agrees draw_rows
  draw_rows-Agrees two =
      (λ small. Drawn.gr_aadraw_line-Synced host s g env a pt first two)
      ◁ (λ small. Drawn.gr_aadraw_point-Synced host s g env a pt first two)
      ◁ (λ small. Drawn.gr_aadraw_triangle-Synced host s g env a pt first two)
      ◁ (λ small. Drawn.gr_draw_line-Synced host s g env a pt first two)
      ◁ (λ small. Drawn.gr_draw_point-Synced host s g env a pt first two)
      ◁ (λ small. Drawn.gr_draw_triangle-Synced host s g env a pt first two)
      ◁ (λ small. Drawn.gu_aadraw_triangle_with_clip-Synced host s g env a pt first two)
      ◁ (λ small. Drawn.gu_draw_triangle_with_clip-Synced host s g env a pt first two)
      ◁ (λ small.
          Drawn.gr_aadraw_polygon_vertex_list-Synced host s g env a pt first (omega (arith, small)))
      ◁ (λ small.
          Drawn.gr_draw_planar_polygon_vertex_list-Synced host s g env a pt first
            (omega (arith, small)))
      ◁ (λ small.
          Drawn.gr_draw_polygon_vertex_list-Synced host s g env a pt first (omega (arith, small)))
      ◁ (λ small.
          Drawn.gu_draw_polygon_vertex_list_with_clip-Synced host s g env a pt first
            (omega (arith, small)))
      ◁ (λ small. Drawn.gr_aadraw_polygon-Synced host s g env a pt first (omega (arith, small)))
      ◁ (λ small.
          Drawn.gr_draw_planar_polygon-Synced host s g env a pt first (omega (arith, small)))
      ◁ (λ small. Drawn.gr_draw_polygon-Synced host s g env a pt first (omega (arith, small)))
      ◁ done

  tex_rows-Agrees : Kept tex_rows
  unfolding Agrees tex_rows
  tex_rows-Agrees =
      (λ small. Textured.gr_tex_texture_mem_required-Synced host s g env a pt first)
      ◁ (λ small. Textured.gr_tex_source-Synced host s g env a pt first)
      ◁ (λ small.
          Textured.gr_tex_download_mip_map-Synced host s g env a pt first (omega (arith, small)))
      ◁ (λ small.
          Textured.gr_tex_download_mip_map_level-Synced host s g env a pt first
            (omega (arith, small)))
      ◁ (λ small.
          Textured.gr_tex_download_mip_map_level_partial-Synced host s g env a pt first
            (omega (arith, small)))
      ◁ (λ small. Textured.gr_tex_download_table-Synced host s g env a pt first)
      ◁ (λ small.
          Textured.gr_tex_download_table_partial-Synced host s g env a pt first
            (omega (arith, small)))
      ◁ (λ small. Textured.gr_fog_table-Synced host s g env a pt first)
      ◁ (λ small. Textured.gu_fog_generate_exp2-Synced host s g env a pt first)
      ◁ (λ small. Textured.gu_fog_generate_exp-Synced host s g env a pt first)
      ◁ (λ small. Textured.gu_fog_generate_linear-Synced host s g env a pt first)
      ◁ (λ small.
          Textured.gu_tex_download_mip_map-Synced host s g env a pt first (omega (arith, small)))
      ◁ (λ small.
          Textured.gu_tex_download_mip_map_level-Synced host s g env a pt first
            (omega (arith, small)))
      ◁ (λ small. allocate-Synced)
      ◁ (λ small. reset-Synced)
      ◁ done

  system_rows-Agrees : Kept system_rows
  unfolding Agrees system_rows
  system_rows-Agrees =
      (λ small. Opened.gr_buffer_swap-Synced host s g env a pt first)
      ◁ (λ small. Opened.gr_glide_get_version-Synced host s g env a pt first)
      ◁ (λ small. Opened.gr_lfb_lock-Synced host s g env a pt first)
      ◁ (λ small. Opened.gr_lfb_read_region-Synced host s g env a pt first)
      ◁ (λ small. Opened.gr_lfb_write_region-Synced host s g env a pt first (omega (arith, small)))
      ◁ (λ small. Opened.gr_sst_perf_stats-Synced host s g env a pt first)
      ◁ (λ small. Opened.gr_sst_query_boards-Synced host s g env a pt first)
      ◁ (λ small. Opened.gr_sst_query_hardware-Synced host s g env a pt first)
      ◁ (λ small. Opened.gr_tri_stats-Synced host s g env a pt first)
      ◁ (λ small. Opened.gu3df_get_info-Synced host s g env a pt first)
      ◁ (λ small. Opened.gu3df_load-Synced host s g env a pt first)
      ◁ (λ small. Opened.gu_fog_table_index_to_w-Synced host s g env a pt first)
      ◁ (λ small. Opened.gr_glide_init-Synced host s g env a pt first)
      ◁ (λ small. Opened.gr_glide_shutdown-Synced host s g env a pt first)
      ◁ (λ small. Opened.gr_sst_win_close-Synced host s g env a pt first)
      ◁ (λ small. Opened.gr_sst_win_open-Synced host s g env a pt first)
      ◁ done

  wrappers-Agrees : s.init_dll ≢ 0x301a0 → Kept wrappers
  unfolding wrappers
  wrappers-Agrees two =
      Kept-append draw_rows (tex_rows ++ (system_rows ++ plain_rows plain_wrappers))
        (draw_rows-Agrees two)
        (Kept-append tex_rows (system_rows ++ plain_rows plain_wrappers) tex_rows-Agrees (
          Kept-append system_rows (plain_rows plain_wrappers) system_rows-Agrees (
            plain_rows-Agrees plain_wrappers
              (λ k d lt. plain_wrappers-Synced host s env.word g env a first pt k d lt))))

  -- For every function of GLIDE2X.DLL, whatever the arguments, the static variables and the answers
  -- of the device are: each time the wrapper queues or makes a call, it queues exactly as many
  -- arguments as GRFEnumArgsCnt gives the host, and it has pushed exactly as many words of data as
  -- the host's processArgs makes the host skip; when it returns, nothing that it pushed is left.
  -- The device serves Glide 2, and the bytes that a call sends fit 32 bits.
  pub wrapper-Synced :
      (k : ℕ)
      → k < length wrappers
      → s.init_dll ≢ 0x301a0
      → (get_or wrappers k no_wrapper).size env a + 128 ≤ 2 ^ 32
      → Synced env.word host s ((get_or wrappers k no_wrapper).run g env a) pt 0 first
  unfolding Agrees
  wrapper-Synced k lt two small = Kept-get wrappers k (wrappers-Agrees two) lt small
