-- ===== src/Glide/Guest/Drawn.antt =====
-- The wrappers that send vertices: the host skips the words that they have pushed.
use qemu_win.Prelude.{
  some, subst, false, ℕ, zero, suc, ◌+◌, ◌*◌, ◌^◌, ◌<◌, ◌≤◌, ◌≡◌, ◌≢◌, refl, List, ◌∷◌, ◌++◌, arith,
  u32, ◌==◌,
}
use qemu_win.Fifo.Defs.{num_data, even_up}
use qemu_win.Glide.Symbols.{grf_enum_args_cnt}
use qemu_win.Glide.Args.State.{aligned, GlidePt, Host}
use qemu_win.Glide.Args.{process_args}
use qemu_win.Glide.Args.Draw.{size_grvertex}
use qemu_win.Glide.Guest.Ops.{Op, Src, at, add_data, Args, Env, Statics}
use qemu_win.Glide.Guest.Draw
use qemu_win.Glide.FEnum
use qemu_win.Glide.Guest.Quiet.{stored}
use qemu_win.Glide.Guest.Synced.{host_words, Synced}

abbrev vertex_words : ℕ
vertex_words = 16

module _ (word : ℕ → ℕ) (host : Host) (s : GlidePt) where
  Synced-sent :
      (ops : List Op) (q : ℕ → ℕ) (first : ℕ) {m n : ℕ}
      → m ≡ n
      → Synced word host s ops q m first
      → Synced word host s ops q n first
  Synced-sent ops q first e h = subst (λ k. Synced word host s ops q k first) e h

  Synced-more :
      (ops : List Op) (src : Src) (cb : ℕ) (q : ℕ → ℕ) (sent first : ℕ)
      → 0 < sent
      → Synced word host s ops q (sent + even_up (num_data cb)) first
      → Synced word host s (add_data 0 src cb ∷ ops) q sent first
  Synced-more ops src cb q sent first pos h = let e : (sent == 0) ≡ false = ground arith in rw e h

module _ (host : Host) (s : GlidePt) (env : Env) (a : Args) where
  by_index-Synced :
      (n i sent w first : ℕ) (ops : List Op) (q : ℕ → ℕ)
      → (0 < n → 0 < sent)
      → w ≡ sent + n * vertex_words
      → Synced env.word host s ops q w first
      → Synced env.word host s (Draw.by_index n i env a ++ ops) q sent first
  unfolding num_data even_up
  by_index-Synced zero i sent w first ops q pos e h =
      Synced-sent env.word host s ops q first (omega (arith, e)) h
  by_index-Synced (suc n) i sent w first ops q pos e h =
      Synced-more env.word host s (Draw.by_index n (i + 1) env a ++ ops)
        (at (u32 (a 2 + env.word (a 1 + i * 4) * size_grvertex))) size_grvertex q sent first
        (pos (omega arith))
        (by_index-Synced n (i + 1) (sent + vertex_words) w first ops q (λ p. omega arith)
          (omega (arith, e)) h)

module _ (host : Host) (s : GlidePt) (g : Statics) (env : Env) (a : Args) (pt : ℕ → ℕ) (first : ℕ)
    (two : s.init_dll ≢ 0x301a0) where
  pub gr_aadraw_line-Synced : Synced env.word host s (Draw.gr_aadraw_line g env a) pt 0 first
  unfolding Draw.gr_aadraw_line host_words process_args grf_enum_args_cnt num_data even_up
  gr_aadraw_line-Synced = (refl, ground arith, refl)

  pub gr_aadraw_point-Synced : Synced env.word host s (Draw.gr_aadraw_point g env a) pt 0 first
  unfolding Draw.gr_aadraw_point host_words process_args grf_enum_args_cnt num_data even_up
  gr_aadraw_point-Synced = (refl, ground arith, refl)

  pub gr_aadraw_triangle-Synced :
      Synced env.word host s (Draw.gr_aadraw_triangle g env a) pt 0 first
  unfolding Draw.gr_aadraw_triangle host_words process_args grf_enum_args_cnt num_data even_up
  gr_aadraw_triangle-Synced = (refl, ground arith, refl)

  pub gr_draw_line-Synced : Synced env.word host s (Draw.gr_draw_line g env a) pt 0 first
  unfolding Draw.gr_draw_line host_words process_args grf_enum_args_cnt num_data even_up
  gr_draw_line-Synced = (refl, ground arith, refl)

  pub gr_draw_point-Synced : Synced env.word host s (Draw.gr_draw_point g env a) pt 0 first
  unfolding Draw.gr_draw_point host_words process_args grf_enum_args_cnt num_data even_up
  gr_draw_point-Synced = (refl, ground arith, refl)

  pub gr_draw_triangle-Synced : Synced env.word host s (Draw.gr_draw_triangle g env a) pt 0 first
  unfolding Draw.gr_draw_triangle host_words process_args grf_enum_args_cnt num_data even_up
  gr_draw_triangle-Synced = (refl, ground arith, refl)

  pub gu_aadraw_triangle_with_clip-Synced :
      Synced env.word host s (Draw.gu_aadraw_triangle_with_clip g env a) pt 0 first
  unfolding Draw.gu_aadraw_triangle_with_clip host_words process_args grf_enum_args_cnt num_data
      even_up
  gu_aadraw_triangle_with_clip-Synced = (refl, ground arith, refl)

  pub gu_draw_triangle_with_clip-Synced :
      Synced env.word host s (Draw.gu_draw_triangle_with_clip g env a) pt 0 first
  unfolding Draw.gu_draw_triangle_with_clip host_words process_args grf_enum_args_cnt num_data
      even_up
  gu_draw_triangle_with_clip-Synced = (refl, ground arith, refl)

module _ (host : Host) (s : GlidePt) (g : Statics) (env : Env) (a : Args) (pt : ℕ → ℕ)
    (first : ℕ) where
  pub gr_aadraw_polygon_vertex_list-Synced :
      a 0 * 60 + 8 ≤ 2 ^ 32
      → Synced env.word host s (Draw.gr_aadraw_polygon_vertex_list g env a) pt 0 first
  unfolding Draw.gr_aadraw_polygon_vertex_list host_words process_args grf_enum_args_cnt num_data
      even_up
  gr_aadraw_polygon_vertex_list-Synced small = (refl, ground arith, refl)

  pub gr_draw_planar_polygon_vertex_list-Synced :
      a 0 * 60 + 8 ≤ 2 ^ 32
      → Synced env.word host s (Draw.gr_draw_planar_polygon_vertex_list g env a) pt 0 first
  unfolding Draw.gr_draw_planar_polygon_vertex_list host_words process_args grf_enum_args_cnt
      num_data even_up
  gr_draw_planar_polygon_vertex_list-Synced small = (refl, ground arith, refl)

  pub gr_draw_polygon_vertex_list-Synced :
      a 0 * 60 + 8 ≤ 2 ^ 32
      → Synced env.word host s (Draw.gr_draw_polygon_vertex_list g env a) pt 0 first
  unfolding Draw.gr_draw_polygon_vertex_list host_words process_args grf_enum_args_cnt num_data
      even_up
  gr_draw_polygon_vertex_list-Synced small = (refl, ground arith, refl)

  pub gu_draw_polygon_vertex_list_with_clip-Synced :
      a 0 * 60 + 8 ≤ 2 ^ 32
      → Synced env.word host s (Draw.gu_draw_polygon_vertex_list_with_clip g env a) pt 0 first
  unfolding Draw.gu_draw_polygon_vertex_list_with_clip host_words process_args grf_enum_args_cnt
      num_data even_up
  gu_draw_polygon_vertex_list_with_clip-Synced small = (refl, ground arith, refl)

  polygon-Synced :
      (f : ℕ)
      → grf_enum_args_cnt f ≡ some 3
      → ((q : ℕ → ℕ)
          → host_words host s f (env.word (a 1)) q
            ≡ num_data (u32 (aligned (q 1 * 4) + u32 (q 1 * 64))))
      → a 0 * 68 + 8 ≤ 2 ^ 32
      → Synced env.word host s (Draw.polygon f g env a) pt 0 first
  unfolding num_data even_up stored
  polygon-Synced f cnt words small =
      by_index-Synced host s env a (a 0) 0 _ _ _ _ pt (λ p. ground arith) refl
        (cnt, ground (arith, words (stored 3 0 a pt)), refl)

  pub gr_aadraw_polygon-Synced :
      a 0 * 68 + 8 ≤ 2 ^ 32 → Synced env.word host s (Draw.gr_aadraw_polygon g env a) pt 0 first
  unfolding Draw.gr_aadraw_polygon host_words process_args grf_enum_args_cnt
  gr_aadraw_polygon-Synced = polygon-Synced FEnum.gr_aadraw_polygon refl (λ q. refl)

  pub gr_draw_planar_polygon-Synced :
      a 0 * 68 + 8 ≤ 2 ^ 32
      → Synced env.word host s (Draw.gr_draw_planar_polygon g env a) pt 0 first
  unfolding Draw.gr_draw_planar_polygon host_words process_args grf_enum_args_cnt
  gr_draw_planar_polygon-Synced = polygon-Synced FEnum.gr_draw_planar_polygon refl (λ q. refl)

  pub gr_draw_polygon-Synced :
      a 0 * 68 + 8 ≤ 2 ^ 32 → Synced env.word host s (Draw.gr_draw_polygon g env a) pt 0 first
  unfolding Draw.gr_draw_polygon host_words process_args grf_enum_args_cnt
  gr_draw_polygon-Synced = polygon-Synced FEnum.gr_draw_polygon refl (λ q. refl)
