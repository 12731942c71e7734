-- ===== src/Glide/Guest/Opened.antt =====
-- The wrappers of the window, the frame buffer and files: the host skips the words that they have
-- pushed.
use qemu_win.Prelude.{
  if◌then◌else◌, append-nil, append_assoc, ℕ, ◌+◌, ◌*◌, ◌^◌, ◌≤◌, refl, List, [], ◌∷◌, ◌++◌, arith,
  Bool, true, false, u32, ◌==◌, ◌!=◌,
}
use qemu_win.Fifo.Defs.{num_data, even_up}
use qemu_win.Glide.Args.State.{GlidePt, Host}
use qemu_win.Glide.Args.{process_args}
use qemu_win.Glide.Guest.Ops.{Op, wait_window, ops_if, Args, Env, Statics}
use qemu_win.Glide.Guest.System
use qemu_win.Glide.Guest.Synced.{host_words, Synced}

module _ (word : ℕ → ℕ) (host : Host) (s : GlidePt) where
  Synced-end :
      (b : Bool) (ops : List Op) (pt : ℕ → ℕ) (first : ℕ)
      → Synced word host s ops pt 0 first
      → Synced word host s (ops_if b ops) pt 0 first
  Synced-end true ops pt first h = h
  Synced-end false ops pt first h = refl

  -- steps that leave nothing pushed, whatever the argument area holds
  abbrev Balanced : List Op → Type 0
  Balanced ops =
      (rest : List Op) (pt : ℕ → ℕ) (first : ℕ)
      → ((q : ℕ → ℕ) (x : ℕ) → Synced word host s rest q 0 x)
      → Synced word host s (ops ++ rest) pt 0 first

  Balanced-if :
      (b : Bool) (x y : List Op × Statics)
      → Balanced x.0
      → Balanced y.0
      → Balanced (if b then x else y).0
  Balanced-if true x y hx hy = hx
  Balanced-if false x y hx hy = hy

  Balanced-ops_if : (b : Bool) (ops : List Op) → Balanced ops → Balanced (ops_if b ops)
  Balanced-ops_if true ops h rest pt first k = h rest pt first k
  Balanced-ops_if false ops h rest pt first k = k pt first

  Balanced-Synced :
      (ops : List Op) (pt : ℕ → ℕ) (first : ℕ) → Balanced ops → Synced word host s ops pt 0 first
  Balanced-Synced ops pt first h = rw (← append-nil ops) (h [] pt first (λ q x. refl))

  init-Balanced : (g : Statics) (env : Env) → Balanced (System.gr_glide_init g env).0
  unfolding System.gr_glide_init host_words process_args num_data
  init-Balanced g env rest pt first k = rw (append_assoc _ _ rest) (
      Balanced-ops_if env.opens (System.file_ops env) (λ rest pt first k. k pt first) _ pt first
        (λ q x. (refl, k q 0)))

  close-Balanced : (g : Statics) → Balanced (System.gr_sst_win_close g).0
  unfolding System.gr_sst_win_close host_words process_args num_data
  close-Balanced g =
      Balanced-if (g.wnd == 0) _ _ (λ rest pt first k. k pt first)
        (λ rest pt first k. (refl, k pt 0))

module _ (host : Host) (s : GlidePt) (g : Statics) (env : Env) (a : Args) (pt : ℕ → ℕ)
    (first : ℕ) where
  pub gr_buffer_swap-Synced : Synced env.word host s (System.gr_buffer_swap g env a) pt 0 first
  unfolding System.gr_buffer_swap host_words process_args num_data even_up
  gr_buffer_swap-Synced = (refl, refl)

  pub gr_glide_get_version-Synced :
      Synced env.word host s (System.gr_glide_get_version g env a) pt 0 first
  unfolding System.gr_glide_get_version host_words process_args num_data even_up
  gr_glide_get_version-Synced = (refl, refl)

  pub gr_lfb_lock-Synced : Synced env.word host s (System.gr_lfb_lock g env a) pt 0 first
  unfolding System.gr_lfb_lock host_words process_args num_data even_up
  gr_lfb_lock-Synced = (refl, refl)

  pub gr_lfb_write_region-Synced :
      u32 (a 5 * a 6) + 8 ≤ 2 ^ 32
      → Synced env.word host s (System.gr_lfb_write_region g env a) pt 0 first
  unfolding System.gr_lfb_write_region host_words process_args num_data even_up
  gr_lfb_write_region-Synced small = (ground arith, refl)

  pub gr_sst_perf_stats-Synced :
      Synced env.word host s (System.gr_sst_perf_stats g env a) pt 0 first
  unfolding System.gr_sst_perf_stats host_words process_args num_data even_up
  gr_sst_perf_stats-Synced = (refl, refl)

  pub gr_tri_stats-Synced : Synced env.word host s (System.gr_tri_stats g env a) pt 0 first
  unfolding System.gr_tri_stats host_words process_args num_data even_up
  gr_tri_stats-Synced = (refl, refl)

  pub gu_fog_table_index_to_w-Synced :
      Synced env.word host s (System.gu_fog_table_index_to_w g env a) pt 0 first
  unfolding System.gu_fog_table_index_to_w host_words process_args num_data even_up
  gu_fog_table_index_to_w-Synced = (refl, refl)

  pub gr_lfb_read_region-Synced :
      Synced env.word host s (System.gr_lfb_read_region g env a) pt 0 first
  unfolding System.gr_lfb_read_region host_words process_args num_data even_up
  gr_lfb_read_region-Synced = (refl, Synced-end env.word host s (env.ret != 0) _ _ 0 refl)

  pub gr_sst_query_boards-Synced :
      Synced env.word host s (System.gr_sst_query_boards g env a) pt 0 first
  unfolding System.gr_sst_query_boards host_words process_args num_data even_up
  gr_sst_query_boards-Synced = (refl, Synced-end env.word host s (env.ret != 0) _ _ 0 refl)

  pub gr_sst_query_hardware-Synced :
      Synced env.word host s (System.gr_sst_query_hardware g env a) pt 0 first
  unfolding System.gr_sst_query_hardware host_words process_args num_data even_up
  gr_sst_query_hardware-Synced = (refl, Synced-end env.word host s (env.ret != 0) _ _ 0 refl)

  pub gu3df_load-Synced : Synced env.word host s (System.gu3df_load g env a) pt 0 first
  unfolding System.gu3df_load host_words process_args num_data even_up
  gu3df_load-Synced = (refl, Synced-end env.word host s (env.ret != 0) _ _ 0 refl)

  pub gu3df_get_info-Synced : Synced env.word host s (System.gu3df_get_info g env a) pt 0 first
  unfolding System.gu3df_get_info host_words process_args num_data even_up
  gu3df_get_info-Synced =
      Synced-end env.word host s env.opens _ pt first
        (refl, Synced-end env.word host s (env.ret != 0) _ _ 0 refl)

  pub gr_glide_init-Synced : Synced env.word host s (System.gr_glide_init g env).0 pt 0 first
  unfolding System.gr_glide_init host_words process_args num_data even_up
  gr_glide_init-Synced =
      Balanced-Synced env.word host s (System.gr_glide_init g env).0 pt first
        (init-Balanced env.word host s g env)

  pub gr_sst_win_close-Synced : Synced env.word host s (System.gr_sst_win_close g).0 pt 0 first
  unfolding System.gr_sst_win_close host_words process_args num_data even_up
  gr_sst_win_close-Synced =
      Balanced-Synced env.word host s (System.gr_sst_win_close g).0 pt first
        (close-Balanced env.word host s g)

  pub gr_glide_shutdown-Synced : Synced env.word host s (System.gr_glide_shutdown g).0 pt 0 first
  unfolding System.gr_glide_shutdown host_words process_args num_data even_up
  gr_glide_shutdown-Synced = close-Balanced env.word host s g _ pt first (λ q x. (refl, refl))

  pub gr_sst_win_open-Synced : Synced env.word host s (System.gr_sst_win_open g env a).0 pt 0 first
  unfolding System.gr_sst_win_open host_words process_args num_data even_up
  gr_sst_win_open-Synced =
      let word = env.word in
      let inited = if g.present then ([], g) else System.gr_glide_init g env in
      Balanced-if word host s g.present ([], g) (System.gr_glide_init g env)
        (λ rest pt first k. k pt first) (init-Balanced word host s g env) _ pt first
        (λ q x.
          Balanced-if word host s (inited.1.wnd == 0) ([], inited.1)
            (System.gr_sst_win_close inited.1) (λ rest pt first k. k pt first)
            (close-Balanced word host s inited.1) _ q x
            (λ p y. (refl, Synced-end word host s (env.ret != 0) (wait_window ∷ []) _ 0 refl)))
