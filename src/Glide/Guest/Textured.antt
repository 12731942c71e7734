-- ===== src/Glide/Guest/Textured.antt =====
-- The wrappers of textures and fog: the host skips the words that they have pushed.
use qemu_win.Prelude.{
  ℕ, ◌+◌, ◌*◌, ◌^◌, ◌≤◌, refl, Option, none, some, List, ◌++◌, arith, Bool-cases, inl, inr, ◌!=◌,
}
use qemu_win.Fifo.Defs.{num_data, even_up}
use qemu_win.Glide.Symbols.{grf_enum_args_cnt}
use qemu_win.Glide.Args.State.{GlidePt, Host}
use qemu_win.Glide.Args.{process_args}
use qemu_win.Glide.Guest.Ops.{Op, GuTexInfo, Args, Env, Statics}
use qemu_win.Glide.Guest.Tex
use qemu_win.Glide.Guest.Synced.{host_words, Synced}

module _ (host : Host) (s : GlidePt) (g : Statics) (env : Env) where
  sized-Synced :
      (level : ℕ) (o : Option GuTexInfo) (ops : List Op) (pt : ℕ → ℕ) (first : ℕ)
      → ((q : ℕ → ℕ) (x : ℕ) → Synced env.word host s ops q 0 x)
      → Synced env.word host s ((Tex.sized env level o).0 ++ ops) pt 0 first
  unfolding Tex.sized host_words process_args num_data even_up
  sized-Synced level none ops pt first h = h pt first
  sized-Synced level (some t) ops pt first h = (refl, h _ _)

  sized_le : (level : ℕ) (o : Option GuTexInfo) → (Tex.sized env level o).1 ≤ env.mem_required
  unfolding Tex.sized
  sized_le level none = omega arith
  sized_le level (some t) = omega arith

  mip_map-Synced :
      (a : Args) (n : ℕ) (pt : ℕ → ℕ) (first : ℕ)
      → n + 128 ≤ 2 ^ 32
      → Synced env.word host s (Tex.mip_map_ops a n) pt 0 first
  unfolding host_words process_args grf_enum_args_cnt num_data even_up
  mip_map-Synced a n pt first small = elim (Bool-cases (n != 0)) [
    | inl e ↦ elim (Bool-cases (a 2 != 0)) [
      | inl c ↦ rw (e, c) (refl, ground arith, refl)
      | inr c ↦ rw (e, c) (refl, ground arith, refl)
    ]
    | inr e ↦ elim (Bool-cases (a 2 != 0)) [
      | inl c ↦ rw (e, c) (refl, ground arith, refl)
      | inr c ↦ rw (e, c) (refl, ground arith, refl)
    ]
  ]

  level-Synced :
      (a : Args) (n : ℕ) (pt : ℕ → ℕ) (first : ℕ)
      → n + 128 ≤ 2 ^ 32
      → Synced env.word host s (Tex.level_ops env a n) pt 0 first
  unfolding host_words process_args grf_enum_args_cnt num_data even_up
  level-Synced a n pt first small = elim (Bool-cases (n != 0)) [
    | inl e ↦ rw e (refl, ground arith, refl)
    | inr e ↦ rw e (refl, ground arith, refl)
  ]

module _ (host : Host) (s : GlidePt) (g : Statics) (env : Env) (a : Args) (pt : ℕ → ℕ)
    (first : ℕ) where
  pub gr_tex_texture_mem_required-Synced :
      Synced env.word host s (Tex.gr_tex_texture_mem_required g env a) pt 0 first
  unfolding Tex.gr_tex_texture_mem_required host_words process_args grf_enum_args_cnt num_data
      even_up
  gr_tex_texture_mem_required-Synced = (refl, refl)

  pub gr_tex_source-Synced : Synced env.word host s (Tex.gr_tex_source g env a) pt 0 first
  unfolding Tex.gr_tex_source host_words process_args grf_enum_args_cnt num_data even_up
  gr_tex_source-Synced = (refl, refl, refl)

  pub gr_tex_download_mip_map-Synced :
      env.mem_required + 128 ≤ 2 ^ 32
      → Synced env.word host s (Tex.gr_tex_download_mip_map g env a) pt 0 first
  unfolding Tex.gr_tex_download_mip_map host_words process_args grf_enum_args_cnt num_data even_up
  gr_tex_download_mip_map-Synced small = (refl, (refl, ground arith, refl))

  pub gr_tex_download_mip_map_level-Synced :
      env.mem_required + 128 ≤ 2 ^ 32
      → Synced env.word host s (Tex.gr_tex_download_mip_map_level g env a) pt 0 first
  unfolding Tex.gr_tex_download_mip_map_level host_words process_args grf_enum_args_cnt num_data
      even_up
  gr_tex_download_mip_map_level-Synced small = (refl, (refl, ground arith, refl))

  pub gr_tex_download_mip_map_level_partial-Synced :
      Tex.tex_bytes a + 8 ≤ 2 ^ 32
      → Synced env.word host s (Tex.gr_tex_download_mip_map_level_partial g env a) pt 0 first
  unfolding Tex.gr_tex_download_mip_map_level_partial host_words process_args grf_enum_args_cnt
      num_data even_up
  gr_tex_download_mip_map_level_partial-Synced small = (refl, ground arith, refl)

  pub gr_tex_download_table-Synced :
      Synced env.word host s (Tex.gr_tex_download_table g env a) pt 0 first
  unfolding Tex.gr_tex_download_table host_words process_args grf_enum_args_cnt num_data even_up
  gr_tex_download_table-Synced = (refl, ground arith, refl)

  pub gr_tex_download_table_partial-Synced :
      (a 4 + 1) * 4 + 8 ≤ 2 ^ 32
      → Synced env.word host s (Tex.gr_tex_download_table_partial g env a) pt 0 first
  unfolding Tex.gr_tex_download_table_partial host_words process_args grf_enum_args_cnt num_data
      even_up
  gr_tex_download_table_partial-Synced small = (refl, ground arith, refl)

  pub gr_fog_table-Synced : Synced env.word host s (Tex.gr_fog_table g env a) pt 0 first
  unfolding Tex.gr_fog_table host_words process_args grf_enum_args_cnt num_data even_up
  gr_fog_table-Synced = (refl, refl, refl)

  pub gu_fog_generate_exp2-Synced :
      Synced env.word host s (Tex.gu_fog_generate_exp2 g env a) pt 0 first
  unfolding Tex.gu_fog_generate_exp2 host_words process_args grf_enum_args_cnt num_data even_up
  gu_fog_generate_exp2-Synced = (refl, refl)

  pub gu_fog_generate_exp-Synced :
      Synced env.word host s (Tex.gu_fog_generate_exp g env a) pt 0 first
  unfolding Tex.gu_fog_generate_exp host_words process_args grf_enum_args_cnt num_data even_up
  gu_fog_generate_exp-Synced = (refl, refl)

  pub gu_fog_generate_linear-Synced :
      Synced env.word host s (Tex.gu_fog_generate_linear g env a) pt 0 first
  unfolding Tex.gu_fog_generate_linear host_words process_args grf_enum_args_cnt num_data even_up
  gu_fog_generate_linear-Synced = (refl, refl)

  pub gu_tex_download_mip_map-Synced :
      env.mem_required + 128 ≤ 2 ^ 32
      → Synced env.word host s (Tex.gu_tex_download_mip_map g env a) pt 0 first
  unfolding Tex.gu_tex_download_mip_map Tex.gu_tex_size
  gu_tex_download_mip_map-Synced small =
      let t = Tex.find_tex g.gu_tex (a 0) in
      sized-Synced host s g env 0x0f t _ pt first
        (λ q x. mip_map-Synced host s g env a _ q x (omega (arith, sized_le host s g env 0x0f t)))

  pub gu_tex_download_mip_map_level-Synced :
      env.mem_required + 128 ≤ 2 ^ 32
      → Synced env.word host s (Tex.gu_tex_download_mip_map_level g env a) pt 0 first
  unfolding Tex.gu_tex_download_mip_map_level Tex.gu_tex_size
  gu_tex_download_mip_map_level-Synced small =
      let t = Tex.find_tex g.gu_tex (a 0) in
      sized-Synced host s g env (a 1) t _ pt first
        (λ q x. level-Synced host s g env a _ q x (omega (arith, sized_le host s g env (a 1) t)))
