-- ===== src/Glide/Args/Tex.antt =====
-- glidept_mm.c, processArgs: the cases of textures, fog and files.
use qemu_win.Prelude.{
  ℕ, ◌+◌, ◌*◌, false, not, ◌&&◌, none, some, List, [], ◌∷◌, ◌==◌, ◌!=◌, leb, if◌then◌else◌, u32,
}
use qemu_win.Glide.FEnum
use qemu_win.Glide.Args.State.{
  GlidePt, hshm, outshm, plain, tex_info, store_hshm, push_cfg, push_tex_file, info_3df_clear,
  info_3df_data, Host, Case, aligned, aligned32, set_parg, set_datacb, effect, effect_if,
}

abbrev pub size_grtexinfo : ℕ
size_grtexinfo = 20

abbrev pub size_guncctable : ℕ
size_guncctable = 112

abbrev pub size_gutexpalette : ℕ
size_gutexpalette = 1024

-- GR_TEXTABLE_PALETTE
abbrev pub palette : ℕ
palette = 2

-- grTexSource, grTexDownloadMipMap
abbrev pub tex_source : GlidePt → GlidePt
tex_source s =
    let download = s.fenum == FEnum.gr_tex_download_mip_map in
    let cb = aligned size_grtexinfo in
    set_parg 3 (outshm 0) (
      set_datacb (if download then cb + aligned32 (s.arg 4) else cb)
        (effect (tex_info (if download then some (hshm cb) else none)) s))

-- grTexDownloadMipMapLevel, grTexDownloadMipMapLevelPartial
abbrev pub download_level : GlidePt → GlidePt
download_level s =
    let whole = s.fenum == FEnum.gr_tex_download_mip_map_level in
    set_parg 3 (hshm 0) (set_datacb (aligned32 (if whole then s.arg 8 else s.arg 10)) s)

abbrev pub download_table : GlidePt → GlidePt
download_table s =
    set_parg 2 (hshm 0)
      (set_datacb (if s.arg 1 == palette then size_gutexpalette else size_guncctable) s)

abbrev pub download_table_partial : GlidePt → GlidePt
download_table_partial s =
    set_parg 2 (hshm 0) (
      set_datacb (if s.arg 1 == palette then aligned (u32 (s.arg 4 + 1) * 4) else size_guncctable)
        s)

abbrev pub download_table3x : GlidePt → GlidePt
download_table3x s =
    set_parg 1 (hshm 0)
      (set_datacb (if leb palette (s.arg 0) then size_gutexpalette else size_guncctable) s)

abbrev pub download_table_partial3x : GlidePt → GlidePt
download_table_partial3x s = set_parg 1 (hshm 0) (
    set_datacb (if leb palette (s.arg 0) then aligned (u32 (s.arg 3 + 1) * 4) else size_guncctable)
      s)

abbrev pub tex_mem_required : GlidePt → GlidePt
tex_mem_required s =
    set_parg 1 (outshm 0) (effect (tex_info none) (set_datacb (aligned size_grtexinfo) s))

abbrev pub gu_download_mip_map : GlidePt → GlidePt
gu_download_mip_map s =
    let cb = if s.arg 3 != 0 then aligned32 (s.arg 3) else s.datacb in
    let ncc = s.arg 2 != 0 in
    set_parg 2 (if ncc then hshm (aligned32 (s.arg 3)) else plain (s.arg 2))
      (set_parg 1 (hshm 0) (set_datacb (if ncc then cb + size_guncctable else cb) s))

abbrev pub gu_download_level : GlidePt → GlidePt
gu_download_level s = set_parg 2 (hshm (aligned32 (s.arg 3))) (
    effect (store_hshm (aligned32 (s.arg 3)))
      (set_datacb (if s.arg 3 != 0 then aligned32 (s.arg 3) + aligned 1 else s.datacb) s))

abbrev pub generate_fog : GlidePt → GlidePt
generate_fog s = set_parg 0 (outshm 0) s

abbrev pub glide_init : GlidePt → GlidePt
glide_init s =
    let push = s.fbuf && s.flen != 0 in
    record (effect_if push push_cfg s) { flen = if push then 0 else s.flen }

module _ (host : Host) where
  abbrev pub fog_table : GlidePt → GlidePt
  fog_table s = set_parg 0 (hshm 8) (set_datacb (aligned 4 + aligned (u32 host.first_word)) s)

  -- gu3dfGetInfo, gu3dfLoad
  abbrev pub gu3df : GlidePt → GlidePt
  gu3df s =
      let info = s.fenum == FEnum.gu3df_get_info in
      let push = info && (s.fbuf && s.flen != 0) in
      let fill = not info && host.mem_required != 0 in
      let t = record s {
        flen = if push then 0 else s.flen;
        fbuf = if fill then false else s.fbuf;
      } in
      set_parg 1 (outshm 1056) (
        set_parg 0 (hshm 0) (
          effect_if fill info_3df_data
            (effect_if push push_tex_file (effect_if info info_3df_clear (set_datacb 64 t)))))

  unfoldable pub tex_cases : List Case
  tex_cases =
      (FEnum.gr_glide_init ∷ [], glide_init)
      ∷ (FEnum.gr_tex_source ∷ FEnum.gr_tex_download_mip_map ∷ [], tex_source)
      ∷ (
        FEnum.gr_tex_download_mip_map_level ∷ FEnum.gr_tex_download_mip_map_level_partial ∷ [],
        download_level,
      )
      ∷ (FEnum.gr_tex_download_table ∷ [], download_table)
      ∷ (FEnum.gr_tex_download_table_partial ∷ [], download_table_partial)
      ∷ (FEnum.gr_tex_download_table3x ∷ [], download_table3x)
      ∷ (FEnum.gr_tex_download_table_partial3x ∷ [], download_table_partial3x)
      ∷ (FEnum.gr_tex_texture_mem_required ∷ [], tex_mem_required)
      ∷ (FEnum.gr_fog_table ∷ [], fog_table)
      ∷ (
        FEnum.gu_fog_generate_exp ∷ FEnum.gu_fog_generate_exp2 ∷ FEnum.gu_fog_generate_linear ∷ [],
        generate_fog,
      )
      ∷ (FEnum.gu3df_get_info ∷ FEnum.gu3df_load ∷ [], gu3df)
      ∷ (FEnum.gu_tex_download_mip_map ∷ [], gu_download_mip_map)
      ∷ (FEnum.gu_tex_download_mip_map_level ∷ [], gu_download_level)
      ∷ []
