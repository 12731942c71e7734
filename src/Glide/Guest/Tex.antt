-- ===== src/Glide/Guest/Tex.antt =====
-- glidedll.c: the wrappers of textures, with the table of the textures that guTexAllocateMemory has
-- handed out, and those of fog.
use qemu_win.Prelude.{
  ℕ, ◌+◌, ◌-◌, ◌*◌, ◌/◌, ◌^◌, Option, none, some, List, [], ◌∷◌, ◌++◌, ◌==◌, ◌!=◌, leb, ltb,
  if◌then◌else◌, bit_and, length, u32, sub32,
}
use qemu_win.Glide.FEnum
use qemu_win.Glide.Args.Tex.{size_grtexinfo, size_guncctable, size_gutexpalette}
use qemu_win.Glide.Guest.Ops.{
  Src, at, local, Op, add_data, advance, store, grfunc, call, out_data, Args, Env, GuTexInfo,
  Statics, Wrapper, stores, ops_if,
}

abbrev pub max_gutex : ℕ
max_gutex = 0x1000

-- GR_MIPMAPLEVELMASK_BOTH
abbrev pub level_both : ℕ
level_both = 3

-- grTexTextureMemRequired of a structure at an address; it may be a local one
abbrev pub mem_required_ops : ℕ → ℕ → Src → List Op
mem_required_ops odd_even addr src =
    add_data 0 src size_grtexinfo
    ∷ store 1 odd_even
    ∷ store 2 addr
    ∷ call FEnum.gr_tex_texture_mem_required
    ∷ []

unfoldable pub gr_tex_texture_mem_required : Wrapper
gr_tex_texture_mem_required g env a = mem_required_ops (a 0) (a 1) (at (a 1))

unfoldable pub gr_tex_source : Wrapper
gr_tex_source g env a =
    add_data 0 (at (a 3)) size_grtexinfo ∷ (stores 4 0 a ++ (grfunc FEnum.gr_tex_source 4 ∷ []))

unfoldable pub gr_tex_download_mip_map : Wrapper
gr_tex_download_mip_map g env a =
    let info =
      local (env.word (a 3) ∷ env.word (a 3 + 4) ∷ env.word (a 3 + 8) ∷ env.word (a 3 + 12) ∷ []) in
    let dlen = env.mem_required in
    mem_required_ops level_both env.stack info
    ++ (add_data 0 (at (a 3)) size_grtexinfo
        ∷ add_data 0 (at (env.word (a 3 + 16))) dlen
        ∷ (stores 4 0 a ++ (store 5 dlen ∷ grfunc FEnum.gr_tex_download_mip_map 5 ∷ [])))

unfoldable pub gr_tex_download_mip_map_level : Wrapper
gr_tex_download_mip_map_level g env a =
    let dlen = env.mem_required in
    mem_required_ops (a 6) env.stack (local (a 2 ∷ a 2 ∷ a 4 ∷ a 5 ∷ []))
    ++ (add_data 0 (at (a 7)) dlen
        ∷ (stores 8 0 a ++ (store 9 dlen ∷ grfunc FEnum.gr_tex_download_mip_map_level 9 ∷ [])))

-- `texBytes` of a range of rows; the level of detail is below 32 in C
unfoldable pub tex_bytes : Args → ℕ
tex_bytes a =
    let width = 256 / 2 ^ (a 2) in
    let narrow = if bit_and (a 4) 4 != 0 then width / 2 ^ (bit_and (a 4) 3 + 1) else width in
    let texels = if ltb (a 5) 8 then narrow / 4 else narrow / 2 in
    u32 ((if texels == 0 then 1 else texels) * (sub32 (a 9) (a 8) + 1) * 4)

unfoldable pub gr_tex_download_mip_map_level_partial : Wrapper
gr_tex_download_mip_map_level_partial g env a =
    add_data 0 (at (a 7)) (tex_bytes a)
    ∷ (stores 10 0 a
        ++ (store 11 (tex_bytes a) ∷ grfunc FEnum.gr_tex_download_mip_map_level_partial 11 ∷ []))

unfoldable pub gr_tex_download_table : Wrapper
gr_tex_download_table g env a =
    add_data 0 (at (a 2)) (if a 1 == 2 then size_gutexpalette else size_guncctable)
    ∷ (stores 3 0 a ++ (grfunc FEnum.gr_tex_download_table 3 ∷ []))

unfoldable pub gr_tex_download_table_partial : Wrapper
gr_tex_download_table_partial g env a =
    add_data 0 (at (a 2)) (if a 1 == 2 then u32 ((a 4 + 1) * 4) else size_guncctable)
    ∷ (stores 5 0 a ++ (grfunc FEnum.gr_tex_download_table_partial 5 ∷ []))

-- guTexReset and guTexRecord
unfoldable pub gu_tex_reset : Statics → Statics
gu_tex_reset g = record g { gu_tex = [] }

unfoldable pub gu_tex_record : GuTexInfo → Statics → ℕ × Statics
gu_tex_record info g =
    if ltb (length g.gu_tex) max_gutex
    then (info.mmid, record g { gu_tex = g.gu_tex ++ (info ∷ []) })
    else (2 ^ 32 - 1, g)

unfoldable pub find_tex : List GuTexInfo → ℕ → Option GuTexInfo
find_tex [] mmid = none
find_tex (t ∷ ts) mmid = if t.mmid == mmid then some t else find_tex ts mmid

-- guTexSize: the call that it makes, and its result; `level` is signed
unfoldable pub sized : Env → ℕ → Option GuTexInfo → List Op × ℕ
sized env level none = ([], 0)
sized env level (some t) =
    let small = if leb level 8 then level else t.small in
    let large = if leb level 8 then level else t.large in
    (
      mem_required_ops level_both env.stack (local (small ∷ large ∷ t.aspect ∷ t.format ∷ [])),
      env.mem_required,
    )

unfoldable pub gu_tex_size : Statics → Env → ℕ → ℕ → List Op × ℕ
unfolding find_tex sized
gu_tex_size g env mmid level = sized env level (find_tex g.gu_tex mmid)

-- guTexDownloadMipMap and guTexDownloadMipMapLevel, once the size is known; behind the level, eight
-- bytes of padding are sent
abbrev pub mip_map_ops : Args → ℕ → List Op
mip_map_ops a size =
    ops_if (size != 0) (add_data 0 (at (a 1)) size ∷ [])
    ++ (ops_if (a 2 != 0) (add_data 0 (at (a 2)) size_guncctable ∷ [])
        ++ (stores 3 0 a ++ (store 4 size ∷ grfunc FEnum.gu_tex_download_mip_map 4 ∷ [])))

abbrev pub level_ops : Env → Args → ℕ → List Op
level_ops env a size =
    ops_if (size != 0) (
      add_data 0 (at (env.word (a 2))) size ∷ add_data 0 (at env.stack) 8 ∷ advance (a 2) size ∷ [])
    ++ (stores 3 0 a ++ (store 4 size ∷ grfunc FEnum.gu_tex_download_mip_map_level 4 ∷ []))

unfoldable pub gu_tex_download_mip_map : Wrapper
gu_tex_download_mip_map g env a =
    let size = gu_tex_size g env (a 0) 0x0f in size.0 ++ mip_map_ops a size.1

unfoldable pub gu_tex_download_mip_map_level : Wrapper
gu_tex_download_mip_map_level g env a =
    let size = gu_tex_size g env (a 0) (a 1) in size.0 ++ level_ops env a size.1

unfoldable pub gu_tex_allocate_memory : Statics → Env → Args → List Op × Statics
unfolding gu_tex_record
gu_tex_allocate_memory g env a = (
  stores 15 0 a ++ (call FEnum.gu_tex_allocate_memory ∷ []),
  (if env.ret != 2 ^ 32 - 1
      then (gu_tex_record
          (record { mmid = env.ret; small = a 6; large = a 7; aspect = a 8; format = a 4 }) g).1
      else g),
)

unfoldable pub gu_tex_mem_reset : Statics → Env → Args → List Op × Statics
unfolding gu_tex_reset
gu_tex_mem_reset g env a = (call FEnum.gu_tex_mem_reset ∷ [], gu_tex_reset g)

unfoldable pub gr_fog_table : Wrapper
gr_fog_table g env a =
    add_data 0 (local (64 ∷ [])) 4
    ∷ add_data 0 (at (a 0)) 64
    ∷ (stores 1 0 a ++ (grfunc FEnum.gr_fog_table 1 ∷ []))

unfoldable pub gu_fog_generate_exp2 : Wrapper
gu_fog_generate_exp2 g env a =
    stores 2 0 a ++ (call FEnum.gu_fog_generate_exp2 ∷ out_data 0 (a 0) 64 ∷ [])

unfoldable pub gu_fog_generate_exp : Wrapper
gu_fog_generate_exp g env a =
    stores 2 0 a ++ (call FEnum.gu_fog_generate_exp ∷ out_data 0 (a 0) 64 ∷ [])

unfoldable pub gu_fog_generate_linear : Wrapper
gu_fog_generate_linear g env a =
    stores 3 0 a ++ (call FEnum.gu_fog_generate_linear ∷ out_data 0 (a 0) 64 ∷ [])
