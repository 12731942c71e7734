-- ===== src/Glide/Symbols.antt =====
-- glide2x_impl.c: tblGlide2x, and the number of arguments that a decorated name gives.
mod Lower
mod Upper
pub mod Laws
use qemu_win.Prelude.{
  ℕ, zero, suc, ◌+◌, ◌-◌, ◌*◌, ◌/◌, Bool, true, false, ◌&&◌, Option, none, some, List, [], ◌∷◌,
  ◌++◌, ◌==◌, leb, ltb, if◌then◌else◌, get_or, is_in,
}
use Prim.Native.Char.{code}
use Prim.Native.String.{String}
use qemu_win.Glide.FEnum.{
  gr_tex_download_mip_map, gr_tex_download_mip_map_level, gr_tex_download_mip_map_level_partial,
  gu_tex_download_mip_map, gu_tex_download_mip_map_level,
}
use Lower.{syms_lower}
use Upper.{syms_upper}

unfoldable pub tbl_glide2x : List String
unfolding syms_lower syms_upper
tbl_glide2x = syms_lower ++ syms_upper

-- `atoi`, on the text that follows the `@`: the digits up to the first other character
unfoldable pub atoi : ℕ → String → ℕ
atoi acc String.[] = acc
atoi acc (String.◌∷◌ c s) =
    let rest = atoi (acc * 10 + (code c - 48)) s in
    if leb 48 (code c) && leb (code c) 57 then rest else acc

-- `none`: there is no `@`, and the source would read on beyond the name
unfoldable pub get_num_args : String → Option ℕ
unfolding atoi
get_num_args String.[] = none
get_num_args (String.◌∷◌ c s) =
    let rest = get_num_args s in if code c == 64 then some (atoi 0 s / 4) else rest

-- `tblGlide2x[FEnum].sym`; beyond the table, an empty name
unfoldable pub sym : ℕ → String
unfolding tbl_glide2x
sym fenum = get_or tbl_glide2x fenum ""

-- the functions with one argument more than the name says
abbrev pub downloads : List ℕ
downloads =
    gr_tex_download_mip_map ∷ gr_tex_download_mip_map_level ∷ gr_tex_download_mip_map_level_partial
    ∷ gu_tex_download_mip_map ∷ gu_tex_download_mip_map_level ∷ []

unfoldable pub grf_enum_args_cnt : ℕ → Option ℕ
unfolding get_num_args sym
grf_enum_args_cnt fenum = elim (get_num_args (sym fenum)) [
  | none ↦ none
  | some val ↦ some (if is_in downloads fenum then val + 1 else val)
]

unfoldable pub tex_table_valid : ℕ → Bool
tex_table_valid format = is_in (0x1 ∷ 0x9 ∷ 0x5 ∷ 0xe ∷ []) format
