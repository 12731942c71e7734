-- ===== src/Mesa/Symbols.antt =====
-- mesagl_impl.c: the table of decorated names and GLFEnumArgsCnt.
mod Lower
mod Upper
use qemu_win.Prelude.{ℕ, zero, suc, ◌/◌, ◌%◌, List, [], ◌∷◌, get_or}
use Lower.{
  bytes_0, bytes_128, bytes_256, bytes_384, bytes_512, bytes_640, bytes_768, bytes_896, bytes_1024,
  bytes_1152, bytes_1280, bytes_1408,
}
use Upper.{
  bytes_1536, bytes_1664, bytes_1792, bytes_1920, bytes_2048, bytes_2176, bytes_2304, bytes_2432,
  bytes_2560, bytes_2688, bytes_2816, bytes_2944,
}

-- `tblMesaGL` in pieces of 128 rows; of a row, the number after the `@` of its name
unfoldable pub tbl_mesa_gl : List (List ℕ)
unfolding bytes_0 bytes_128 bytes_256 bytes_384 bytes_512 bytes_640 bytes_768 bytes_896 bytes_1024
    bytes_1152 bytes_1280 bytes_1408 bytes_1536 bytes_1664 bytes_1792 bytes_1920 bytes_2048
    bytes_2176 bytes_2304 bytes_2432 bytes_2560 bytes_2688 bytes_2816 bytes_2944
tbl_mesa_gl =
    bytes_0 ∷ bytes_128 ∷ bytes_256 ∷ bytes_384 ∷ bytes_512 ∷ bytes_640 ∷ bytes_768 ∷ bytes_896
    ∷ bytes_1024 ∷ bytes_1152 ∷ bytes_1280 ∷ bytes_1408 ∷ bytes_1536 ∷ bytes_1664 ∷ bytes_1792
    ∷ bytes_1920 ∷ bytes_2048 ∷ bytes_2176 ∷ bytes_2304 ∷ bytes_2432 ∷ bytes_2560 ∷ bytes_2688
    ∷ bytes_2816 ∷ bytes_2944 ∷ []

-- beyond the table, zero
unfoldable pub sym_bytes : ℕ → ℕ
unfolding tbl_mesa_gl
sym_bytes fenum = get_or (get_or tbl_mesa_gl (fenum / 128) []) (fenum % 128) 0

unfoldable pub glf_enum_args_cnt : ℕ → ℕ
unfolding sym_bytes
glf_enum_args_cnt fenum = sym_bytes fenum / 4
