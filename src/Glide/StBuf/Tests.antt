-- ===== src/Glide/StBuf/Tests.antt =====
-- gllstbuf.c at concrete lists.
use qemu_win.Prelude.{◌≡◌, refl, ◌≢◌, inl, List, [], ◌∷◌, arith}
use qemu_win.Glide.StBuf.{
  LlstBuf, StBufs, lookup_st_buf, free_st_buf, lookup_gr_state, lookup_vtx_layout, free_gr_state,
  free_vtx_layout,
}
use qemu_win.Glide.StBuf.Laws.{
  Request, run, lookup_stable, IsApart, lookup-IsApart, lookup_no_alias,
}

abbrev two : List LlstBuf
two = record { id = 7; sz = 312; st = 4096 } ∷ record { id = 8; sz = 312; st = 8192 } ∷ []

-- the same handle with another size is another buffer
third : lookup_st_buf two 64 7 12288 ≡ (
  12288,
  record { id = 7; sz = 312; st = 4096 }
      ∷ record { id = 8; sz = 312; st = 8192 }
      ∷ record { id = 7; sz = 64; st = 12288 }
      ∷ [],
)
unfolding lookup_st_buf
third = refl

abbrev none_yet : StBufs
none_yet = record { gr_state = []; vtx_layout = two }

gr_state_run : free_gr_state (lookup_gr_state none_yet 7 312 64).1 ≡ (1, none_yet)
unfolding lookup_gr_state free_gr_state free_st_buf lookup_st_buf
gr_state_run = refl

vtx_layout_run : (free_vtx_layout (lookup_vtx_layout none_yet 8 312 64).1).0 ≡ 2
unfolding lookup_vtx_layout free_vtx_layout free_st_buf lookup_st_buf
vtx_layout_run = refl

abbrev later : List Request
later = record { st_size = 64; handle = 7; mem = 12288 } ∷ []

lookup_stable_example :
    lookup_st_buf (run later (lookup_st_buf two 312 8 0).1) 312 8 16384
    ≡ ((lookup_st_buf two 312 8 0).0, run later (lookup_st_buf two 312 8 0).1)
lookup_stable_example = lookup_stable two 312 8 0 16384 later

lookup-IsApart_example : IsApart (lookup_st_buf two 64 7 12288).1
lookup-IsApart_example = lookup-IsApart two 64 7 12288 (omega arith) (omega arith)

lookup_no_alias_example :
    (lookup_st_buf two 64 7 12288).0 ≢ (lookup_st_buf (lookup_st_buf two 64 7 12288).1 64 9 16384).0
unfolding lookup_st_buf
lookup_no_alias_example =
    lookup_no_alias two 64 7 12288 64 9 16384 (omega arith) (omega arith) (omega arith)
      (inl (omega arith))
