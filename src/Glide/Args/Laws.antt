-- ===== src/Glide/Args/Laws.antt =====
-- glidept_mm.c and glide2x_impl.c: the pointers that processArgs sets are those that doGlideFunc
-- passes on.
use qemu_win.Prelude.{
  ℕ, ◌<◌, ◌≡◌, refl, Bool, true, false, ◌&&◌, Option, none, some, List, [], ◌∷◌, all_below,
  all_below_lem,
}
use qemu_win.Glide.Symbols.Laws.{func_enum_max}
use qemu_win.Glide.Dispatch.Forms.{Arg, arg, parg, farg}
use qemu_win.Glide.Dispatch.{library_calls}
use qemu_win.Glide.Args.State.{Ptr, GlidePt, Host}
use qemu_win.Glide.Args.{process_args}

pub is_set : Option Ptr → Bool
is_set none = false
is_set (some p) = true

-- every `parg[i]` among the arguments is set
pub are_set : (ℕ → Option Ptr) → List Arg → Bool
unfolding is_set
are_set ptrs [] = true
are_set ptrs (arg i ∷ args) = are_set ptrs args
are_set ptrs (parg i ∷ args) = is_set (ptrs i) && are_set ptrs args
are_set ptrs (farg i ∷ args) = are_set ptrs args

pub all_set : (ℕ → Option Ptr) → List (List Arg) → Bool
unfolding are_set
all_set ptrs [] = true
all_set ptrs (c ∷ cs) = are_set ptrs c && all_set ptrs cs

module _ (host : Host) (s : GlidePt) where
  prepared : Bool → Bool → ℕ → Bool
  unfolding process_args library_calls all_set
  prepared emu hidden f =
      let t =
        process_args host (record s { fenum = f; lfb_dev = record s.lfb_dev { emu211 = emu } }) in
      all_set t.parg (library_calls emu hidden t.fenum)

  all_prepared : (emu hidden : Bool) → all_below (prepared emu hidden) func_enum_max ≡ true
  unfolding prepared
  all_prepared true true = refl
  all_prepared true false = refl
  all_prepared false true = refl
  all_prepared false false = refl

  -- For every function of the table, with or without the emulation of Glide 2.11, whatever the
  -- arguments are, each pointer that the library gets as an argument is one that processArgs has set
  -- for this call, not one that an earlier call left.
  pub process_args-all_set :
      (hidden : Bool)
      → s.fenum < func_enum_max
      → all_set
          (process_args host s).parg
          (library_calls s.lfb_dev.emu211 hidden (process_args host s).fenum)
        ≡ true
  unfolding prepared
  process_args-all_set hidden lt =
      all_below_lem (prepared s.lfb_dev.emu211 hidden) func_enum_max s.fenum
        (all_prepared s.lfb_dev.emu211 hidden) lt
