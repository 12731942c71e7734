-- ===== src/Glide/Dispatch.antt =====
-- glide2x_impl.c: doGlideFunc, from the number of a function to the calls of the Glide library. A
-- call is the list of its arguments; the library and its results are not modelled.
pub mod Forms
mod Laws
mod Gate
mod Tests
use qemu_win.Prelude.{
  ℕ, zero, suc, ◌+◌, Bool, true, false, ◌&&◌, Option, none, some, List, [], ◌∷◌, ◌++◌, ◌==◌, ◌!=◌,
  leb, if◌then◌else◌, is_in, bit_and,
}
use qemu_win.Glide.FEnum.{
  gr_glide_get_version, gr_glide_init, gr_glide_shutdown, gr_lfb_lock, gr_lfb_unlock,
  gr_sst_control, gr_sst_query_boards, gr_sst_query_hardware, gr_sst_select, gr_sst_win_close,
  gr_sst_win_open, gr_lfb_begin, gr_lfb_bypass_mode, gr_lfb_end, gr_lfb_get_read_ptr,
  gr_lfb_get_write_ptr, gr_lfb_origin, gr_lfb_write_mode, gr_sst_open, gr_sst_passthru_mode,
  gu_fb_read_region, gu_fb_write_region, gr_splash0, gr_get, gr_sst_win_close3x,
  gr_sst_win_open_ext,
}
use qemu_win.Glide.Symbols.{get_num_args, sym}
use Forms.{Arg, arg, parg, farg, Form, forms_int, forms_float}

-- what the library answers before grGlideInit
abbrev pub early_calls : List ℕ
early_calls =
    gr_get ∷ gr_glide_get_version ∷ gr_glide_init ∷ gr_sst_control ∷ gr_sst_query_boards
    ∷ gr_sst_query_hardware ∷ gr_sst_select ∷ []

-- the functions of Glide 2.11 that the host emulates
abbrev pub lfb_calls : List ℕ
lfb_calls =
    gr_lfb_begin ∷ gr_lfb_end ∷ gr_lfb_origin ∷ gr_lfb_write_mode ∷ gr_lfb_bypass_mode
    ∷ gr_lfb_get_read_ptr ∷ gr_lfb_get_write_ptr ∷ gr_sst_passthru_mode ∷ gr_splash0 ∷ []

abbrev pub window_calls : List ℕ
window_calls =
    gr_sst_open ∷ gr_sst_win_close3x ∷ gr_sst_win_close ∷ gr_sst_win_open ∷ gr_sst_win_open_ext ∷ []

abbrev pub fb_calls : List ℕ
fb_calls = gu_fb_read_region ∷ gu_fb_write_region ∷ []

-- the state of `glidePostInit` after the first test, and whether the call goes on
unfoldable pub post_init_test : Bool → ℕ → Bool × Bool
post_init_test true fenum = (true, true)
post_init_test false fenum =
    if is_in early_calls fenum then (fenum == gr_glide_init, true) else (false, false)

-- the first part, up to the calls: `glidePostInit`, and whether the function is called. `ptr` holds
-- the addresses in the library, 0 for a function that it lacks.
unfoldable pub gate : (ℕ → ℕ) → Bool → Bool → ℕ → Bool × Bool
unfolding post_init_test
gate ptr emu211 post_init fenum =
    let (post_init', on) = post_init_test post_init fenum in
    if on
    then (
      if fenum == gr_glide_shutdown then false else post_init',
      if is_in lfb_calls fenum && emu211 then true else ptr fenum != 0,
    )
    else (post_init', false)

-- the argument count after the gate; `none` is -1
unfoldable pub gate_args : Bool → ℕ → Option ℕ
unfolding get_num_args sym
gate_args emu211 fenum = if is_in lfb_calls fenum && emu211 then none else get_num_args (sym fenum)

unfoldable pub find_form : List Form → ℕ → Option (List Arg)
find_form [] fenum = none
find_form ((labels, args) ∷ forms) fenum =
    let rest = find_form forms fenum in if is_in labels fenum then some args else rest

-- `hidden` is `arg[1] & 0x80U`. The calls of the first switch, and the count for the second one.
unfoldable pub first_switch : Bool → ℕ → Option ℕ → List (List Arg) × Option ℕ
unfolding find_form forms_int forms_float
first_switch hidden fenum num_args =
    if is_in window_calls fenum
    then ([], none)
    else if is_in fb_calls fenum
    then ((arg 0 ∷ arg 1 ∷ arg 2 ∷ arg 3 ∷ parg 0 ∷ arg 5 ∷ []) ∷ [], num_args)
    else if fenum == gr_lfb_lock
    then (if hidden
        then ([], none)
        else ((arg 0 ∷ arg 1 ∷ arg 2 ∷ arg 3 ∷ arg 4 ∷ parg 1 ∷ []) ∷ [], none))
    else if fenum == gr_lfb_unlock
    then (if hidden then ([], none) else ([], num_args))
    else elim (find_form (forms_int ++ forms_float) fenum) [
      | some args ↦ (args ∷ [], none)
      | none ↦ ([], num_args)
    ]

-- `arg[i]` for i from the first number on
unfoldable pub args_from : ℕ → ℕ → List Arg
args_from i zero = []
args_from i (suc n) = arg i ∷ args_from (i + 1) n

-- the second switch, which has a case for every count up to 16
unfoldable pub second_switch : Option ℕ → List (List Arg)
unfolding args_from
second_switch none = []
second_switch (some n) = if leb n 16 then args_from 0 n ∷ [] else []

-- the calls of the library
unfoldable pub library_calls : Bool → Bool → ℕ → List (List Arg)
unfolding first_switch second_switch gate_args
library_calls emu211 hidden fenum =
    let (calls, num_args) = first_switch hidden fenum (gate_args emu211 fenum) in
    calls ++ second_switch num_args

-- `arg1` is `arg[1]`. The result is `glidePostInit`, the calls, and `arg[1]`, which the case of
-- grLfbLock or grLfbUnlock clears.
unfoldable pub do_glide_func : (ℕ → ℕ) → Bool → Bool → ℕ → ℕ → Bool × List (List Arg) × ℕ
unfolding gate library_calls
do_glide_func ptr emu211 post_init fenum arg1 =
    let (post_init', on) = gate ptr emu211 post_init fenum in
    let hidden = bit_and arg1 0x80 != 0 in
    if on
    then (
      post_init',
      library_calls emu211 hidden fenum,
      if is_in (gr_lfb_lock ∷ gr_lfb_unlock ∷ []) fenum && hidden then bit_and arg1 0x0f else arg1,
    )
    else (post_init', [], arg1)
