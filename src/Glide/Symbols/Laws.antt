-- ===== src/Glide/Symbols/Laws.antt =====
-- glide2x_impl.c: the argument counts of the whole table.
use qemu_win.Prelude.{
  ℕ, ◌≤◌, ◌<◌, ◌≡◌, refl, Bool, true, false, Option, none, some, arith, leb, all_below,
  all_below_lem,
}
use qemu_win.Glide.Symbols.{grf_enum_args_cnt, get_num_args, sym, tbl_glide2x, atoi}

-- zzG2xFuncEnum_max
abbrev pub func_enum_max : ℕ
func_enum_max = 189

unfoldable few : Option ℕ → Bool
few none = false
few (some n) = leb n 22

all_few : all_below (λ f. few (grf_enum_args_cnt f)) func_enum_max ≡ true
unfolding few grf_enum_args_cnt get_num_args sym tbl_glide2x atoi
all_few = refl

few-some : (o : Option ℕ) → few o ≡ true → (n : ℕ) × (o ≡ some n) × (n ≤ 22)
unfolding few
few-some none h = ground arith
few-some (some n) h = (n, refl, ground arith)

-- Every function of the table has an argument count, and it is at most 22, the number of argument
-- words that precede the call queue.
pub grf_enum_args_cnt_le :
    (fenum : ℕ) → fenum < func_enum_max → (n : ℕ) × (grf_enum_args_cnt fenum ≡ some n) × (n ≤ 22)
grf_enum_args_cnt_le fenum lt =
    few-some (grf_enum_args_cnt fenum)
      (all_below_lem (λ f. few (grf_enum_args_cnt f)) func_enum_max fenum all_few lt)
