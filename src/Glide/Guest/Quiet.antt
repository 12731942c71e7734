-- ===== src/Glide/Guest/Quiet.antt =====
-- The wrappers that push nothing: the host takes nothing from the data for them.
use qemu_win.Prelude.{
  ℕ, zero, suc, ◌+◌, ◌<◌, ◌≡◌, refl, Bool, true, false, ◌&&◌, Option, none, some, List, [], ◌∷◌,
  ◌++◌, arith, ◌==◌, update, length, get_or,
}
use qemu_win.Fifo.Defs.{num_data}
use qemu_win.Glide.Symbols.{grf_enum_args_cnt}
use qemu_win.Glide.Args.State.{GlidePt, Host}
use qemu_win.Glide.Args.{process_args}
use qemu_win.Glide.Guest.Ops.{
  Op, grfunc, call, Args, Env, Statics, stores, Plain, queued, direct, plain,
}
use qemu_win.Glide.Guest.Plain.{plain_wrappers}
use qemu_win.Glide.Guest.Synced.{host_words, Synced}

-- what `n` stores leave in the argument area
unfoldable pub stored : ℕ → ℕ → Args → (ℕ → ℕ) → ℕ → ℕ
stored zero i a pt = pt
stored (suc n) i a pt = stored n (i + 1) a (update pt (i + 1) (a i))

module _ (word : ℕ → ℕ) (host : Host) (s : GlidePt) where
  pub Synced-stores :
      (n i : ℕ) (a : Args) (ops : List Op) (pt : ℕ → ℕ) (sent first : ℕ)
      → Synced word host s ops (stored n i a pt) sent first
      → Synced word host s (stores n i a ++ ops) pt sent first
  unfolding stored
  Synced-stores zero i a ops pt sent first h = h
  Synced-stores (suc n) i a ops pt sent first h =
      Synced-stores n (i + 1) a ops (update pt (i + 1) (a i)) sent first h

is_count : Option ℕ → ℕ → Bool
is_count none n = false
is_count (some m) n = m == n

is_count-some : (o : Option ℕ) (n : ℕ) → is_count o n ≡ true → o ≡ some n
unfolding is_count
is_count-some none n h = ground arith
is_count-some (some m) n h = ground arith

and_left : (b c : Bool) → (b && c) ≡ true → b ≡ true
and_left b c h = ground arith

and_right : (b c : Bool) → (b && c) ≡ true → c ≡ true
and_right b c h = ground arith

zero_of : (n : ℕ) → (n == 0) ≡ true → 0 ≡ n
zero_of n h = ground arith

module _ (host : Host) (s : GlidePt) (first : ℕ) (pt : ℕ → ℕ) where
  quiet : Plain → Bool
  unfolding is_count host_words process_args grf_enum_args_cnt
  quiet (queued f n) = is_count (grf_enum_args_cnt f) n && (host_words host s f first pt == 0)
  quiet (direct f n) = host_words host s f first pt == 0

  all_quiet : List Plain → Bool
  unfolding quiet
  all_quiet [] = true
  all_quiet (p ∷ ps) = quiet p && all_quiet ps

  plain_all_quiet : all_quiet plain_wrappers ≡ true
  unfolding all_quiet plain_wrappers num_data
  plain_all_quiet = refl

module _ (host : Host) (s : GlidePt) where
  quiet_get :
      (first : ℕ) (pt : ℕ → ℕ) (ps : List Plain) (k : ℕ) (d : Plain)
      → all_quiet host s first pt ps ≡ true
      → k < length ps
      → quiet host s first pt (get_or ps k d) ≡ true
  unfolding all_quiet
  quiet_get first pt [] k d h lt = ground arith
  quiet_get first pt (p ∷ ps) zero d h lt = ground arith
  quiet_get first pt (p ∷ ps) (suc k) d h lt =
      quiet_get first pt ps k d (ground arith) (omega arith)

  quiet_count :
      (f n first : ℕ) (pt : ℕ → ℕ)
      → quiet host s first pt (queued f n) ≡ true
      → grf_enum_args_cnt f ≡ some n
  unfolding quiet
  quiet_count f n first pt h = is_count-some (grf_enum_args_cnt f) n (and_left _ _ h)

  quiet-queued :
      (f n first : ℕ) (pt : ℕ → ℕ)
      → quiet host s first pt (queued f n) ≡ true
      → 0 ≡ host_words host s f first pt
  unfolding quiet
  quiet-queued f n first pt h = zero_of _ (and_right _ _ h)

  quiet-direct :
      (f n first : ℕ) (pt : ℕ → ℕ)
      → quiet host s first pt (direct f n) ≡ true
      → 0 ≡ host_words host s f first pt
  unfolding quiet
  quiet-direct f n first pt h = zero_of _ h

  plain-Synced :
      (word : ℕ → ℕ) (g : Statics) (env : Env) (a : Args) (first : ℕ) (pt : ℕ → ℕ) (p : Plain)
      → ((pt : ℕ → ℕ) → quiet host s first pt p ≡ true)
      → Synced word host s (plain p g env a) pt 0 first
  unfolding plain
  plain-Synced word g env a first pt (queued f n) h =
      Synced-stores word host s n 0 a (grfunc f n ∷ []) pt 0 first
        (quiet_count f n first pt (h pt), quiet-queued f n first _ (h _), refl)
  plain-Synced word g env a first pt (direct f n) h =
      Synced-stores word host s n 0 a (call f ∷ []) pt 0 first
        (quiet-direct f n first _ (h _), refl)

  pub plain_wrappers-Synced :
      (word : ℕ → ℕ) (g : Statics) (env : Env) (a : Args) (first : ℕ) (pt : ℕ → ℕ) (k : ℕ)
      (d : Plain)
      → k < length plain_wrappers
      → Synced word host s (plain (get_or plain_wrappers k d) g env a) pt 0 first
  plain_wrappers-Synced word g env a first pt k d lt =
      plain-Synced word g env a first pt (get_or plain_wrappers k d)
        (λ q. quiet_get first q plain_wrappers k d (plain_all_quiet host s first q) lt)
