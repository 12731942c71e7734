-- ===== src/Wrappers/Hook/Patch.antt =====
-- fxhook.c: HookPatchTimer records what it changes.
use qemu_win.Prelude.{
  ℕ, zero, suc, ◌+◌, ◌≤◌, ◌<◌, ◌≡◌, ◌≢◌, refl, sym, ◌∙◌, ◌⊎◌, inl, inr, Bool, true, false, ◌&&◌,
  List, [], ◌∷◌, ◌++◌, arith, ◌==◌, ◌!=◌, if◌then◌else◌, length, length-append, update, All,
  All-append, lt→ltb, ==_refl, subst,
}
use qemu_win.Wrappers.Hook.{
  Words, Hooks, max_hook_entry, restore, hook_entry_hook, hook_word, patch_loop,
}
use qemu_win.Wrappers.Hook.Undo.{restore-snoc, restore-local, restore-out}

==→≡ : (a b : ℕ) → (a == b) ≡ true → a ≡ b
==→≡ a b h = ground arith

module _ (writable : ℕ → Bool) (ok : (p : ℕ) → writable p ≡ true) (time_proc perf_proc : ℕ)
    (m0 : Words) where
  unfoldable pub IsProc : ℕ → Type 0
  IsProc x = (x ≡ time_proc) ⊎ (x ≡ perf_proc)

  -- the records restore the memory `m0`, and each recorded word holds one of the two hooks
  pub record Undoes (h : Hooks) : Type 0 where
    pub undone : (k : ℕ) → restore writable h.tbl h.mem k ≡ m0 k
    pub hooked : All (λ r. IsProc (h.mem r.0)) h.tbl

  new_entry :
      (m : Words) (a : ℕ) (tbl : List (ℕ × ℕ))
      → ¬ IsProc (m a)
      → All (λ r. IsProc (m r.0)) tbl
      → All (λ r. r.0 ≢ a) tbl
  new_entry m a [] free h = tt
  new_entry m a ((p, d) ∷ tbl) free h =
      ((λ e. free (subst (λ k. IsProc (m k)) e h.0)), new_entry m a tbl free h.1)

  IsProc-if : (b : Bool) (x y : ℕ) → IsProc x → IsProc y → IsProc (if b then x else y)
  IsProc-if true x y hx hy = hx
  IsProc-if false x y hx hy = hy

  still_hooked :
      (m : Words) (a x : ℕ) (tbl : List (ℕ × ℕ))
      → IsProc x
      → All (λ r. IsProc (m r.0)) tbl
      → All (λ r. IsProc (update m a x r.0)) tbl
  still_hooked m a x [] px h = tt
  still_hooked m a x ((p, d) ∷ tbl) px h =
      (IsProc-if (a == p) x (m p) px h.0, still_hooked m a x tbl px h.1)

  undone_at :
      (m : Words) (tbl : List (ℕ × ℕ)) (a x k : ℕ) (b : Bool)
      → Undoes record { mem = m; tbl = tbl }
      → ¬ IsProc (m a)
      → (a == k) ≡ b
      → (if b then m a else restore writable tbl (update m a x) k) ≡ m0 k
  undone_at m tbl a x k true u free h =
      let out = restore-out writable ok tbl m a (new_entry m a tbl free u.hooked) in
      subst (λ j. m a ≡ m0 j) (==→≡ a k h) (sym out ∙ u.undone a)
  undone_at m tbl a x k false u free h =
      restore-local writable ok tbl (update m a x) m k (rw h refl) ∙ u.undone k

  -- a word that holds none of the hooks is replaced and recorded
  Undoes-patch :
      (m : Words) (tbl : List (ℕ × ℕ)) (a x : ℕ)
      → Undoes record { mem = m; tbl = tbl }
      → ¬ IsProc (m a)
      → IsProc x
      → Undoes record { mem = update m a x; tbl = tbl ++ (a, m a) ∷ [] }
  Undoes-patch m tbl a x u free px = record {
    undone = λ k.
        restore-snoc writable ok tbl a (m a) (update m a x) k
        ∙ undone_at m tbl a x k (a == k) u free refl;
    hooked =
        All-append (λ r. IsProc (update m a x r.0)) tbl _ (still_hooked m a x tbl px u.hooked)
          (rw (==_refl a) px, tt);
  }

  hook_entry_hook-records :
      (addr orig : ℕ) (h : Hooks)
      → addr ≢ 0
      → orig ≢ 0
      → length h.tbl < max_hook_entry
      → hook_entry_hook writable addr orig h
        ≡ record { mem = h.mem; tbl = h.tbl ++ (addr, orig) ∷ [] }
  unfolding hook_entry_hook
  hook_entry_hook-records addr orig h na no_orig room =
      let a : (addr != 0) ≡ true = ground arith in
      let a' : (addr == 0) ≡ false = ground arith in
      let o : (orig != 0) ≡ true = ground arith in
      rw (a, a', o, lt→ltb (length h.tbl) max_hook_entry room) refl

  -- how many of the functions are still looked for
  unfoldable pub left : ℕ → ℕ
  left hk = if hk == 0 then 0 else 1

  left_one : (hk : ℕ) → hk ≢ 0 → left hk ≡ 1
  unfolding left
  left_one hk nz = ground arith

  -- what one of the two tests of a round does to the address looked for and to the state
  record Step (hk : ℕ) (h : Hooks) (r : ℕ × Hooks) : Type 0 where
    kept : Undoes r.1
    fewer : length r.1.tbl + left r.0 ≤ length h.tbl + left hk
    found : (r.0 ≡ 0) ⊎ (r.0 ≡ hk)

  hook_word_if :
      (proc addr hk : ℕ) (h : Hooks) (b : Bool)
      → IsProc proc
      → Undoes h
      → addr ≢ 0
      → (hk ≢ 0 → ¬ IsProc hk)
      → length h.tbl + left hk ≤ max_hook_entry
      → (hk != 0 && hk == h.mem addr) ≡ b
      → Step hk h (
          if b
          then (
            0,
            record (hook_entry_hook writable addr (h.mem addr) h) {
              mem = update (hook_entry_hook writable addr (h.mem addr) h).mem addr proc;
            },
          )
          else (hk, h))
  unfolding left
  hook_word_if proc addr hk h false is_proc u ne free room t = record {
    kept = u;
    fewer = omega arith;
    found = inr refl;
  }
  hook_word_if proc addr hk h true is_proc u ne free room t =
      let e : hk ≡ h.mem addr = ground arith in
      let nz : hk ≢ 0 = ground arith in
      let r = hook_entry_hook-records addr (h.mem addr) h ne (omega (arith, e)) (ground arith) in
      rw r record {
        kept = Undoes-patch h.mem h.tbl addr proc u (subst (λ v. ¬ IsProc v) e (free nz)) is_proc;
        fewer = omega (arith, length-append h.tbl ((addr, h.mem addr) ∷ []), left_one hk nz);
        found = inl refl;
      }

  hook_word-Step :
      (proc addr hk : ℕ) (h : Hooks)
      → IsProc proc
      → Undoes h
      → addr ≢ 0
      → (hk ≢ 0 → ¬ IsProc hk)
      → length h.tbl + left hk ≤ max_hook_entry
      → Step hk h (hook_word writable proc addr hk h)
  unfolding hook_word
  hook_word-Step proc addr hk h is_proc u ne free room =
      hook_word_if proc addr hk h (hk != 0 && hk == h.mem addr) is_proc u ne free room refl

  -- what has been found is not looked for any more
  still_free :
      (hk hk' : ℕ) → (hk' ≡ 0) ⊎ (hk' ≡ hk) → (hk ≢ 0 → ¬ IsProc hk) → hk' ≢ 0 → ¬ IsProc hk'
  still_free hk hk' (inl z) free nz = λ p. nz z
  still_free hk hk' (inr e) free nz = subst (λ v. v ≢ 0 → ¬ IsProc v) (sym e) free nz

  unfoldable pub Patched : ℕ → Hooks → Type 0
  Patched n h = Undoes h × (length h.tbl ≤ n)

  Patched-if :
      (b : Bool) (n : ℕ) (g h : Hooks) → Patched n g → Patched n h → Patched n (if b then g else h)
  Patched-if true n g h pg ph = pg
  Patched-if false n g h pg ph = ph

  pub patch_loop-Patched :
      (n addr hk_time hk_perf limit : ℕ) (h : Hooks)
      → Undoes h
      → addr ≢ 0
      → (hk_time ≢ 0 → ¬ IsProc hk_time)
      → (hk_perf ≢ 0 → ¬ IsProc hk_perf)
      → length h.tbl + (left hk_time + left hk_perf) ≤ limit
      → limit ≤ max_hook_entry
      → Patched limit (patch_loop writable time_proc perf_proc n addr hk_time hk_perf h)
  unfolding patch_loop Patched IsProc
  patch_loop-Patched zero addr hk_time hk_perf limit h u ne ft fp room le = (u, omega arith)
  patch_loop-Patched (suc n) addr hk_time hk_perf limit h u ne ft fp room le =
      let r1 = hook_word writable time_proc addr hk_time h in
      let s1 = hook_word-Step time_proc addr hk_time h (inl refl) u ne ft (omega arith) in
      let r2 = hook_word writable perf_proc addr hk_perf r1.1 in
      let s2 =
        hook_word-Step perf_proc addr hk_perf r1.1 (inr refl) s1.kept ne fp
          (omega (arith, s1.fewer)) in
      Patched-if (r1.0 == 0 && r2.0 == 0) limit r2.1 _ (s2.kept, omega (arith, s1.fewer, s2.fewer))
        (patch_loop-Patched n (addr + 4) r1.0 r2.0 limit r2.1 s2.kept (omega arith)
          (still_free hk_time r1.0 s1.found ft) (still_free hk_perf r2.0 s2.found fp)
          (omega (arith, s1.fewer, s2.fewer)) le)
