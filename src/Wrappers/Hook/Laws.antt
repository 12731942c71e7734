-- ===== src/Wrappers/Hook/Laws.antt =====
-- fxhook.c: what HookPatchTimer changes, HookEntryHook puts back.
use qemu_win.Prelude.{
  ℕ, ◌+◌, ◌*◌, ◌/◌, ◌≤◌, ◌≡◌, ◌≢◌, refl, inl, inr, Bool, true, false, ◌&&◌, List, [], ◌∷◌, arith,
  ◌==◌, ◌!=◌, if◌then◌else◌, length,
}
use qemu_win.Wrappers.Hook.{
  Words, Hooks, max_hook_entry, restore, hook_entry_hook, patch_loop, hook_patch_timer,
}
use qemu_win.Wrappers.Hook.Patch.{IsProc, Undoes, Patched, left, patch_loop-Patched}

-- the arguments of a call of HookPatchTimer
pub record Page : Type 0 where
  pub start : ℕ
  pub iat : ℕ
  pub range : ℕ

module _ (writable protect : ℕ → Bool) (ok : (p : ℕ) → writable p ≡ true)
    (time_proc perf_proc hk_time hk_perf : ℕ) where
  -- several calls, one after the other
  unfoldable pub patch_pages : List Page → Hooks → Hooks
  patch_pages [] h = h
  patch_pages (p ∷ ps) h = patch_pages ps (
      hook_patch_timer writable time_proc perf_proc hk_time hk_perf protect p.start p.iat p.range h)

  module _ (m0 : Words)
      (free_time : hk_time ≢ 0 → ¬ IsProc writable ok time_proc perf_proc m0 hk_time)
      (free_perf : hk_perf ≢ 0 → ¬ IsProc writable ok time_proc perf_proc m0 hk_perf) where
    left_le : (hk : ℕ) → left writable ok time_proc perf_proc m0 hk ≤ 1
    unfolding left
    left_le hk = ground arith

    page_if :
        (n iat limit : ℕ) (h : Hooks) (b test : Bool)
        → Undoes writable ok time_proc perf_proc m0 h
        → (test ≡ true → iat ≢ 0)
        → length h.tbl + 2 ≤ limit
        → limit ≤ max_hook_entry
        → test ≡ b
        → Patched writable ok time_proc perf_proc m0 limit
            (if b then patch_loop writable time_proc perf_proc n iat hk_time hk_perf h else h)
    unfolding Patched
    page_if n iat limit h true test u ne room le t =
        patch_loop-Patched writable ok time_proc perf_proc m0 n iat hk_time hk_perf limit h u (ne t)
          free_time free_perf (omega (arith, left_le hk_time, left_le hk_perf)) le
    page_if n iat limit h false test u ne room le t = (u, omega arith)

    one_page :
        (p : Page) (limit : ℕ) (h : Hooks)
        → Undoes writable ok time_proc perf_proc m0 h
        → length h.tbl + 2 ≤ limit
        → limit ≤ max_hook_entry
        → Patched writable ok time_proc perf_proc m0 limit (
            hook_patch_timer writable time_proc perf_proc hk_time hk_perf protect p.start p.iat
              p.range h)
    unfolding hook_patch_timer
    one_page p limit h u room le =
        page_if (p.range / 4) p.iat limit h _ (p.start != 0 && (p.start == p.iat && protect p.iat))
          u (λ t. ground arith) room le refl

    all_pages :
        (ps : List Page) (h : Hooks)
        → Undoes writable ok time_proc perf_proc m0 h
        → length h.tbl + 2 * length ps ≤ max_hook_entry
        → Undoes writable ok time_proc perf_proc m0 (patch_pages ps h)
    unfolding patch_pages Patched
    all_pages [] h u room = u
    all_pages (p ∷ ps) h u room =
        let r = one_page p (length h.tbl + 2) h u (omega arith) (omega arith) in
        all_pages ps _ r.0 (omega (arith, r.1))

  start-Undoes :
      (m0 : Words) → Undoes writable ok time_proc perf_proc m0 record { mem = m0; tbl = [] }
  unfolding restore
  start-Undoes m0 = record { undone = λ k. refl; hooked = tt }

  free_of :
      (m0 : Words) (hk : ℕ)
      → hk ≢ time_proc
      → hk ≢ perf_proc
      → hk ≢ 0
      → ¬ IsProc writable ok time_proc perf_proc m0 hk
  unfolding IsProc
  free_of m0 hk nt np nz = λ p. elim p [ inl e ↦ nt e | inr e ↦ np e ]

  -- If pages can be written after VirtualProtect and the two functions that are looked for are not
  -- the hooks: after up to four calls of `HookPatchTimer` that start with an empty table,
  -- `HookEntryHook` with two zeros puts every word of the memory back as it was before, and empties
  -- the table.
  pub hook_entry_hook-patch_pages :
      (m0 : Words) (ps : List Page) (k : ℕ)
      → hk_time ≢ time_proc
      → hk_time ≢ perf_proc
      → hk_perf ≢ time_proc
      → hk_perf ≢ perf_proc
      → length ps ≤ 4
      → ((hook_entry_hook writable 0 0 (patch_pages ps record { mem = m0; tbl = [] })).mem k ≡ m0 k)
        × ((hook_entry_hook writable 0 0 (patch_pages ps record { mem = m0; tbl = [] })).tbl ≡ [])
  unfolding hook_entry_hook
  hook_entry_hook-patch_pages m0 ps k tt' tp pt pp few =
      let u =
        all_pages m0 (free_of m0 hk_time tt' tp) (free_of m0 hk_perf pt pp) ps
          record { mem = m0; tbl = [] } (start-Undoes m0) (omega arith) in
      (u.undone k, refl)
