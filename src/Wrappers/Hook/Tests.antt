-- ===== src/Wrappers/Hook/Tests.antt =====
-- A page of four words, with both functions in it.
use qemu_win.Prelude.{ℕ, ◌≡◌, refl, Bool, true, List, [], ◌∷◌, arith, get_or, ◌-◌, ◌/◌}
use qemu_win.Wrappers.Hook.{Words, Hooks, hook_entry_hook, hook_patch_timer, hook_word, patch_loop}
use qemu_win.Wrappers.Hook.Laws.{Page, patch_pages, hook_entry_hook-patch_pages}

abbrev always : ℕ → Bool
always p = true

abbrev a_page : Words
a_page k = get_or (0x11 ∷ 0x7000 ∷ 0x22 ∷ 0x8000 ∷ []) ((k - 0x1000) / 4) 0

abbrev pages : List Page
pages = record { start = 0x1000; iat = 0x1000; range = 16 } ∷ []

abbrev patched : Hooks
patched =
    patch_pages always always (λ p. refl) 0x500 0x600 0x8000 0x7000 pages
      record { mem = a_page; tbl = [] }

patched_time : patched.mem 0x100c ≡ 0x500
unfolding patch_pages hook_patch_timer patch_loop hook_word hook_entry_hook
patched_time = refl

patched_perf : patched.mem 0x1004 ≡ 0x600
unfolding patch_pages hook_patch_timer patch_loop hook_word hook_entry_hook
patched_perf = refl

hook_entry_hook-patch_pages_example :
    ((hook_entry_hook always 0 0 patched).mem 0x100c ≡ a_page 0x100c)
    × ((hook_entry_hook always 0 0 patched).tbl ≡ [])
hook_entry_hook-patch_pages_example =
    hook_entry_hook-patch_pages always always (λ p. refl) 0x500 0x600 0x8000 0x7000 a_page pages
      0x100c (omega arith) (omega arith) (omega arith) (omega arith) (omega arith)
