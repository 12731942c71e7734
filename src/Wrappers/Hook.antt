-- ===== src/Wrappers/Hook.antt =====
-- fxhook.c: HookEntryHook and HookPatchTimer, which replace words in the import tables of the guest
-- program and put them back. Addresses are those of 32-bit words.
mod Undo
mod Patch
mod Laws
mod Tests
use qemu_win.Prelude.{
  ℕ, zero, suc, ◌+◌, ◌/◌, Bool, ◌&&◌, List, [], ◌∷◌, ◌++◌, ◌==◌, ◌!=◌, ltb, if◌then◌else◌, length,
  update,
}

-- the guest's memory, by the address of a word
abbrev pub Words : Type 0
Words = ℕ → ℕ

-- the memory, and the first `nhook` records of HookTbl: the patched address and the word before
pub record Hooks : Type 0 where
  pub mem : Words
  pub tbl : List (ℕ × ℕ)

abbrev pub max_hook_entry : ℕ
max_hook_entry = 8

-- `writable` is the negation of IsBadWritePtr, after VirtualProtect
unfoldable pub restore : (ℕ → Bool) → List (ℕ × ℕ) → Words → Words
restore writable [] m = m
restore writable ((patch, word) ∷ tbl) m =
    restore writable tbl (if writable patch then update m patch word else m)

unfoldable pub hook_entry_hook : (ℕ → Bool) → ℕ → ℕ → Hooks → Hooks
hook_entry_hook writable patch orig h =
    let t =
      if patch != 0 && (orig != 0 && ltb (length h.tbl) max_hook_entry)
      then h.tbl ++ (patch, orig) ∷ []
      else h.tbl in
    if patch == 0 && orig == 0
    then record { mem = restore writable t h.mem; tbl = [] }
    else record { mem = h.mem; tbl = t }

-- one of the two `if`s of the loop: `hk` is the address looked for, 0 once it has been found
unfoldable pub hook_word : (ℕ → Bool) → ℕ → ℕ → ℕ → Hooks → ℕ × Hooks
hook_word writable proc addr hk h =
    let h' = hook_entry_hook writable addr (h.mem addr) h in
    if hk != 0 && hk == h.mem addr
    then (0, record h' { mem = update h'.mem addr proc })
    else (hk, h)

module _ (writable : ℕ → Bool) (time_proc perf_proc : ℕ) where
  -- the loop, from the address on, with n rounds left
  unfoldable pub patch_loop : ℕ → ℕ → ℕ → ℕ → Hooks → Hooks
  patch_loop zero addr hk_time hk_perf h = h
  patch_loop (suc n) addr hk_time hk_perf h =
      let (hk_time', h1) = hook_word writable time_proc addr hk_time h in
      let (hk_perf', h2) = hook_word writable perf_proc addr hk_perf h1 in
      let rest = patch_loop n (addr + 4) hk_time' hk_perf' h2 in
      if hk_time' == 0 && hk_perf' == 0 then h2 else rest

  -- `hk_time` and `hk_perf` are what GetProcAddress returns, `protect` what VirtualProtect does
  unfoldable pub hook_patch_timer : ℕ → ℕ → (ℕ → Bool) → ℕ → ℕ → ℕ → Hooks → Hooks
  hook_patch_timer hk_time hk_perf protect start iat range h =
      if start != 0 && (start == iat && protect iat)
      then patch_loop (range / 4) iat hk_time hk_perf h
      else h
