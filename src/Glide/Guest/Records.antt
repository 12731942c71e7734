-- ===== src/Glide/Guest/Records.antt =====
-- The table of textures: guTexRecord against guTexSize.
use qemu_win.Prelude.{
  ℕ, ◌-◌, ◌^◌, ◌≤◌, ◌≡◌, inl, inr, refl, Option, none, some, List, [], ◌∷◌, ◌++◌, arith, ltb, ◌==◌,
  ◌!=◌, if◌then◌else◌, length, length-append, Bool-cases,
}
use qemu_win.Glide.Guest.Ops.{Args, Env, GuTexInfo, Statics}
use qemu_win.Glide.Guest.Tex.{max_gutex, find_tex, gu_tex_record, gu_tex_allocate_memory}

-- what a lookup finds when `info` is tried last
unfoldable pub or_else : Option GuTexInfo → GuTexInfo → ℕ → Option GuTexInfo
or_else (some t) info mmid = some t
or_else none info mmid = if info.mmid == mmid then some info else none

find_tex-append :
    (ts : List GuTexInfo) (info : GuTexInfo) (mmid : ℕ)
    → find_tex (ts ++ (info ∷ [])) mmid ≡ or_else (find_tex ts mmid) info mmid
unfolding find_tex or_else
find_tex-append [] info mmid = refl
find_tex-append (t ∷ ts) info mmid = elim (Bool-cases (t.mmid == mmid)) [
  | inl e ↦ rw (e, or_else) refl
  | inr e ↦ rw e (find_tex-append ts info mmid)
]

-- the entry that guTexAllocateMemory makes
pub allocated : Env → Args → GuTexInfo
allocated env a = record { mmid = env.ret; small = a 6; large = a 7; aspect = a 8; format = a 4 }

-- The table holds at most MAX_GUTEX textures.
abbrev pub IsBounded : Statics → Type 0
IsBounded g = length g.gu_tex ≤ max_gutex

-- guTexAllocateMemory keeps the table within its MAX_GUTEX entries, and changes no other variable.
-- While there is room, and the device has not failed, a texture that is looked up afterwards is
-- found as before, and the new one, unless an older entry has its number, with the sizes that it
-- was allocated with; otherwise the table stays as it is.
pub gu_tex_allocate_memory-find :
    (g : Statics) (env : Env) (a : Args) (mmid : ℕ)
    → IsBounded g
    → let t = (gu_tex_allocate_memory g env a).1 in
      IsBounded t
      × (t.present ≡ g.present)
      × (t.wnd ≡ g.wnd)
      × (find_tex t.gu_tex mmid ≡ (
          if env.ret != 2 ^ 32 - 1
          then (if ltb (length g.gu_tex) max_gutex
              then or_else (find_tex g.gu_tex mmid) (allocated env a) mmid
              else find_tex g.gu_tex mmid)
          else find_tex g.gu_tex mmid))
unfolding gu_tex_allocate_memory gu_tex_record allocated
gu_tex_allocate_memory-find g env a mmid h = elim (Bool-cases (env.ret != 2 ^ 32 - 1)) [
  | inl e ↦ elim (Bool-cases (ltb (length g.gu_tex) max_gutex)) [
    | inl l ↦
        rw (e, l)
          (
            ground (arith, length-append g.gu_tex (allocated env a ∷ [])),
            refl,
            refl,
            find_tex-append g.gu_tex (allocated env a) mmid,
          )
    | inr l ↦ rw (e, l) (h, refl, refl, refl)
  ]
  | inr e ↦ rw e (h, refl, refl, refl)
]
