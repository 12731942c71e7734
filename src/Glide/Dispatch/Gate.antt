-- ===== src/Glide/Dispatch/Gate.antt =====
-- glide2x_impl.c: which calls doGlideFunc lets through, by the calls that came before.
use qemu_win.Prelude.{
  ℕ, ◌≡◌, refl, ◌∙◌, Bool, true, false, ◌&&◌, ◌||◌, List, [], ◌∷◌, arith, ◌==◌, ◌!=◌, if◌then◌else◌,
  is_in,
}
use qemu_win.Glide.FEnum.{gr_glide_init, gr_glide_shutdown}
use qemu_win.Glide.Dispatch.{early_calls, lfb_calls, post_init_test, gate}

-- The calls that came before, the latest first: whether there was a grGlideInit, and no
-- grGlideShutdown since.
pub is_open : List ℕ → Bool
is_open [] = false
is_open (f ∷ h) =
    let before = is_open h in
    if f == gr_glide_init then true else if f == gr_glide_shutdown then false else before

-- the host has the function: in the library, or by its own emulation
pub is_provided : (ℕ → ℕ) → Bool → ℕ → Bool
is_provided ptr emu211 f = (is_in lfb_calls f && emu211) || (ptr f != 0)

module _ (ptr : ℕ → ℕ) (emu211 : Bool) where
  -- `glidePostInit` after these calls
  pub post_init_after : List ℕ → Bool
  unfolding gate
  post_init_after [] = false
  post_init_after (f ∷ h) = (gate ptr emu211 (post_init_after h) f).0

  gate_step :
      (on : Bool) (f : ℕ)
      → (gate ptr emu211 on f).0
        ≡ (if f == gr_glide_init then true else if f == gr_glide_shutdown then false else on)
  unfolding gate post_init_test
  gate_step true f = ground arith
  gate_step false f = ground arith

  pub post_init_after-is_open : (h : List ℕ) → post_init_after h ≡ is_open h
  unfolding post_init_after is_open
  post_init_after-is_open [] = refl
  post_init_after-is_open (f ∷ h) = rw (gate_step (post_init_after h) f, post_init_after-is_open h)

  gate_passes :
      (on : Bool) (f : ℕ)
      → (gate ptr emu211 on f).1 ≡ ((on || is_in early_calls f) && is_provided ptr emu211 f)
  unfolding gate post_init_test is_provided
  gate_passes true f = ground arith
  gate_passes false f = ground arith

  -- After any sequence of calls, a function is called exactly if the host provides it and either
  -- there was a grGlideInit with no grGlideShutdown since, or it is one of the seven functions that
  -- are allowed before.
  pub gate_history :
      (h : List ℕ) (f : ℕ)
      → (gate ptr emu211 (post_init_after h) f).1
        ≡ ((is_open h || is_in early_calls f) && is_provided ptr emu211 f)
  gate_history h f = gate_passes (post_init_after h) f ∙ rw (post_init_after-is_open h)
