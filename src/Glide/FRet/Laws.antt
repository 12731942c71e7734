-- ===== src/Glide/FRet/Laws.antt =====
-- What holds of the device whatever the guest calls: the indices of its arrays, and the part of the
-- shared frame buffer that it writes.
use qemu_win.Prelude.{
  not, ltb, ◌==◌, ℕ, ◌+◌, ◌*◌, ◌<◌, ◌≤◌, ◌≡◌, refl, Bool, true, false, arith, All, bit_and, List,
  [], ◌∷◌, is_in,
}
use qemu_win.Glide.Args.State.{LfbDev}
use qemu_win.Glide.FRet.State.{RetEffect, GlideDev, RetHost, does, does_if, set_dev, set_fret}
use qemu_win.Glide.FRet.Index.{Keeps-if, Lands, Lands-if_taken, done, ◌◁◌}
use qemu_win.Glide.FRet.Window
use qemu_win.Glide.FEnum

-- the functions that open a window of a resolution in their second argument
abbrev pub window_openers : List ℕ
window_openers = FEnum.gr_sst_win_open ∷ FEnum.gr_sst_win_open_ext ∷ []

-- SHLFB_SIZE
abbrev pub shlfb_size : ℕ
shlfb_size = 0x300000

-- an effect writes the shared frame buffer only within its bounds
abbrev pub IsInFrame : RetEffect → Type 0
IsInFrame (RetEffect.clear_frame at) = at + at ≤ shlfb_size
IsInFrame (RetEffect.read_region b at w h) = (at + h * 0x800 ≤ shlfb_size) × (w * 2 ≤ 0x800)
IsInFrame (RetEffect.copy_frame at p w h) = (at + h * 0x800 ≤ shlfb_size) × (w * 2 ≤ 0x800)
IsInFrame e = Unit

pub record IsValid (d : GlideDev) : Type 0 where
  pub index : d.pt.lfb_dev.gr_lock < 2
  pub height : d.lfb_h ≤ 0x300
  pub width : d.lfb_w ≤ 0x400
  pub in_frame : All IsInFrame d.done

module _ (d : GlideDev) (v : IsValid d) where
  pub does-IsValid : (e : RetEffect) → IsInFrame e → IsValid (does e d)
  does-IsValid e h = record {
    index = v.index;
    height = v.height;
    width = v.width;
    in_frame = (h, v.in_frame);
  }

  pub does_if-IsValid : (b : Bool) (e : RetEffect) → IsInFrame e → IsValid (does_if b e d)
  does_if-IsValid true e h = does-IsValid e h
  does_if-IsValid false e h = record {
    index = v.index;
    height = v.height;
    width = v.width;
    in_frame = v.in_frame;
  }

  pub set_dev-IsValid : (l : LfbDev) → l.gr_lock < 2 → IsValid (set_dev l d)
  set_dev-IsValid l h = record {
    index = h;
    height = v.height;
    width = v.width;
    in_frame = v.in_frame;
  }

  pub set_fret-IsValid : (n : ℕ) → IsValid (set_fret n d)
  set_fret-IsValid n = record {
    index = v.index;
    height = v.height;
    width = v.width;
    in_frame = v.in_frame;
  }

  -- the fields that the invariant does not speak of
  pub other-IsValid :
      (t : GlideDev)
      → t.pt.lfb_dev.gr_lock ≡ d.pt.lfb_dev.gr_lock
      → t.lfb_h ≡ d.lfb_h
      → t.lfb_w ≡ d.lfb_w
      → t.done ≡ d.done
      → IsValid t
  other-IsValid t a b c e = record {
    index = rw a v.index;
    height = rw b v.height;
    width = rw c v.width;
    in_frame = rw e v.in_frame;
  }

module _ (host : RetHost) (d : GlideDev) (v : IsValid d) where
  win_opened-IsValid :
      (Window.glide_winres host (d.pt.arg 1)).0 ≤ 0x400 → IsValid (Window.win_opened host d)
  win_opened-IsValid narrow = record {
    index = v.index;
    height = ground (arith, v.height);
    width = ground (arith, v.width);
    in_frame =
        (does_if-IsValid _ (does-IsValid d v (RetEffect.open_window (d.pt.arg 1)) tt)
          (not host.lfb_mode) _ (ground arith)).in_frame;
  }

  win_open-IsValid :
      (Window.glide_winres host (d.pt.arg 1)).0 ≤ 0x400 → IsValid (Window.win_open host d)
  win_open-IsValid narrow =
      Keeps-if IsValid (ltb 0x0f (bit_and (d.pt.arg 1) 0xff)) (set_fret 0 d)
        (Window.win_opened host d) (set_fret-IsValid d v 0) (win_opened-IsValid narrow)

  glide_inited-IsValid : IsValid (Window.glide_inited host d)
  glide_inited-IsValid = record {
    index = omega arith;
    height = v.height;
    width = v.width;
    in_frame =
        (tt, (does_if-IsValid d v (d.pt.init_dll == 0x301a0) RetEffect.init_ext tt).in_frame);
  }

  glide_shutdown-IsValid : IsValid (Window.glide_shutdown host d)
  glide_shutdown-IsValid =
      Keeps-if IsValid host.has_stat _ d
        (other-IsValid _
          (does_if-IsValid _
            (does-IsValid _
              (does-IsValid _ (does-IsValid d v RetEffect.last_stat tt) RetEffect.free_states tt)
              RetEffect.clear_args tt)
            d.cfg_pushed RetEffect.remove_cfg tt)
          _ refl refl refl refl)
        v

  pub window_cases-Lands :
      (is_in window_openers d.pt.fenum ≡ true → (Window.glide_winres host (d.pt.arg 1)).0 ≤ 0x400)
      → Lands IsValid d d.pt.fenum (Window.window_cases host)
  unfolding Window.window_cases
  window_cases-Lands narrow =
      does-IsValid d v _ tt
      ◁ does-IsValid d v _ tt
      ◁ does_if-IsValid d v _ _ tt
      ◁ does-IsValid d v _ tt
      ◁ does-IsValid _ (set_dev-IsValid d v _ v.index) _ tt
      ◁ Lands-if_taken IsValid d d.pt.fenum (λ taken. win_open-IsValid (narrow taken))
          (does-IsValid _ (does-IsValid d v _ tt) _ tt
            ◁ glide_inited-IsValid
            ◁ glide_shutdown-IsValid
            ◁ set_fret-IsValid d v _
            ◁ does_if-IsValid d v _ _ tt
            ◁ other-IsValid d v _ refl refl refl refl
            ◁ does_if-IsValid d v _ _ tt
            ◁ does-IsValid d v _ tt
            ◁ done)
