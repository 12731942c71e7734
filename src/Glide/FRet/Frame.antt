-- ===== src/Glide/FRet/Frame.antt =====
-- The lock of the frame buffer keeps the device valid, and so does every call.
use qemu_win.Prelude.{
  ℕ, ◌+◌, ◌*◌, ◌≤◌, ◌≡◌, Bool, true, is_in, refl, ◌&&◌, arith, ◌==◌, ◌!=◌, bit_and, bit_and-lt,
}
use qemu_win.Glide.Args.State.{Host}
use qemu_win.Glide.Args.{process_args}
use qemu_win.Glide.FRet.State.{RetEffect, GlideDev, RetHost, map_buffer, unmap_buffer}
use qemu_win.Glide.FRet.Window
use qemu_win.Glide.FRet.Lfb
use qemu_win.Glide.FRet.Index.{
  Keeps-if, Lands, done, ◌◁◌, Lands-append, switch-Lands, process_args-HasIndex,
}
use qemu_win.Glide.FRet.Laws.{
  IsValid, shlfb_size, does-IsValid, does_if-IsValid, set_dev-IsValid, set_fret-IsValid,
  other-IsValid, window_cases-Lands, window_openers,
}
use qemu_win.Glide.FRet.{ret_cases, process_fret, prepare, serve}

module _ (d : GlideDev) (v : IsValid d) where
  set_buffer-IsValid : (i : ℕ) → IsValid (Lfb.set_buffer i d)
  set_buffer-IsValid i = other-IsValid d v _ refl refl refl refl

  in_shared : (Lfb.shared_at d + d.lfb_h * 0x800 ≤ shlfb_size) × (d.lfb_w * 2 ≤ 0x800)
  in_shared = ground (arith, v.height, v.width)

  copied-IsValid : (i : ℕ) → IsValid (Lfb.copied i d)
  copied-IsValid i =
      Keeps-if IsValid (i == 0) _ _
        (does_if-IsValid d v (Lfb.is_dirty d)
          (RetEffect.copy_frame (Lfb.shared_at d) (d.lfb_ptr 0) d.lfb_w d.lfb_h) in_shared)
        (does_if-IsValid d v (Lfb.is_dirty d && bit_and d.pt.lfb_dev.write_mode 0x0e != 4)
          (RetEffect.read_region d.pt.lfb_dev.gr_buffer (Lfb.shared_at d) d.lfb_w d.lfb_h)
          in_shared)

  fill-IsValid : (i : ℕ) → IsValid (Lfb.fill i d)
  fill-IsValid i =
      let c = copied-IsValid i in
      record { index = v.index; height = c.height; width = c.width; in_frame = c.in_frame }

  got_ptr-IsValid : IsValid (Lfb.got_ptr d)
  got_ptr-IsValid =
      Keeps-if IsValid d.pt.lfb_dev.emu211 d _ v (other-IsValid d v _ refl refl refl refl)

module _ (host : RetHost) (d : GlideDev) (v : IsValid d) where
  take_lock-IsValid : IsValid (Lfb.take_lock host d)
  take_lock-IsValid = record {
    index = bit_and-lt (d.pt.arg 0);
    height = v.height;
    width = v.width;
    in_frame = v.in_frame;
  }

  describe-IsValid : IsValid (Lfb.describe host d)
  describe-IsValid =
      Keeps-if IsValid d.pt.lfb_dev.emu211 d _ v
        (does-IsValid _ (set_dev-IsValid d v _ v.index) _ tt)

  map_buffer-IsValid : (i : ℕ) → IsValid (map_buffer host i d)
  map_buffer-IsValid i = does_if-IsValid d v _ _ tt

  unmap_buffer-IsValid : (i : ℕ) → IsValid (unmap_buffer host i d)
  unmap_buffer-IsValid i =
      other-IsValid _
        (does_if-IsValid d v (host.zero_copy && d.hva i != 0) (RetEffect.unmap_buf (d.hva i)) tt) _
        refl refl refl refl

module _ (host : RetHost) (d : GlideDev) (v : IsValid d) where
  share-IsValid : (i other : ℕ) → IsValid (Lfb.share host i other d)
  share-IsValid i other =
      map_buffer-IsValid host _
        (Keeps-if IsValid (d.hva i == d.hva other) _ d (unmap_buffer-IsValid host d v other) v) i

  lfb_unlocked-IsValid : IsValid (Lfb.lfb_unlocked host d)
  lfb_unlocked-IsValid =
      other-IsValid _ (unmap_buffer-IsValid host d v (bit_and (d.pt.arg 0) 1)) _ refl refl refl refl

module _ (host : RetHost) (d : GlideDev) (v : IsValid d) where
  provide-IsValid : (i other : ℕ) → IsValid (Lfb.provide host i other d)
  provide-IsValid i other =
      let t = Lfb.set_buffer i d in
      let w = set_buffer-IsValid d v i in
      Keeps-if IsValid (Lfb.no_buffer d) t _ w (
        Keeps-if IsValid (Lfb.is_mapped host d) (Lfb.share host i other t) (Lfb.fill i t)
          (share-IsValid host t w i other) (fill-IsValid t w i))

module _ (host : RetHost) (d : GlideDev) (v : IsValid d) where
  lfb_locked-IsValid : IsValid (Lfb.lfb_locked host d)
  lfb_locked-IsValid =
      let t = Lfb.describe host (Lfb.take_lock host d) in
      let w = describe-IsValid host _ (take_lock-IsValid host d v) in
      Keeps-if IsValid d.pt.lfb_real _ _
        (Keeps-if IsValid (Lfb.no_buffer t) _ t (set_fret-IsValid t w _) w)
        (set_fret-IsValid _
          (Keeps-if IsValid (t.pt.lfb_dev.gr_lock == 0) (Lfb.provide host 0 1 t)
            (Lfb.provide host 1 0 t) (provide-IsValid host t w 0 1) (provide-IsValid host t w 1 0))
          _)

  lfb_cases-Lands : Lands IsValid d d.pt.fenum (Lfb.lfb_cases host)
  unfolding Lfb.lfb_cases
  lfb_cases-Lands =
      lfb_locked-IsValid
      ◁ lfb_unlocked-IsValid host d v
      ◁ other-IsValid d v _ refl refl refl refl
      ◁ other-IsValid d v _ refl refl refl refl
      ◁ got_ptr-IsValid d v
      ◁ done

  process_fret-IsValid :
      (is_in window_openers d.pt.fenum ≡ true → (Window.glide_winres host (d.pt.arg 1)).0 ≤ 0x400)
      → IsValid (process_fret host d)
  unfolding process_fret ret_cases
  process_fret-IsValid narrow = switch-Lands IsValid d d.pt.fenum (ret_cases host) v (
      Lands-append IsValid d d.pt.fenum (Window.window_cases host) (Lfb.lfb_cases host)
        (window_cases-Lands host d v narrow) lfb_cases-Lands)

-- Whatever function the guest calls with whatever arguments, and whatever the library and the window
-- answer: the device stays valid. The index of the current lock stays within its arrays, the shared
-- picture keeps its size within 0x400 times 0x300 points, and all that the cases of processFRet
-- clear in the shared frame buffer, or read or copy into it, lies within it. The one condition is
-- that the resolution has at most 0x400 columns when the call opens a window by grSstWinOpen or
-- grSstWinOpenExt. What vgLfbFlush copies out of the shared frame buffer is not spoken of.
pub serve-IsValid :
    (host : Host) (ptr : ℕ → ℕ) (post_init : Bool) (answers : RetHost) (ret : ℕ) (d : GlideDev)
    → IsValid d
    → (is_in window_openers (process_args host d.pt).fenum ≡ true
        → (Window.glide_winres answers ((prepare host ptr post_init ret d).pt.arg 1)).0 ≤ 0x400)
    → IsValid (serve host ptr post_init answers ret d)
unfolding serve prepare
serve-IsValid host ptr post_init answers ret d v narrow =
    process_fret-IsValid answers (prepare host ptr post_init ret d)
      (record {
        index = process_args-HasIndex host d.pt v.index;
        height = v.height;
        width = v.width;
        in_frame = v.in_frame;
      })
      narrow
