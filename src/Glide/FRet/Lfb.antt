-- ===== src/Glide/FRet/Lfb.antt =====
-- glidept_mm.c, processFRet: the cases of the linear frame buffer.
use qemu_win.Prelude.{
  ℕ, ◌-◌, ◌*◌, Bool, not, ◌&&◌, ◌||◌, List, [], ◌∷◌, ◌==◌, ◌!=◌, ltb, if◌then◌else◌, update,
  bit_and, bit_or, u32,
}
use qemu_win.Glide.FEnum
use qemu_win.Glide.Args.Lfb.{is_aux}
use qemu_win.Glide.FRet.State.{
  read_region, copy_frame, guest_info, GlideDev, RetHost, RetCase, does, does_if, set_dev, set_fret,
  map_buffer, unmap_buffer,
}

abbrev pub mbufo_size : ℕ
mbufo_size = 0x02000000

-- an auxiliary buffer that the host does not have
abbrev pub no_buffer : GlideDev → Bool
no_buffer d = d.pt.lfb_noaux && is_aux d.pt.lfb_dev.gr_buffer

-- where the buffer stands in the shared frame buffer
abbrev pub shared_at : GlideDev → ℕ
shared_at d =
    if is_aux d.pt.lfb_dev.gr_buffer
    then (if ltb 0x300 d.lfb_h then 0x300 else d.lfb_h) * 0x800
    else 0

-- the buffer that is about to be shared
abbrev pub set_buffer : ℕ → GlideDev → GlideDev
set_buffer i d = record d {
  hva = update d.hva i (d.lfb_ptr i);
  mapsz = update d.mapsz i (u32 (d.lfb_h * d.stride i));
}

-- the shared frame buffer is filled
abbrev pub is_dirty : GlideDev → Bool
is_dirty d = bit_and d.pt.lfb_dirty 1 != 0

abbrev pub copied : ℕ → GlideDev → GlideDev
copied i d =
    if i == 0
    then does_if (is_dirty d) (copy_frame (shared_at d) (d.lfb_ptr 0) d.lfb_w d.lfb_h) d
    else does_if (is_dirty d && bit_and d.pt.lfb_dev.write_mode 0x0e != 4)
        (read_region d.pt.lfb_dev.gr_buffer (shared_at d) d.lfb_w d.lfb_h) d

abbrev pub fill : ℕ → GlideDev → GlideDev
fill i d = record (copied i d) {
  pt = record d.pt { lfb_dirty = if is_dirty d then 0 else d.pt.lfb_dirty };
}

-- the bits in the return value that tell the guest what it got
abbrev pub add_mode : ℕ → GlideDev → GlideDev
add_mode mode d = set_fret (if d.pt.fret != 0 then bit_or d.pt.fret mode else d.pt.fret) d

abbrev pub lfb_begun : GlideDev → GlideDev
lfb_begun d = let l = d.pt.lfb_dev in set_dev (record l { lock = update l.lock l.gr_lock 1 }) d

abbrev pub lfb_ended : GlideDev → GlideDev
lfb_ended d = let l = d.pt.lfb_dev in set_dev (record l { lock = update l.lock l.gr_lock 0 }) d

-- grLfbGetReadPtr, grLfbGetWritePtr
abbrev pub got_ptr : GlideDev → GlideDev
got_ptr d = if d.pt.lfb_dev.emu211 then d else record (set_fret d.pt.lfb_dev.guest_lfb d) {
  lfb_ptr = update d.lfb_ptr d.pt.lfb_dev.gr_lock d.pt.fret;
}

module _ (host : RetHost) where
  -- the lock is taken
  abbrev pub take_lock : GlideDev → GlideDev
  take_lock d =
      let i = bit_and (d.pt.arg 0) 1 in
      record (set_dev
        (record d.pt.lfb_dev {
          gr_lock = i;
          gr_buffer = d.pt.arg 1;
          lock = update d.pt.lfb_dev.lock i 1;
        })
        d) {
          lfb_ptr = update d.lfb_ptr i host.info_ptr;
          stride = update d.stride i host.info_stride;
        }

  -- the pointer that the guest gets
  abbrev pub guest_ptr : GlideDev → ℕ
  guest_ptr d =
      if d.pt.lfb_real
      then d.pt.lfb_dev.guest_lfb
      else if no_buffer d || not host.zero_copy
      then (if is_aux d.pt.lfb_dev.gr_buffer then u32 (d.lfb_h * 0x800) else 0)
      else u32 (bit_and (d.lfb_ptr d.pt.lfb_dev.gr_lock) (mbufo_size - 1))

  -- without the emulation, the guest gets a description
  abbrev pub describe : GlideDev → GlideDev
  describe d =
      if d.pt.lfb_dev.emu211
      then d
      else does
          (guest_info (guest_ptr d) (d.stride d.pt.lfb_dev.gr_lock)
            (if no_buffer d then d.pt.arg 2 else host.info_write_mode)
            (if no_buffer d then d.pt.arg 3 else host.info_origin))
          (set_dev
            (record d.pt.lfb_dev { write_mode = host.info_write_mode; origin = host.info_origin })
            d)

  -- the host's buffer is mapped for the guest; one that is mapped already for the other kind of
  -- lock is taken away first
  abbrev pub share : ℕ → ℕ → GlideDev → GlideDev
  share i other d =
      map_buffer host i (if d.hva i == d.hva other then unmap_buffer host other d else d)

  abbrev pub is_mapped : GlideDev → Bool
  is_mapped d = not (no_buffer d) && (not d.pt.lfb_dev.emu211 && host.zero_copy)

  -- the data is provided, by mapping or by copying
  abbrev pub provide : ℕ → ℕ → GlideDev → GlideDev
  provide i other d =
      let t = set_buffer i d in
      if no_buffer d then t else if is_mapped d then share i other t else fill i t

  abbrev pub lfb_locked : GlideDev → GlideDev
  lfb_locked d =
      let t = describe (take_lock d) in
      if d.pt.lfb_real
      then (if no_buffer t then add_mode 0x10 t else t)
      else add_mode (if is_mapped t then 0x20 else 0x10)
          (if t.pt.lfb_dev.gr_lock == 0 then provide 0 1 t else provide 1 0 t)

  abbrev pub lfb_unlocked : GlideDev → GlideDev
  lfb_unlocked d =
      let i = bit_and (d.pt.arg 0) 1 in
      let l = d.pt.lfb_dev in
      set_dev (record l { lock = update l.lock i 0 }) (unmap_buffer host i d)

  unfoldable pub lfb_cases : List RetCase
  lfb_cases =
      (FEnum.gr_lfb_lock ∷ [], lfb_locked)
      ∷ (FEnum.gr_lfb_unlock ∷ [], lfb_unlocked)
      ∷ (FEnum.gr_lfb_begin ∷ [], lfb_begun)
      ∷ (FEnum.gr_lfb_end ∷ [], lfb_ended)
      ∷ (FEnum.gr_lfb_get_read_ptr ∷ FEnum.gr_lfb_get_write_ptr ∷ [], got_ptr)
      ∷ []
