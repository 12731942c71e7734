-- ===== src/Glide/Args/Lfb.antt =====
-- glidept_mm.c, processArgs: the cases of the linear frame buffer and of the window.
use qemu_win.Prelude.{
  ℕ, ◌*◌, Bool, true, false, not, ◌&&◌, List, [], ◌∷◌, ◌==◌, ◌!=◌, if◌then◌else◌, update, bit_and,
  bit_or,
}
use qemu_win.Glide.FEnum
use qemu_win.Glide.Args.State.{
  GlidePt, hshm, outshm, lfb_info, lfb_info_full, flush_lfb, write_frame, frame_stat, renderer_stat,
  Host, Case, aligned, aligned32, set_parg, set_arg, set_datacb, effect, effect_if,
}

abbrev pub size_grlfbinfo : ℕ
size_grlfbinfo = 20

-- `ALIGNED(sizeof(wrgLfbInfo))`
abbrev pub host_info : ℕ
host_info = aligned size_grlfbinfo

-- `(buffer & 0xFEU)`: neither of the two colour buffers
abbrev pub is_aux : ℕ → Bool
is_aux b = bit_and b 0xfe != 0

-- the mark of an auxiliary buffer that the host does not have
abbrev pub hide_aux : GlidePt → ℕ → ℕ
hide_aux s b = if s.lfb_noaux && is_aux b then bit_or b 0x80 else b

-- grSstOpen
abbrev pub sst_open : GlidePt → GlidePt
sst_open s =
    let emu = s.lfb_dev.emu211 in
    record s {
      arg =
          if emu
          then update
              (update
                (update (update (update (update s.arg 4 (s.arg 3)) 3 (s.arg 2)) 2 (s.arg 1)) 1
                  (s.arg 0))
                7 (s.arg 6))
              6 1
          else s.arg;
      fenum = if emu then FEnum.gr_sst_win_open else s.fenum;
    }

abbrev pub lfb_unlock : GlidePt → GlidePt
lfb_unlock s =
    let write = not s.lfb_real && bit_and (s.arg 0) 0x01 != 0 in
    let hidden = s.lfb_noaux && is_aux (s.arg 1) in
    let merge = s.lfb_merge && s.arg 1 == 1 in
    let flush = write && (not hidden && not merge) in
    let t = effect_if flush flush_lfb s in
    set_arg 1 (hide_aux s (s.arg 1)) (record t {
      lfb_dirty = if flush then 1 else if write && (not hidden && merge) then 0x80 else s.lfb_dirty;
    })

abbrev pub lfb_read_region : GlidePt → GlidePt
lfb_read_region s = set_parg 2 (hshm 0) s

abbrev pub lfb_write_region : GlidePt → GlidePt
lfb_write_region s = set_parg 3 (hshm 0) (set_datacb (aligned32 (s.arg 5 * s.arg 6)) s)

abbrev pub lfb_write_region3x : GlidePt → GlidePt
lfb_write_region3x s = set_parg 0 (hshm 0) (set_datacb (aligned32 (s.arg 5 * s.arg 7)) s)

-- guFbReadRegion: with the emulation it becomes grLfbReadRegion
abbrev pub fb_read_region : GlidePt → GlidePt
fb_read_region s = elim s.lfb_dev.emu211 [
  | true ↦ set_parg 2 (hshm 0) (record s {
    arg =
        update
          (update (update (update (update s.arg 4 (s.arg 3)) 3 (s.arg 2)) 2 (s.arg 1)) 1 (s.arg 0))
          0 s.lfb_dev.gr_buffer;
    fenum = FEnum.gr_lfb_read_region;
  })
  | false ↦ set_parg 0 (hshm 0) s
]

-- guFbWriteRegion
abbrev pub fb_write_region : GlidePt → GlidePt
fb_write_region s =
    let t = set_datacb (s.arg 3 * s.arg 5) s in
    elim s.lfb_dev.emu211 [
      | true ↦ set_parg 3 (hshm 0) (record t {
        arg =
            update
              (update
                (update
                  (update (update (update (update s.arg 6 (s.arg 5)) 5 (s.arg 3)) 4 (s.arg 2)) 3
                    s.lfb_dev.write_mode)
                  2 (s.arg 1))
                1 (s.arg 0))
              0 s.lfb_dev.gr_buffer;
        fenum = FEnum.gr_lfb_write_region;
      })
      | false ↦ set_parg 0 (hshm 0) t
    ]

abbrev pub lfb_origin : GlidePt → GlidePt
lfb_origin s = record s { lfb_dev = record s.lfb_dev { origin = s.arg 0 } }

abbrev pub lfb_write_mode : GlidePt → GlidePt
lfb_write_mode s = record s { lfb_dev = record s.lfb_dev { write_mode = s.arg 0 } }

abbrev pub lfb_bypass_mode : GlidePt → GlidePt
lfb_bypass_mode s = record s { lfb_dev = record s.lfb_dev { by_pass = s.arg 0 } }

-- grLfbGetReadPtr, grLfbGetWritePtr
abbrev pub lfb_get_ptr : GlidePt → GlidePt
lfb_get_ptr s =
    let emu = s.lfb_dev.emu211 in
    record s {
      lfb_dev = record s.lfb_dev {
        gr_lock = if s.fenum == FEnum.gr_lfb_get_read_ptr then 0 else 1;
        gr_buffer = if emu then s.arg 0 else s.lfb_dev.gr_buffer;
      };
      fret = if emu then (if s.lfb_real then s.lfb_dev.guest_lfb else 0) else s.fret;
    }

-- grLfbBegin: with the emulation it becomes grLfbLock
abbrev pub lfb_begin : GlidePt → GlidePt
lfb_begin s = elim s.lfb_dev.emu211 [
  | true ↦
      let d = s.lfb_dev in
      set_parg 1 (outshm host_info) (
        effect (lfb_info_full host_info d.write_mode d.origin) (record s {
          arg =
              update
                (update (update (update (update s.arg 0 d.gr_lock) 1 d.gr_buffer) 2 d.write_mode) 3
                  d.origin)
                4 (if d.by_pass == 0 then 1 else 0);
          lfb_dev = record s.lfb_dev { begun = true };
          fenum = FEnum.gr_lfb_lock;
        }))
  | false ↦ s
]

-- grLfbEnd: with the emulation it becomes grLfbUnlock
abbrev pub lfb_end : GlidePt → GlidePt
lfb_end s = elim s.lfb_dev.emu211 [
  | true ↦
      let d = s.lfb_dev in
      let flush = not s.lfb_real && (bit_and d.gr_lock 0x01 != 0 && not (is_aux d.gr_buffer)) in
      let t = effect_if flush flush_lfb s in
      record t {
        arg = update (update s.arg 0 d.gr_lock) 1 d.gr_buffer;
        lfb_dev = record s.lfb_dev { begun = false };
        lfb_dirty = if flush then 1 else s.lfb_dirty;
        fenum = FEnum.gr_lfb_unlock;
      }
  | false ↦ s
]

-- grSstPassthruMode: with the emulation it becomes grSstControl
abbrev pub passthru_mode : GlidePt → GlidePt
passthru_mode s = elim s.lfb_dev.emu211 [
  | true ↦ set_arg 0 (if s.arg 0 == 0 then 2 else 1) (record s { fenum = FEnum.gr_sst_control })
  | false ↦ effect (renderer_stat (s.arg 0)) s
]

module _ (host : Host) where
  abbrev pub buffer_swap : GlidePt → GlidePt
  buffer_swap s =
      let pending = s.lfb_dev.lock 1 != 0 && not (is_aux s.lfb_dev.gr_buffer) in
      let merged = bit_and s.lfb_dirty 0x80 != 0 in
      effect frame_stat
        (record (effect_if (not s.lfb_real && merged) write_frame
          (effect_if (not s.lfb_real && pending) flush_lfb s)) {
            lfb_dirty = if s.lfb_real then s.lfb_dirty else 1;
            arg = update s.arg 0 (if host.vsync_off then 0 else s.arg 0);
          })

  abbrev pub lfb_lock : GlidePt → GlidePt
  lfb_lock s = set_arg 1 (hide_aux s (s.arg 1)) (
      set_parg 1 (outshm host_info) (
        effect (lfb_info host_info) (record (set_datacb (aligned size_grlfbinfo) s) {
          lfb_dirty =
              if s.lfb_dev.gr_buffer == s.arg 1 then bit_or s.lfb_dirty host.lfb_dirty_mask else 1;
        })))

  unfoldable pub lfb_cases : List Case
  lfb_cases =
      (FEnum.gr_sst_open ∷ [], sst_open)
      ∷ (FEnum.gr_buffer_swap ∷ [], buffer_swap)
      ∷ (FEnum.gr_lfb_lock ∷ [], lfb_lock)
      ∷ (FEnum.gr_lfb_unlock ∷ [], lfb_unlock)
      ∷ (FEnum.gr_lfb_read_region ∷ [], lfb_read_region)
      ∷ (FEnum.gr_lfb_write_region ∷ [], lfb_write_region)
      ∷ (FEnum.gr_lfb_write_region3x ∷ [], lfb_write_region3x)
      ∷ (FEnum.gu_fb_read_region ∷ [], fb_read_region)
      ∷ (FEnum.gu_fb_write_region ∷ [], fb_write_region)
      ∷ (FEnum.gr_lfb_origin ∷ [], lfb_origin)
      ∷ (FEnum.gr_lfb_write_mode ∷ [], lfb_write_mode)
      ∷ (FEnum.gr_lfb_bypass_mode ∷ [], lfb_bypass_mode)
      ∷ (FEnum.gr_lfb_get_read_ptr ∷ FEnum.gr_lfb_get_write_ptr ∷ [], lfb_get_ptr)
      ∷ (FEnum.gr_lfb_begin ∷ [], lfb_begin)
      ∷ (FEnum.gr_lfb_end ∷ [], lfb_end)
      ∷ (FEnum.gr_sst_passthru_mode ∷ [], passthru_mode)
      ∷ []
