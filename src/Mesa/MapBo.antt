-- ===== src/Mesa/MapBo.antt =====
-- mglmapbo.c: the registry of the guest's mapped buffer objects, and their guest addresses.
mod Registry
mod Place
mod Tests
use qemu_win.Prelude.{
  ℕ, zero, suc, ◌+◌, ◌-◌, ◌*◌, ◌/◌, ◌%◌, ◌^◌, Bool, List, [], ◌∷◌, ◌&&◌, ◌||◌, ◌==◌, ltb, leb,
  if◌then◌else◌, length, u32, u64,
}
use qemu_win.Registry.{find_or_add}

-- `mapbufo_t`; the list stands for the `next` pointers of `MAPBO`.
pub record MapBufo : Type 0 where
  pub idx : ℕ
  pub lvl : ℕ
  pub hva : ℕ
  pub gpa : ℕ
  pub mused : ℕ
  pub mapsz : ℕ
  pub offst : ℕ
  pub range : ℕ
  pub acc : ℕ

-- `g_new0` followed by the assignment of `idx`
abbrev pub new_buf_obj : ℕ → MapBufo
new_buf_obj i = record {
  idx = i;
  lvl = 0;
  hva = 0;
  gpa = 0;
  mused = 0;
  mapsz = 0;
  offst = 0;
  range = 0;
  acc = 0;
}

abbrev pub is_idx : ℕ → MapBufo → Bool
is_idx i p = i == p.idx

pub init_buf_obj : List MapBufo → List MapBufo
init_buf_obj pbufo = []

pub lookup_buf_obj : ℕ → List MapBufo → MapBufo × List MapBufo
lookup_buf_obj i pbufo = find_or_add (is_idx i) (new_buf_obj i) pbufo

-- the loop that unlinks the first node with the index
pub unlink_buf_obj : ℕ → List MapBufo → List MapBufo
unlink_buf_obj i [] = []
unlink_buf_obj i (curr ∷ rest) = if i == curr.idx then rest else curr ∷ unlink_buf_obj i rest

pub free_buf_obj : ℕ → List MapBufo → ℕ × List MapBufo
unfolding unlink_buf_obj
free_buf_obj i pbufo = (length (unlink_buf_obj i pbufo), unlink_buf_obj i pbufo)

abbrev pub mbufo_size : ℕ
mbufo_size = 0x08 * 2 ^ 24

-- the macro ALIGNBO at a `uint32_t`
pub align_bo : ℕ → ℕ
align_bo x = if (x % 16) == 0 then x else u32 ((x / 16 + 1) * 16)

-- `page` is `qemu_real_host_page_size()`, a power of two, so that `& qemu_real_host_page_mask()`
-- rounds an address down and `& (page - 1)` is the remainder.
module _ (page : ℕ) where
  abbrev pub floor_page : ℕ → ℕ
  floor_page x = x / page * page

  -- `curr_sz` and `bufo_sz` of `MapBufObjGpa`
  abbrev pub curr_size : MapBufo → ℕ
  curr_size c = u32 (c.mapsz + u32 (c.hva % page))

  abbrev pub bufo_size : MapBufo → ℕ
  bufo_size b = u32 (align_bo b.mapsz + u32 (b.hva % page))

  -- `(curr->bo.gpa + curr_sz) & qemu_real_host_page_mask()`
  abbrev pub curr_end : MapBufo → ℕ
  curr_end c = floor_page (u64 (c.gpa + curr_size c))

  -- the `while` loop, over the objects that stand before `bufo`
  pub scan_bounds : List MapBufo → ℕ → ℕ → ℕ × ℕ
  scan_bounds [] addr_lo addr_hi = (addr_lo, addr_hi)
  scan_bounds (c ∷ before) addr_lo addr_hi =
      scan_bounds before (if ltb (floor_page c.gpa) addr_lo then floor_page c.gpa else addr_lo)
        (if ltb addr_hi (curr_end c) then curr_end c else addr_hi)

  -- what follows the loop, from `bufo->gpa`, the size and the bounds
  pub place : ℕ → ℕ → ℕ → ℕ → ℕ
  place gpa bufo_sz addr_lo addr_hi =
      if ltb (u64 (gpa + bufo_sz)) addr_lo || leb addr_hi gpa
      then gpa
      else (let low = if ltb bufo_sz addr_lo then addr_lo - bufo_sz else 0 in
          if (low == 0) && ltb (u64 (addr_hi + bufo_sz)) mbufo_size then addr_hi else low)

  -- `before` are the objects in front of `bufo` in the list: the returned count, and the new `gpa`
  pub map_buf_obj_gpa : List MapBufo → MapBufo → ℕ × MapBufo
  unfolding scan_bounds place align_bo
  map_buf_obj_gpa [] bufo = (0, record bufo { gpa = bufo.hva % mbufo_size })
  map_buf_obj_gpa (c ∷ before) bufo =
      let (addr_lo, addr_hi) = scan_bounds (c ∷ before) (mbufo_size - 1) 0 in
      (
        length (c ∷ before),
        record bufo { gpa = place (bufo.hva % mbufo_size) (bufo_size bufo) addr_lo addr_hi },
      )
