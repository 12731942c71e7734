-- ===== src/Mesa/MapBo/Tests.antt =====
-- mglmapbo.c at concrete lists, with pages of 4 KiB.
use qemu_win.Prelude.{
  ℕ, ◌+◌, ◌-◌, some, ◌≡◌, refl, ◌≢◌, ◌⊎◌, ◌≤◌, ◌<◌, List, [], ◌∷◌, none, arith, length, All,
}
use qemu_win.Mesa.MapBo.{
  MapBufo, mbufo_size, align_bo, bufo_size, init_buf_obj, lookup_buf_obj, free_buf_obj,
  map_buf_obj_gpa,
}
use qemu_win.Mesa.MapBo.Registry.{
  held, IsMap, lookup_buf_obj_lem, lookup_buf_obj-IsMap, free_buf_obj_lem,
}
use qemu_win.Mesa.MapBo.Place.{
  BehindOrBefore, map_buf_obj_gpa-clear, map_buf_obj_gpa-lt, map_buf_obj_gpa-overlap,
}

abbrev at : ℕ → ℕ → ℕ → ℕ → MapBufo
at i hva gpa mapsz = record {
  idx = i;
  lvl = 0;
  hva = hva;
  gpa = gpa;
  mused = 0;
  mapsz = mapsz;
  offst = 0;
  range = 0;
  acc = 2;
}

-- host addresses that collide modulo the window
abbrev old : MapBufo
old = at 1 0x7f0000100000 0x100000 0x3000

abbrev colliding : MapBufo
colliding = at 2 0x7f1000101000 0 0x8000

abbrev both : List MapBufo
both = old ∷ colliding ∷ []

init_empties : init_buf_obj both ≡ []
unfolding init_buf_obj
init_empties = refl

-- it moves below the first object
placed_below : (map_buf_obj_gpa 4096 (old ∷ []) colliding).1.gpa ≡ 0x100000 - 0x8000
unfolding map_buf_obj_gpa
placed_below = refl

first_of_list : map_buf_obj_gpa 4096 [] colliding ≡ (0, record colliding { gpa = 0x101000 })
unfolding map_buf_obj_gpa
first_of_list = refl

lookup_buf_obj_again : lookup_buf_obj 2 both ≡ (colliding, both)
unfolding lookup_buf_obj
lookup_buf_obj_again = refl

lookup_buf_obj-IsMap_example : IsMap (lookup_buf_obj 3 both).1
lookup_buf_obj-IsMap_example = lookup_buf_obj-IsMap 3 both (omega arith)

lookup_buf_obj_lem_example :
    let (b, pbufo) = lookup_buf_obj 3 both in
    (b.idx ≡ 3) × (held 3 pbufo ≡ some b) × (◌≢◌ {A = ℕ} 1 3 → held 1 pbufo ≡ held 1 both)
lookup_buf_obj_lem_example = lookup_buf_obj_lem 3 1 both

free_buf_obj_lem_example :
    let (n, pbufo) = free_buf_obj 1 both in
    (held 1 pbufo ≡ none)
    × (◌≢◌ {A = ℕ} 2 1 → held 2 pbufo ≡ held 2 both)
    × IsMap pbufo
    × (n ≡ length pbufo)
    × (n + 1 ≡ length both)
free_buf_obj_lem_example = free_buf_obj_lem 1 2 both (omega arith) refl

map_buf_obj_gpa-clear_example :
    let b = (map_buf_obj_gpa 4096 (old ∷ []) colliding).1 in
    (b.gpa ≡ 0) ⊎ All (BehindOrBefore 4096 b.gpa (bufo_size 4096 colliding)) (old ∷ [])
map_buf_obj_gpa-clear_example = map_buf_obj_gpa-clear 4096 old [] colliding (omega arith)

map_buf_obj_gpa-lt_example :
    let (n, b) = map_buf_obj_gpa 4096 (old ∷ []) colliding in (b.gpa < mbufo_size) × (n ≡ 1)
map_buf_obj_gpa-lt_example = map_buf_obj_gpa-lt 4096 (old ∷ []) colliding (omega arith)

-- 0x1800 bytes from 0x1000 on end at 0x2800; the next object is put at 0x2000
abbrev ragged : MapBufo
ragged = at 1 0x7f0000001000 0x1000 0x1800

abbrev larger : MapBufo
larger = at 2 0x7f1000001000 0 0x4000

map_buf_obj_gpa-overlap_example :
    let b = (map_buf_obj_gpa 4096 (ragged ∷ []) larger).1 in (0x1000 ≤ b.gpa) × (b.gpa < 0x2800)
unfolding align_bo
map_buf_obj_gpa-overlap_example =
    map_buf_obj_gpa-overlap 4096 ragged larger (omega arith) (omega arith) (omega arith)
      (omega arith) (omega arith) (omega arith) (omega arith) (omega arith)
