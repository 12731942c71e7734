-- ===== src/Mesa/MapBo/Place.antt =====
-- MapBufObjGpa: where the window of guest addresses puts a buffer object.
use qemu_win.Prelude.{
  ℕ, ◌+◌, ◌-◌, ◌%◌, ◌^◌, ◌≤◌, ◌<◌, ◌≡◌, refl, ◌⊎◌, inl, inr, List, [], ◌∷◌, arith, All, ltb,
  if◌then◌else◌, length, sym, ap, ◌∙◌,
}
use native.Mathlib.Nat.{mod-add-mod, div-add-mod', mod-eq_of_lt}
use qemu_win.Mesa.MapBo.{
  MapBufo, mbufo_size, floor_page, bufo_size, curr_size, curr_end, scan_bounds, place,
  map_buf_obj_gpa,
}

module _ (page : ℕ) where
  -- the bounds enclose every object that the loop has passed
  abbrev Encloses : ℕ → ℕ → MapBufo → Type 0
  Encloses lo hi c = (lo ≤ floor_page page c.gpa) × (curr_end page c ≤ hi)

  scan_bounds_mono :
      (before : List MapBufo) (l h : ℕ)
      → ((scan_bounds page before l h).0 ≤ l) × (h ≤ (scan_bounds page before l h).1)
  unfolding scan_bounds
  scan_bounds_mono [] l h = omega arith
  scan_bounds_mono (c ∷ cs) l h =
      let l' : ℕ = if ltb (floor_page page c.gpa) l then floor_page page c.gpa else l in
      let h' : ℕ = if ltb h (curr_end page c) then curr_end page c else h in
      ground (arith, scan_bounds_mono cs l' h')

  scan_bounds_enclose :
      (before : List MapBufo) (l h : ℕ)
      → All (Encloses (scan_bounds page before l h).0 (scan_bounds page before l h).1) before
  unfolding scan_bounds
  scan_bounds_enclose [] l h = tt
  scan_bounds_enclose (c ∷ cs) l h =
      let l' : ℕ = if ltb (floor_page page c.gpa) l then floor_page page c.gpa else l in
      let h' : ℕ = if ltb h (curr_end page c) then curr_end page c else h in
      let low : (l' ≤ floor_page page c.gpa) = ground arith in
      let high : (curr_end page c ≤ h') = ground arith in
      (
        (omega (arith, scan_bounds_mono cs l' h'), omega (arith, scan_bounds_mono cs l' h')),
        scan_bounds_enclose cs l' h',
      )

  place_clear :
      (gpa sz lo hi : ℕ)
      → gpa + sz < 2 ^ 64
      → hi + sz < 2 ^ 64
      → (place page gpa sz lo hi ≡ 0)
        ⊎ ((place page gpa sz lo hi + sz ≤ lo) ⊎ (hi ≤ place page gpa sz lo hi))
  unfolding place
  place_clear gpa sz lo hi small small' = ground arith

  place-lt :
      (gpa sz lo hi : ℕ)
      → gpa < mbufo_size
      → lo < mbufo_size
      → hi + sz < 2 ^ 64
      → place page gpa sz lo hi < mbufo_size
  unfolding place
  place-lt gpa sz lo hi h l small = ground arith

  abbrev pub BehindOrBefore : ℕ → ℕ → MapBufo → Type 0
  BehindOrBefore gpa sz c = (gpa + sz ≤ floor_page page c.gpa) ⊎ (curr_end page c ≤ gpa)

  clear_from_bounds :
      (gpa sz lo hi : ℕ) (before : List MapBufo)
      → (gpa + sz ≤ lo) ⊎ (hi ≤ gpa)
      → All (Encloses lo hi) before
      → All (BehindOrBefore gpa sz) before
  clear_from_bounds gpa sz lo hi [] side h = tt
  clear_from_bounds gpa sz lo hi (c ∷ cs) side h =
      (omega arith, clear_from_bounds gpa sz lo hi cs side h.1)

  bounds-small :
      (before : List MapBufo) (l h : ℕ)
      → h < 2 ^ 63
      → All (λ c. curr_end page c < 2 ^ 63) before
      → (scan_bounds page before l h).1 < 2 ^ 63
  unfolding scan_bounds
  bounds-small [] l h small all = small
  bounds-small (c ∷ cs) l h small all = bounds-small cs _ _ (ground (arith, all.0)) all.1

  -- For a buffer object that is not the first of the list, with the earlier ones below 2^63: unless
  -- `MapBufObjGpa` gives up with guest address 0, the object's range lies wholly below the first
  -- page of each earlier object, or at or above the end of it, rounded down to a page.
  pub map_buf_obj_gpa-clear :
      (c : MapBufo) (before : List MapBufo) (bufo : MapBufo)
      → All (λ d. curr_end page d < 2 ^ 63) (c ∷ before)
      → let b = (map_buf_obj_gpa page (c ∷ before) bufo).1 in
        (b.gpa ≡ 0) ⊎ All (BehindOrBefore b.gpa (bufo_size page bufo)) (c ∷ before)
  unfolding map_buf_obj_gpa
  map_buf_obj_gpa-clear c before bufo small = elim near [
    | inl none_left ↦ inl none_left
    | inr side ↦
        inr (clear_from_bounds _ _ lo hi (c ∷ before) side (scan_bounds_enclose (c ∷ before) _ _))
  ]
    where
      lo : ℕ
      lo = (scan_bounds page (c ∷ before) (mbufo_size - 1) 0).0

      hi : ℕ
      hi = (scan_bounds page (c ∷ before) (mbufo_size - 1) 0).1

      gpa : ℕ
      gpa = bufo.hva % mbufo_size

      sz : ℕ
      sz = bufo_size page bufo

      near :
          (place page gpa sz lo hi ≡ 0)
          ⊎ ((place page gpa sz lo hi + sz ≤ lo) ⊎ (hi ≤ place page gpa sz lo hi))
      near =
          place_clear gpa sz lo hi (omega arith)
            (omega (arith, bounds-small (c ∷ before) (mbufo_size - 1) 0 (omega arith) small))

  -- In every case the guest address lies inside the window, and the count is the number of objects
  -- in front, when the earlier ones end below 2^63.
  pub map_buf_obj_gpa-lt :
      (before : List MapBufo) (bufo : MapBufo)
      → All (λ d. curr_end page d < 2 ^ 63) before
      → let (n, b) = map_buf_obj_gpa page before bufo in (b.gpa < mbufo_size) × (n ≡ length before)
  unfolding map_buf_obj_gpa
  map_buf_obj_gpa-lt [] bufo small = (omega arith, refl)
  map_buf_obj_gpa-lt (c ∷ cs) bufo small = (
    place-lt _ (bufo_size page bufo) _ _ (omega arith)
        (omega (arith, scan_bounds_mono (c ∷ cs) (mbufo_size - 1) 0))
        (omega (arith, bounds-small (c ∷ cs) (mbufo_size - 1) 0 (omega arith) small)),
    refl,
  )

  floor_aligned : (x : ℕ) → x % page ≡ 0 → floor_page page x ≡ x
  floor_aligned x h = omega (arith, div-add-mod' x page)

  end_of_aligned :
      (c : MapBufo)
      → c.gpa % page ≡ 0
      → c.hva % page ≡ 0
      → c.gpa + c.mapsz < 2 ^ 32
      → curr_end page c + c.mapsz % page ≡ c.gpa + c.mapsz
  end_of_aligned c aligned hva small =
      let size : curr_size page c ≡ c.mapsz = rw hva (omega arith) in
      let rest : (c.gpa + c.mapsz) % page ≡ c.mapsz % page =
        sym (mod-add-mod c.gpa page c.mapsz)
        ∙ ap (λ k. (k + c.mapsz) % page) aligned
        ∙ ap (λ k. k % page) (omega arith) in
      rw (size, mod-eq_of_lt {n = c.gpa + c.mapsz} {m = 2 ^ 64} (omega arith))
        (omega (arith, rest, div-add-mod' (c.gpa + c.mapsz) page))

  -- The end of an earlier object is rounded down to a page. So for a page-aligned object whose size
  -- is no multiple of the page, with no room below it and room above it, a new object whose own
  -- address collides is put on the object's last page: before the end of the object.
  pub map_buf_obj_gpa-overlap :
      (c bufo : MapBufo)
      → c.gpa % page ≡ 0
      → c.hva % page ≡ 0
      → 0 < c.mapsz % page
      → c.gpa + c.mapsz < 2 ^ 32
      → curr_end page c + bufo_size page bufo < mbufo_size
      → c.gpa ≤ bufo.hva % mbufo_size
      → bufo.hva % mbufo_size < curr_end page c
      → c.gpa ≤ bufo_size page bufo
      → let b = (map_buf_obj_gpa page (c ∷ []) bufo).1 in
        (c.gpa ≤ b.gpa) × (b.gpa < c.gpa + c.mapsz)
  unfolding map_buf_obj_gpa scan_bounds place
  map_buf_obj_gpa-overlap c bufo aligned hva part small room from to below =
      ground (arith, floor_aligned c.gpa aligned, end_of_aligned c aligned hva small)
