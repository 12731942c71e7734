-- ===== src/Mesa/VtxArry/Sync.antt =====
-- mesapt_mm.c and wrapgl32.c: the host takes as many words as the guest has pushed.
use qemu_win.Prelude.{
  ◌!=◌, ◌/◌, Bool-cases, inl, inr, ℕ, ◌+◌, ◌*◌, ◌%◌, ◌^◌, ◌<◌, ◌≡◌, refl, ◌∙◌, List, [], ◌∷◌, arith,
  if◌then◌else◌,
}
use qemu_win.Fifo.Defs.{Memory, num_data, even_up}
use qemu_win.Fifo.Send.{add_data-counter}
use qemu_win.Fifo.Frame.{even_up-add, even_up-even}
use qemu_win.Mesa.VtxArry.State.{
  Vtxarry, Arrays, is_used, cb_data, cb_data_interleaved, cb_elem, cb_elem_interleaved,
}
use qemu_win.Mesa.VtxArry.Host.{
  Push, push_bytes, push_one, push_all, host_order, push_vertex_array, int_words, int_even_bytes,
}
use qemu_win.Mesa.VtxArry.Guest.{add_bytes, add_one, add_all, guest_order, add_vertex_array}

-- the words that an array takes in the shared memory
unfoldable pub words_used : Vtxarry → ℕ → ℕ → ℕ
words_used a start end = if is_used a then even_up (num_data (cb_data a start end)) else 0

unfoldable pub words_all : List Vtxarry → ℕ → ℕ → ℕ
words_all [] start end = 0
words_all (a ∷ rest) start end = words_used a start end + words_all rest start end

-- the words that a push takes in the shared memory
unfoldable pub words_pushed : Arrays → ℕ → ℕ → ℕ
unfolding words_all words_used
words_pushed s start end =
    if is_used s.interleaved
    then even_up (num_data (cb_data_interleaved s.interleaved start end))
    else words_all (guest_order s) start end

int_even_bytes-even_up :
    (cb : ℕ)
    → even_up (num_data cb) < 2 ^ 29
    → int_even_bytes (int_words cb) ≡ 4 * even_up (num_data cb)
unfolding even_up num_data
int_even_bytes-even_up cb lt = ground arith

-- a block that takes its bytes at the host, within the range of `int`
push_bytes-datacb :
    (shm : ℕ → ℕ) (cache ptr elem start cb : ℕ) (t : Push)
    → t.datacb + 4 * even_up (num_data cb) < 2 ^ 31
    → (push_bytes shm cache ptr elem start cb t).datacb ≡ t.datacb + 4 * even_up (num_data cb)
unfolding push_bytes
push_bytes-datacb shm cache ptr elem start cb t lt =
    let e = int_even_bytes-even_up cb (omega arith) in omega (arith, e)

push_one-datacb :
    (shm : ℕ → ℕ) (cache : ℕ) (a : Vtxarry) (start end : ℕ) (t : Push)
    → t.datacb + 4 * words_used a start end < 2 ^ 31
    → (push_one shm cache a start end t).datacb ≡ t.datacb + 4 * words_used a start end
unfolding push_one words_used
push_one-datacb shm cache a start end t lt =
    grind (arith, push_bytes-datacb shm cache a.ptr (cb_elem a) start (cb_data a start end) t)

push_all-datacb :
    (shm : ℕ → ℕ) (cache : ℕ) (xs : List Vtxarry) (start end : ℕ) (t : Push)
    → t.datacb + 4 * words_all xs start end < 2 ^ 31
    → (push_all shm cache xs start end t).datacb ≡ t.datacb + 4 * words_all xs start end
unfolding push_all words_all
push_all-datacb shm cache [] start end t lt = omega arith
push_all-datacb shm cache (a ∷ xs) start end t lt =
    let e = push_one-datacb shm cache a start end t (omega arith) in
    let r = push_all-datacb shm cache xs start end (push_one shm cache a start end t) in
    omega (arith, e, r (omega (arith, e)))

add_bytes-counter :
    (max_fifo : ℕ) (load : ℕ → ℕ) (ptr elem start cb : ℕ) (m : Memory)
    → 1 < max_fifo
    → 0 < m max_fifo
    → m max_fifo % 2 ≡ 0
    → add_bytes max_fifo load ptr elem start cb m max_fifo ≡ m max_fifo + even_up (num_data cb)
unfolding add_bytes
add_bytes-counter max_fifo load ptr elem start cb m room pos even =
    add_data-counter max_fifo m 0 _ _ cb room pos ∙ even_up-add (m max_fifo) (num_data cb) even

add_one-counter :
    (max_fifo : ℕ) (load : ℕ → ℕ) (a : Vtxarry) (start end : ℕ) (m : Memory)
    → 1 < max_fifo
    → 0 < m max_fifo
    → m max_fifo % 2 ≡ 0
    → add_one max_fifo load a start end m max_fifo ≡ m max_fifo + words_used a start end
unfolding add_one words_used
add_one-counter max_fifo load a start end m room pos even = grind (
  arith,
  add_bytes-counter max_fifo load a.ptr (cb_elem a) start (cb_data a start end) m room pos even,
)

words_used-even : (a : Vtxarry) (start end : ℕ) → words_used a start end % 2 ≡ 0
unfolding words_used
words_used-even a start end = grind (arith, even_up-even (num_data (cb_data a start end)))

add_all-counter :
    (max_fifo : ℕ) (load : ℕ → ℕ) (xs : List Vtxarry) (start end : ℕ) (m : Memory)
    → 1 < max_fifo
    → 0 < m max_fifo
    → m max_fifo % 2 ≡ 0
    → add_all max_fifo load xs start end m max_fifo ≡ m max_fifo + words_all xs start end
unfolding add_all words_all
add_all-counter max_fifo load [] start end m room pos even = omega arith
add_all-counter max_fifo load (a ∷ xs) start end m room pos even =
    let e = add_one-counter max_fifo load a start end m room pos even in
    let p = words_used-even a start end in
    let r = add_all-counter max_fifo load xs start end (add_one max_fifo load a start end m) room in
    omega (arith, e, r (omega (arith, e)) (omega (arith, e, p)))

same_order : (s : Arrays) → host_order s ≡ guest_order s
unfolding host_order guest_order
same_order s = refl

push-datacb :
    (shm : ℕ → ℕ) (cache : ℕ) (s : Arrays) (start end : ℕ) (t : Push)
    → t.datacb + 4 * words_pushed s start end < 2 ^ 31
    → (push_vertex_array shm cache s start end t).1.datacb ≡ t.datacb + 4 * words_pushed s start end
unfolding push_vertex_array words_pushed
push-datacb shm cache s start end t lt =
    let a = s.interleaved in
    let one =
      push_bytes-datacb shm cache a.ptr (cb_elem_interleaved a) start
        (cb_data_interleaved a start end) t in
    let all = push_all-datacb shm cache (guest_order s) start end t in
    rw (same_order s) (grind (arith, one, all))

add-counter :
    (max_fifo : ℕ) (load : ℕ → ℕ) (s : Arrays) (start end : ℕ) (m : Memory)
    → 1 < max_fifo
    → 0 < m max_fifo
    → m max_fifo % 2 ≡ 0
    → (add_vertex_array max_fifo load s start end m).1 max_fifo
      ≡ m max_fifo + words_pushed s start end
unfolding add_vertex_array words_pushed
add-counter max_fifo load s start end m room pos even =
    let a = s.interleaved in
    let one =
      add_bytes-counter max_fifo load a.ptr (cb_elem_interleaved a) start
        (cb_data_interleaved a start end) m room pos even in
    let all = add_all-counter max_fifo load (guest_order s) start end m room pos even in
    grind (arith, one, all)

num_data-words : (cb n : ℕ) → cb ≡ 4 * n → num_data cb ≡ n
unfolding num_data
num_data-words cb n h = ground arith

-- An array of the host and its counterpart of the guest: all but the address, which is that of the
-- host's copy on one side and the application's on the other, and null on both sides or on neither.
abbrev pub Same : Vtxarry → Vtxarry → Type 0
Same a b =
    (a.enable ≡ b.enable)
    × (a.size ≡ b.size)
    × (a.type ≡ b.type)
    × (a.stride ≡ b.stride)
    × ((a.ptr != 0) ≡ (b.ptr != 0))

abbrev SameAll : List Vtxarry → List Vtxarry → Type 0
SameAll [] [] = Unit
SameAll [] (b ∷ bs) = ⊥
SameAll (a ∷ xs) [] = ⊥
SameAll (a ∷ xs) (b ∷ bs) = Same a b × SameAll xs bs

-- the arrays of the host and those of the guest
pub record Mirrors (s g : Arrays) : Type 0 where
  pub color : Same s.color g.color
  pub edge_flag : Same s.edge_flag g.edge_flag
  pub index : Same s.index g.index
  pub normal : Same s.normal g.normal
  pub tex_coord : (i : ℕ) → Same (s.tex_coord i) (g.tex_coord i)
  pub vertex : Same s.vertex g.vertex
  pub secondary_color : Same s.secondary_color g.secondary_color
  pub fog_coord : Same s.fog_coord g.fog_coord
  pub weight : Same s.weight g.weight
  pub gen_attrib : (i : ℕ) → Same (s.gen_attrib i) (g.gen_attrib i)
  pub interleaved : Same s.interleaved g.interleaved

words_used-Same :
    (a b : Vtxarry) (start end : ℕ) → Same a b → words_used a start end ≡ words_used b start end
unfolding words_used
words_used-Same a b start end h = rw (h.0, h.1, h.2, h.3, h.4) refl

words_all-Same :
    (xs ys : List Vtxarry) (start end : ℕ)
    → SameAll xs ys
    → words_all xs start end ≡ words_all ys start end
unfolding words_all
words_all-Same [] [] start end h = refl
words_all-Same [] (b ∷ bs) start end h = absurd h
words_all-Same (a ∷ xs) [] start end h = absurd h
words_all-Same (a ∷ xs) (b ∷ bs) start end h =
    rw (words_used-Same a b start end h.0, words_all-Same xs bs start end h.1) refl

guest_order-SameAll : (s g : Arrays) → Mirrors s g → SameAll (guest_order s) (guest_order g)
unfolding guest_order
guest_order-SameAll s g m = (
  m.color,
  (
    m.edge_flag,
    (
      m.index,
      (
        m.normal,
        (
          m.tex_coord 0,
          (
            m.tex_coord 1,
            (
              m.tex_coord 2,
              (
                m.tex_coord 3,
                (
                  m.tex_coord 4,
                  (
                    m.tex_coord 5,
                    (
                      m.tex_coord 6,
                      (
                        m.tex_coord 7,
                        (
                          m.vertex,
                          (
                            m.secondary_color,
                            (m.fog_coord, (m.weight, (m.gen_attrib 0, (m.gen_attrib 1, tt)))),
                          ),
                        ),
                      ),
                    ),
                  ),
                ),
              ),
            ),
          ),
        ),
      ),
    ),
  ),
)

words_pushed-Mirrors :
    (s g : Arrays) (start end : ℕ)
    → Mirrors s g
    → words_pushed s start end ≡ words_pushed g start end
unfolding words_pushed even_up guest_order
words_pushed-Mirrors s g start end m =
    let h = m.interleaved in
    rw
      (
        h.0,
        h.1,
        h.3,
        h.4,
        words_all-Same (guest_order s) (guest_order g) start end (guest_order-SameAll s g m),
      )
      refl

disabled-Mirrors :
    (s g : Arrays)
    → Mirrors s g
    → Mirrors
        (record s { interleaved = record s.interleaved { enable = 0 } })
        (record g { interleaved = record g.interleaved { enable = 0 } })
disabled-Mirrors s g m = record {
  color = m.color;
  edge_flag = m.edge_flag;
  index = m.index;
  normal = m.normal;
  tex_coord = m.tex_coord;
  vertex = m.vertex;
  secondary_color = m.secondary_color;
  fog_coord = m.fog_coord;
  weight = m.weight;
  gen_attrib = m.gen_attrib;
  interleaved = (refl, m.interleaved.1, m.interleaved.2, m.interleaved.3, m.interleaved.4);
}

same_arrays :
    (shm load : ℕ → ℕ) (cache max_fifo : ℕ) (s g : Arrays) (start end : ℕ) (m : Memory) (t : Push)
    → Mirrors s g
    → Mirrors
        (push_vertex_array shm cache s start end t).0
        (add_vertex_array max_fifo load g start end m).0
unfolding add_vertex_array push_vertex_array
same_arrays shm load cache max_fifo s g start end m t h =
    let e : is_used s.interleaved ≡ is_used g.interleaved =
      rw (h.interleaved.0, h.interleaved.4) refl in
    elim (Bool-cases (is_used g.interleaved)) [
      | inl used ↦ rw (e, used) (disabled-Mirrors s g h)
      | inr unused ↦ rw (e, unused) h
    ]

-- If both sides keep the same arrays up to their addresses, which are null on both sides or on
-- neither, the data that the host has taken for the call so far ends at an even word, and all of it
-- has fewer than 2^31 bytes: what the host's `PushVertexArray` adds to `datacb` is, in words, what
-- the guest's has added to the data of the queue, so both agree on where the next buffer stands;
-- and both keep the same arrays afterwards.
pub push_vertex_array-add_vertex_array :
    (shm load : ℕ → ℕ) (cache max_fifo : ℕ) (s g : Arrays) (start end : ℕ) (m : Memory) (t : Push)
    → Mirrors s g
    → 1 < max_fifo
    → 0 < m max_fifo
    → m max_fifo % 2 ≡ 0
    → t.datacb % 8 ≡ 0
    → t.datacb + 4 * words_pushed g start end < 2 ^ 31
    → ((add_vertex_array max_fifo load g start end m).1 max_fifo + num_data t.datacb
        ≡ m max_fifo + num_data (push_vertex_array shm cache s start end t).1.datacb)
      × Mirrors
          (push_vertex_array shm cache s start end t).0
          (add_vertex_array max_fifo load g start end m).0
push_vertex_array-add_vertex_array shm load cache max_fifo s g start end m t h room pos even whole
      lt =
    let w = words_pushed-Mirrors s g start end h in
    let cb = push-datacb shm cache s start end t (omega (arith, w)) in
    let n =
      num_data-words (push_vertex_array shm cache s start end t).1.datacb
        (t.datacb / 4 + words_pushed g start end) (omega (arith, cb, w)) in
    let n0 = num_data-words t.datacb (t.datacb / 4) (omega arith) in
    (
      omega (arith, add-counter max_fifo load g start end m room pos even, n, n0),
      same_arrays shm load cache max_fifo s g start end m t h,
    )
