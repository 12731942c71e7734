-- ===== src/Mesa/SzData/Laws.antt =====
-- szgldata.c: what the tables and the two lookups give.
use qemu_win.Prelude.{
  ℕ, ◌*◌, ◌≤◌, ◌≡◌, ◌+◌, ◌/◌, refl, Bool, true, false, Option, none, some, List, All, All-is_in,
  Bool-cases, inl, inr, [], ◌∷◌, arith, ◌==◌, leb, ◌&&◌, if◌then◌else◌, is_in,
}
use native.Mathlib.Nat.{mul-le-mul, mul-div_cancel_left}
use qemu_win.Mesa.SzData.Tables.{Table, gltype, glformat, glpname, packed_types}
use qemu_win.Mesa.SzData.{size_in, sztype, szformat, szpname, szgldata, szglname}

-- the sizes of a table lie between 1 and a bound
unfoldable within : ℕ → Table → Bool
within m [] = true
within m ((k, n) ∷ rows) = leb 1 n && (leb n m && within m rows)

size_in-within :
    (m : ℕ) (t : Table) (key : ℕ)
    → 1 ≤ m
    → within m t ≡ true
    → (1 ≤ size_in t key) × (size_in t key ≤ m)
unfolding within size_in
size_in-within m [] key pos h = omega arith
size_in-within m ((k, n) ∷ t) key pos h = ground (arith, size_in-within m t key pos)

gltype-within : within 8 gltype ≡ true
unfolding within gltype
gltype-within = refl

glformat-within : within 60 glformat ≡ true
unfolding within glformat
glformat-within = refl

glpname-within : within 16 glpname ≡ true
unfolding within glpname
glpname-within = refl

sztype_bounds : (type : ℕ) → (1 ≤ sztype type) × (sztype type ≤ 8)
unfolding sztype
sztype_bounds type = size_in-within 8 gltype type (omega arith) gltype-within

szformat_bounds : (format : ℕ) → (1 ≤ szformat format) × (szformat format ≤ 60)
unfolding szformat
szformat_bounds format = size_in-within 60 glformat format (omega arith) glformat-within

szpname_bounds : (pname : ℕ) → (1 ≤ szpname pname) × (szpname pname ≤ 16)
unfolding szpname
szpname_bounds pname = size_in-within 16 glpname pname (omega arith) glpname-within

-- the types of OpenGL that pack a whole pixel, each with the widths of its components in bits, by
-- its name; GL_FLOAT_32_UNSIGNED_INT_24_8_REV has 24 bits that are not used besides
abbrev pub layouts : List (ℕ × List ℕ)
layouts =
    (0x8d9f, 2 ∷ 10 ∷ 10 ∷ 10 ∷ [])
    ∷ (0x8362, 2 ∷ 3 ∷ 3 ∷ [])
    ∷ (0x8032, 3 ∷ 3 ∷ 2 ∷ [])
    ∷ (0x8c3b, 10 ∷ 11 ∷ 11 ∷ [])
    ∷ (0x8036, 10 ∷ 10 ∷ 10 ∷ 2 ∷ [])
    ∷ (0x84fa, 24 ∷ 8 ∷ [])
    ∷ (0x8368, 2 ∷ 10 ∷ 10 ∷ 10 ∷ [])
    ∷ (0x8035, 8 ∷ 8 ∷ 8 ∷ 8 ∷ [])
    ∷ (0x8367, 8 ∷ 8 ∷ 8 ∷ 8 ∷ [])
    ∷ (0x86db, 8 ∷ 8 ∷ 8 ∷ 8 ∷ [])
    ∷ (0x8366, 1 ∷ 5 ∷ 5 ∷ 5 ∷ [])
    ∷ (0x8033, 4 ∷ 4 ∷ 4 ∷ 4 ∷ [])
    ∷ (0x8365, 4 ∷ 4 ∷ 4 ∷ 4 ∷ [])
    ∷ (0x8034, 5 ∷ 5 ∷ 5 ∷ 1 ∷ [])
    ∷ (0x8363, 5 ∷ 6 ∷ 5 ∷ [])
    ∷ (0x8364, 5 ∷ 6 ∷ 5 ∷ [])
    ∷ (0x8c3e, 5 ∷ 9 ∷ 9 ∷ 9 ∷ [])
    ∷ (0x8dad, 32 ∷ 24 ∷ 8 ∷ [])
    ∷ []

abbrev pub total : List ℕ → ℕ
total [] = 0
total (w ∷ ws) = w + total ws

-- the bits of a pixel, of a type in the list; `none` for a type of one component
abbrev pub pixel_bits : List (ℕ × List ℕ) → ℕ → Option ℕ
pixel_bits [] type = none
pixel_bits ((k, ws) ∷ rows) type = if type == k then some (total ws) else pixel_bits rows type

-- GL_UNSIGNED_INT_5_9_9_9_REV and GL_FLOAT_32_UNSIGNED_INT_24_8_REV
abbrev pub missed : List ℕ
missed = 0x8c3e ∷ 0x8dad ∷ []

abbrev pub pixel_bytes : ℕ → ℕ → ℕ
pixel_bytes format type =
    let apart = szformat format * sztype type in
    elim (if is_in missed type then none else pixel_bits layouts type) [
      | none ↦ apart
      | some bits ↦ bits / 8
    ]

packed_keys : List ℕ
packed_keys =
    0x8d9f ∷ 0x8362 ∷ 0x8032 ∷ 0x8c3b ∷ 0x8036 ∷ 0x84fa ∷ 0x8368 ∷ 0x8035 ∷ 0x8367 ∷ 0x86db ∷ 0x8366
    ∷ 0x8033 ∷ 0x8365 ∷ 0x8034 ∷ 0x8363 ∷ 0x8364 ∷ 0x8c3e ∷ 0x8dad ∷ []

cancel : (format n : ℕ) → (szformat format * n) / szformat format ≡ n
cancel format n = mul-div_cancel_left n (szformat_bounds format).0

packed_sizes : (format : ℕ) → All (λ k. szgldata format k ≡ pixel_bytes format k) packed_keys
unfolding packed_keys szgldata sztype size_in gltype packed_types
packed_sizes format = (
  cancel format 4,
  (
    cancel format 1,
    (
      cancel format 1,
      (
        cancel format 4,
        (
          cancel format 4,
          (
            cancel format 4,
            (
              cancel format 4,
              (
                cancel format 4,
                (
                  cancel format 4,
                  (
                    cancel format 4,
                    (
                      cancel format 2,
                      (
                        cancel format 2,
                        (
                          cancel format 2,
                          (
                            cancel format 2,
                            (cancel format 2, (cancel format 2, (refl, (refl, tt)))),
                          ),
                        ),
                      ),
                    ),
                  ),
                ),
              ),
            ),
          ),
        ),
      ),
    ),
  ),
)

single_size :
    (format type : ℕ)
    → is_in packed_keys type ≡ false
    → szgldata format type ≡ pixel_bytes format type
unfolding packed_keys szgldata packed_types
single_size format type h = ground (arith, h)

pub szgldata_lem : (format type : ℕ) → szgldata format type ≡ pixel_bytes format type
szgldata_lem format type = elim (Bool-cases (is_in packed_keys type)) [
  | inl e ↦
      All-is_in (λ k. szgldata format k ≡ pixel_bytes format k) packed_keys type
        (packed_sizes format) e
  | inr ne ↦ single_size format type ne
]

-- Whatever enumerators the guest sends, an element has at least one byte and at most 480, and a
-- parameter has between 1 and 16 components.
pub szgldata_bounds :
    (format type pname : ℕ)
    → (1 ≤ szgldata format type)
      × (szgldata format type ≤ 480)
      × (1 ≤ szglname pname)
      × (szglname pname ≤ 16)
unfolding szglname
szgldata_bounds format type pname =
    let t = sztype_bounds type in
    let f = szformat_bounds format in
    let p = szpname_bounds pname in
    let prod = mul-le-mul f.1 t.1 in
    let pos = mul-le-mul f.0 t.0 in grind (arith, szgldata_lem format type)
