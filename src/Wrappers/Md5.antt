-- ===== src/Wrappers/Md5.antt =====
-- md5.c: MD5 of a message. Words of 32 bits wrap; bytes are numbers below 256.
mod Laws
mod Tests
use qemu_win.Prelude.{
  ℕ, zero, suc, ◌+◌, ◌-◌, ◌*◌, ◌/◌, ◌%◌, ◌^◌, List, [], ◌∷◌, ◌==◌, ltb, slt32, if◌then◌else◌,
  get_or, length, u32, bit_and, bit_or,
}
use Prim.Native.Nat.{bit_xor}

abbrev pub shifts : List ℕ
shifts =
    7 ∷ 12 ∷ 17 ∷ 22 ∷ 7 ∷ 12 ∷ 17 ∷ 22 ∷ 7 ∷ 12 ∷ 17 ∷ 22 ∷ 7 ∷ 12 ∷ 17 ∷ 22 ∷ 5 ∷ 9 ∷ 14 ∷ 20 ∷ 5
    ∷ 9 ∷ 14 ∷ 20 ∷ 5 ∷ 9 ∷ 14 ∷ 20 ∷ 5 ∷ 9 ∷ 14 ∷ 20 ∷ 4 ∷ 11 ∷ 16 ∷ 23 ∷ 4 ∷ 11 ∷ 16 ∷ 23 ∷ 4 ∷ 11
    ∷ 16 ∷ 23 ∷ 4 ∷ 11 ∷ 16 ∷ 23 ∷ 6 ∷ 10 ∷ 15 ∷ 21 ∷ 6 ∷ 10 ∷ 15 ∷ 21 ∷ 6 ∷ 10 ∷ 15 ∷ 21 ∷ 6 ∷ 10
    ∷ 15 ∷ 21 ∷ []

abbrev pub sines : List ℕ
sines =
    0xd76aa478 ∷ 0xe8c7b756 ∷ 0x242070db ∷ 0xc1bdceee ∷ 0xf57c0faf ∷ 0x4787c62a ∷ 0xa8304613
    ∷ 0xfd469501 ∷ 0x698098d8 ∷ 0x8b44f7af ∷ 0xffff5bb1 ∷ 0x895cd7be ∷ 0x6b901122 ∷ 0xfd987193
    ∷ 0xa679438e ∷ 0x49b40821 ∷ 0xf61e2562 ∷ 0xc040b340 ∷ 0x265e5a51 ∷ 0xe9b6c7aa ∷ 0xd62f105d
    ∷ 0x02441453 ∷ 0xd8a1e681 ∷ 0xe7d3fbc8 ∷ 0x21e1cde6 ∷ 0xc33707d6 ∷ 0xf4d50d87 ∷ 0x455a14ed
    ∷ 0xa9e3e905 ∷ 0xfcefa3f8 ∷ 0x676f02d9 ∷ 0x8d2a4c8a ∷ 0xfffa3942 ∷ 0x8771f681 ∷ 0x6d9d6122
    ∷ 0xfde5380c ∷ 0xa4beea44 ∷ 0x4bdecfa9 ∷ 0xf6bb4b60 ∷ 0xbebfbc70 ∷ 0x289b7ec6 ∷ 0xeaa127fa
    ∷ 0xd4ef3085 ∷ 0x04881d05 ∷ 0xd9d4d039 ∷ 0xe6db99e5 ∷ 0x1fa27cf8 ∷ 0xc4ac5665 ∷ 0xf4292244
    ∷ 0x432aff97 ∷ 0xab9423a7 ∷ 0xfc93a039 ∷ 0x655b59c3 ∷ 0x8f0ccc92 ∷ 0xffeff47d ∷ 0x85845dd1
    ∷ 0x6fa87e4f ∷ 0xfe2ce6e0 ∷ 0xa3014314 ∷ 0x4e0811a1 ∷ 0xf7537e82 ∷ 0xbd3af235 ∷ 0x2ad7d2bb
    ∷ 0xeb86d391 ∷ []

-- LEFTROTATE
abbrev pub left_rotate : ℕ → ℕ → ℕ
left_rotate x c = bit_or (u32 (x * 2 ^ c)) (x / 2 ^ (32 - c))

-- `~x`
abbrev pub complement : ℕ → ℕ
complement x = 2 ^ 32 - 1 - x

-- h0 to h3, or a to d
pub record Digest : Type 0 where
  pub a : ℕ
  pub b : ℕ
  pub c : ℕ
  pub d : ℕ

abbrev pub initial_digest : Digest
initial_digest = record { a = 0x67452301; b = 0xefcdab89; c = 0x98badcfe; d = 0x10325476 }

-- `int new_len`, of a sum of 64 bits: its low 32 bits
abbrev pub new_len : ℕ → ℕ
new_len initial_len = u32 (((initial_len + 8) / 64 + 1) * 64 - 8)

-- the byte at an index of the padded message
unfoldable pub padded : (ℕ → ℕ) → ℕ → ℕ → ℕ
padded initial_msg initial_len i =
    let bits_len = u32 (8 * initial_len) in
    if ltb i initial_len
    then initial_msg i
    else if i == initial_len
    then 128
    else if ltb i (new_len initial_len)
    then 0
    else if ltb i (new_len initial_len + 4)
    then (bits_len / 2 ^ (8 * (i - new_len initial_len))) % 256
    else 0

-- `w[g]` of the chunk at an offset, on a little-endian machine
abbrev pub word_at : (ℕ → ℕ) → ℕ → ℕ → ℕ
word_at msg offset g =
    let p = offset + 4 * g in
    msg p + (msg (p + 1) * 2 ^ 8 + (msg (p + 2) * 2 ^ 16 + msg (p + 3) * 2 ^ 24))

-- f and g of round i
abbrev pub mix : ℕ → Digest → ℕ
mix i s =
    if ltb i 16
    then bit_or (bit_and s.b s.c) (bit_and (complement s.b) s.d)
    else if ltb i 32
    then bit_or (bit_and s.d s.b) (bit_and (complement s.d) s.c)
    else if ltb i 48
    then bit_xor (bit_xor s.b s.c) s.d
    else bit_xor s.c (bit_or s.b (complement s.d))

abbrev pub word_index : ℕ → ℕ
word_index i =
    if ltb i 16
    then i
    else if ltb i 32
    then (5 * i + 1) % 16
    else if ltb i 48
    then (3 * i + 5) % 16
    else (7 * i) % 16

unfoldable pub round : (ℕ → ℕ) → ℕ → ℕ → Digest → Digest
round msg offset i s =
    let sum = u32 (s.a + mix i s + get_or sines i 0 + word_at msg offset (word_index i)) in
    record { a = s.d; b = u32 (s.b + left_rotate sum (get_or shifts i 0)); c = s.b; d = s.c }

-- the rounds from i on, n of them
unfoldable pub rounds : ℕ → ℕ → (ℕ → ℕ) → ℕ → Digest → Digest
unfolding round
rounds zero i msg offset s = s
rounds (suc n) i msg offset s = rounds n (i + 1) msg offset (round msg offset i s)

-- a chunk, and the n chunks from an offset on
unfoldable pub chunk : (ℕ → ℕ) → ℕ → Digest → Digest
unfolding rounds
chunk msg offset h =
    let s = rounds 64 0 msg offset h in
    record { a = u32 (h.a + s.a); b = u32 (h.b + s.b); c = u32 (h.c + s.c); d = u32 (h.d + s.d) }

-- `for (offset = 0; offset < new_len; offset += 64)`, on fuel; both are of type `int`
unfoldable pub chunks : ℕ → ℕ → ℕ → (ℕ → ℕ) → Digest → Digest
unfolding chunk
chunks zero offset len msg h = h
chunks (suc fuel) offset len msg h =
    let rest = chunks fuel (u32 (offset + 64)) len msg (chunk msg offset h) in
    if slt32 offset len then rest else h

unfoldable pub md5 : (ℕ → ℕ) → ℕ → Digest
unfolding chunks padded
md5 initial_msg initial_len =
    chunks (new_len initial_len) 0 (new_len initial_len) (padded initial_msg initial_len)
      initial_digest
