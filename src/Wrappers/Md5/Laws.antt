-- ===== src/Wrappers/Md5/Laws.antt =====
-- md5.c: the padding is that of RFC 1321, and every chunk of it is processed.
use qemu_win.Prelude.{
  ℕ, zero, suc, ◌+◌, ◌-◌, ◌*◌, ◌/◌, ◌%◌, ◌^◌, ◌≤◌, ◌<◌, ◌≡◌, refl, ◌∙◌, Bool, true, false, arith,
  ◌==◌, ltb, if◌then◌else◌, u32, All-upto, sym, ap,
}
use qemu_win.Wrappers.Md5.{Digest, new_len, padded, chunk}

-- RFC 1321: the message, a byte 0x80, zeros up to 8 bytes below a multiple of 64, and the length in
-- bits as 64 bits, the lowest byte first.
unfoldable pub rfc_chunks : ℕ → ℕ
rfc_chunks len = (len + 8) / 64 + 1

pub rfc_padded : (ℕ → ℕ) → ℕ → ℕ → ℕ
unfolding rfc_chunks
rfc_padded msg len i =
    let tail = rfc_chunks len * 64 - 8 in
    if ltb i len
    then msg i
    else if i == len
    then 0x80
    else if ltb i tail
    then 0
    else (8 * len / 2 ^ (8 * (i - tail))) % 256

high_bytes : (n j : ℕ) → n < 2 ^ 32 → 4 ≤ j → j < 8 → (n / 2 ^ (8 * j)) % 256 ≡ 0
high_bytes n j small ge lt =
    All-upto (λ k. (n / 2 ^ (8 * k)) % 256 ≡ 0) 4 4 j (omega arith) ge (omega arith)

same_tail :
    (b1 b2 b3 : Bool) (m x y : ℕ)
    → (b3 ≡ false → x ≡ y)
    → (if b1 then m else if b2 then 128 else if b3 then 0 else x)
      ≡ (if b1 then m else if b2 then 128 else if b3 then 0 else y)
same_tail true b2 b3 m x y h = refl
same_tail false true b3 m x y h = refl
same_tail false false true m x y h = refl
same_tail false false false m x y h = h refl

length_byte :
    (n j : ℕ) (b : Bool)
    → n < 2 ^ 32
    → j < 8
    → ltb j 4 ≡ b
    → (if b then (u32 n / 2 ^ (8 * j)) % 256 else 0) ≡ (n / 2 ^ (8 * j)) % 256
length_byte n j true small lt h = ap (λ v. (v / 2 ^ (8 * j)) % 256) (omega arith)
length_byte n j false small lt h = sym (high_bytes n j small (ground arith) lt)

shifted : (i t : ℕ) → ltb i t ≡ false → ltb i (t + 4) ≡ ltb (i - t) 4
shifted i t h = ground arith

new_len_small : (len : ℕ) → len < 2 ^ 29 → new_len len ≡ ((len + 8) / 64 + 1) * 64 - 8
new_len_small len small = omega arith

-- For a message below 2^29 bytes, each byte of the chunks is the one that RFC 1321 asks for.
pub padded-rfc_padded :
    (msg : ℕ → ℕ) (len i : ℕ)
    → len < 2 ^ 29
    → i < 64 * rfc_chunks len
    → padded msg len i ≡ rfc_padded msg len i
unfolding padded rfc_padded rfc_chunks
padded-rfc_padded msg len i small lt =
    let t : ℕ = ((len + 8) / 64 + 1) * 64 - 8 in
    let e : new_len len ≡ t = new_len_small len small in
    rw e (
      same_tail (ltb i len) (i == len) (ltb i t) (msg i) _ _ (λ h.
        ap (λ b. if b then (u32 (8 * len) / 2 ^ (8 * (i - t))) % 256 else 0) (shifted i t h)
        ∙ length_byte (8 * len) (i - t) (ltb (i - t) 4) (omega arith) (omega arith) refl))

-- n chunks, one after the other
unfoldable pub chunk_run : ℕ → ℕ → (ℕ → ℕ) → Digest → Digest
chunk_run zero offset msg h = h
chunk_run (suc n) offset msg h = chunk_run n (offset + 64) msg (chunk msg offset h)
