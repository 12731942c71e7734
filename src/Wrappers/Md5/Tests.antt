-- ===== src/Wrappers/Md5/Tests.antt =====
-- The digests of the empty message and of "abc", which RFC 1321 gives.
use qemu_win.Prelude.{ℕ, ◌*◌, ◌<◌, ◌≡◌, refl, [], ◌∷◌, arith, get_or}
use qemu_win.Wrappers.Md5.{padded, md5}
use qemu_win.Wrappers.Md5.Laws.{rfc_chunks, rfc_padded, padded-rfc_padded}

abbrev abc : ℕ → ℕ
abc i = get_or (0x61 ∷ 0x62 ∷ 0x63 ∷ []) i 0

empty_digest :
    md5 (λ i. 0) 0 ≡ record { a = 0xd98c1dd4; b = 0x04b2008f; c = 0x980980e9; d = 0x7e42f8ec }
unfolding md5
empty_digest = refl

abc_digest : md5 abc 3 ≡ record { a = 0x98500190; b = 0xb04fd23c; c = 0x7d3f96d6; d = 0x727fe128 }
unfolding md5
abc_digest = refl

in_chunk : 56 < 64 * rfc_chunks 3
unfolding rfc_chunks
in_chunk = omega arith

padded-rfc_padded_example : padded abc 3 56 ≡ rfc_padded abc 3 56
padded-rfc_padded_example = padded-rfc_padded abc 3 56 (omega arith) in_chunk
