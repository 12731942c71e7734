-- ===== src/Glide/StBuf/Laws.antt =====
-- gllstbuf.c: a buffer stays the buffer of its handle and size, and no two pairs share one.
use qemu_win.Prelude.{ℕ, ◌≡◌, refl, ◌≢◌, ◌⊎◌, true, false, Option, some, List, [], ◌∷◌, arith, ap}
use qemu_win.Registry.{
  find_or_add, first, first-find_or_add, first-find_or_add-some, find_or_add_of_first, Distinct,
  Apart, Distinct-find_or_add, first-ne,
}
use qemu_win.Glide.StBuf.{LlstBuf, matches, new_st_buf, lookup_st_buf}

-- a call of `LookupStBuf`: the size, the handle and what `g_malloc` would return
pub record Request : Type 0 where
  pub st_size : ℕ
  pub handle : ℕ
  pub mem : ℕ

unfoldable pub run : List Request → List LlstBuf → List LlstBuf
run [] pbuf = pbuf
run (r ∷ rs) pbuf = run rs (lookup_st_buf pbuf r.st_size r.handle r.mem).1

-- the buffer that belongs to a size and a handle
abbrev pub held : ℕ → ℕ → List LlstBuf → Option LlstBuf
held st_size handle pbuf = first (matches st_size handle) pbuf

matches-new :
    (st_size handle mem : ℕ) → matches st_size handle (new_st_buf st_size handle mem) ≡ true
matches-new st_size handle mem = ground arith

held-lookup :
    (pbuf : List LlstBuf) (st_size handle mem : ℕ)
    → (b : LlstBuf) × (held st_size handle (lookup_st_buf pbuf st_size handle mem).1 ≡ some b)
      × (b.st ≡ (lookup_st_buf pbuf st_size handle mem).0)
unfolding lookup_st_buf
held-lookup pbuf st_size handle mem = (
  (find_or_add (matches st_size handle) (new_st_buf st_size handle mem) pbuf).0,
  first-find_or_add _ _ pbuf (matches-new st_size handle mem),
  refl,
)

held-run :
    (rs : List Request) (st_size handle : ℕ) (pbuf : List LlstBuf) {b : LlstBuf}
    → held st_size handle pbuf ≡ some b
    → held st_size handle (run rs pbuf) ≡ some b
unfolding run lookup_st_buf
held-run [] st_size handle pbuf h = h
held-run (r ∷ rs) st_size handle pbuf h =
    held-run rs st_size handle _ (first-find_or_add-some _ _ (matches st_size handle) pbuf h)

lookup_of_held :
    (pbuf : List LlstBuf) (st_size handle mem : ℕ) {b : LlstBuf}
    → held st_size handle pbuf ≡ some b
    → lookup_st_buf pbuf st_size handle mem ≡ (b.st, pbuf)
unfolding lookup_st_buf
lookup_of_held pbuf st_size handle mem h =
    ap (λ (r : LlstBuf × List LlstBuf). (r.0.st, r.1))
      (find_or_add_of_first _ (new_st_buf st_size handle mem) pbuf h)

-- Once `LookupStBuf` has returned a buffer for a handle and a size, it returns that buffer for them
-- after any further calls, and then changes nothing.
pub lookup_stable :
    (pbuf : List LlstBuf) (st_size handle mem again : ℕ) (rs : List Request)
    → lookup_st_buf (run rs (lookup_st_buf pbuf st_size handle mem).1) st_size handle again ≡ (
      (lookup_st_buf pbuf st_size handle mem).0,
      run rs (lookup_st_buf pbuf st_size handle mem).1,
    )
lookup_stable pbuf st_size handle mem again rs =
    let (b, found, same) = held-lookup pbuf st_size handle mem in
    rw (← same) (
      lookup_of_held (run rs (lookup_st_buf pbuf st_size handle mem).1) st_size handle again
        (held-run rs st_size handle _ found))

-- the addresses of the buffers are pairwise different
abbrev pub IsApart : List LlstBuf → Type 0
IsApart = Distinct (λ p. p.st)

-- `mem` is not the address of a buffer that is still in use, as `g_malloc` promises
abbrev pub IsUnused : ℕ → List LlstBuf → Type 0
IsUnused mem pbuf = Apart (λ p. p.st) (new_st_buf 0 0 mem) pbuf

-- `LookupStBuf` keeps the buffers at different addresses, when `g_malloc` returns an unused one.
pub lookup-IsApart :
    (pbuf : List LlstBuf) (st_size handle mem : ℕ)
    → IsUnused mem pbuf
    → IsApart pbuf
    → IsApart (lookup_st_buf pbuf st_size handle mem).1
unfolding lookup_st_buf
lookup-IsApart pbuf st_size handle mem unused h =
    Distinct-find_or_add (λ p. p.st) _ (new_st_buf st_size handle mem) pbuf unused h

matches-apart :
    (z h z' h' : ℕ)
    → (h ≢ h') ⊎ (z ≢ z')
    → (x : LlstBuf) → matches z h x ≡ true
    → matches z' h' x ≡ false
matches-apart z h z' h' ne x e = ground arith

-- With buffers at different addresses and an unused one from `g_malloc`, two requests that differ
-- in the handle or in the size are given different buffers.
pub lookup_no_alias :
    (pbuf : List LlstBuf) (z h m z' h' m' : ℕ)
    → IsApart pbuf
    → IsUnused m pbuf
    → IsUnused m' (lookup_st_buf pbuf z h m).1
    → (h ≢ h') ⊎ (z ≢ z')
    → (lookup_st_buf pbuf z h m).0 ≢ (lookup_st_buf (lookup_st_buf pbuf z h m).1 z' h' m').0
unfolding lookup_st_buf run held-lookup
lookup_no_alias pbuf z h m z' h' m' apart unused unused' ne =
    let pbuf' = (lookup_st_buf pbuf z h m).1 in
    let (b, found, same) = held-lookup pbuf z h m in
    let (b', found', same') = held-lookup pbuf' z' h' m' in
    let kept = held-run (record { st_size = z'; handle = h'; mem = m' } ∷ []) z h pbuf' found in
    let apart' = lookup-IsApart pbuf' z' h' m' unused' (lookup-IsApart pbuf z h m unused apart) in
    rw (← same, ← same')
      (first-ne (λ p. p.st) (matches z h) (matches z' h') _ (matches-apart z h z' h' ne) apart' kept
        found')
