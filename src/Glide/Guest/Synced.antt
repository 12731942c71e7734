-- ===== src/Glide/Guest/Synced.antt =====
-- What keeps the guest and the host together: for each call, the guest announces as many arguments
-- as the host skips, and has pushed as many words of data as the host skips.
use qemu_win.Prelude.{ℕ, ◌+◌, ◌≡◌, some, List, [], ◌∷◌, ◌==◌, if◌then◌else◌, update}
use qemu_win.Fifo.Defs.{num_data, even_up}
use qemu_win.Glide.Symbols.{grf_enum_args_cnt}
use qemu_win.Glide.Args.State.{GlidePt, Host}
use qemu_win.Glide.Args.{process_args}
use qemu_win.Glide.Guest.Ops.{Src, at, local, Op, add_data, store, grfunc, call}

-- the first word of a buffer
abbrev pub head_word : (ℕ → ℕ) → Src → ℕ
head_word word (at a) = word a
head_word word (local []) = 0
head_word word (local (x ∷ xs)) = x

-- its address; that of a local variable is never an argument
abbrev pub src_addr : Src → ℕ
src_addr (at a) = a
src_addr (local xs) = 0

module _ (host : Host) (s : GlidePt) where
  -- the words that the host skips for the function `f` when the argument words are `pt[1]`, ...,
  -- and the data begins with the word `first`
  unfoldable pub host_words : ℕ → ℕ → (ℕ → ℕ) → ℕ
  host_words f first pt =
      num_data
        (process_args (record host { first_word = first })
          (record s { fenum = f; arg = λ i. pt (i + 1); datacb = 0 })).datacb

module _ (word : ℕ → ℕ) (host : Host) (s : GlidePt) where
  -- `pt` is the guest's argument area; `sent` words are pushed for the next call, the first of them
  -- `first`
  abbrev pub Synced : List Op → (ℕ → ℕ) → ℕ → ℕ → Type 0
  Synced [] pt sent first = sent ≡ 0
  Synced (add_data n src cb ∷ ops) pt sent first =
      Synced ops (if n == 0 then pt else update pt n (src_addr src)) (sent + even_up (num_data cb))
        (if sent == 0 then head_word word src else first)
  Synced (store i v ∷ ops) pt sent first = Synced ops (update pt i v) sent first
  Synced (grfunc f n ∷ ops) pt sent first =
      (grf_enum_args_cnt f ≡ some n) × (sent ≡ host_words host s f first pt) × Synced ops pt 0 0
  Synced (call f ∷ ops) pt sent first = (sent ≡ host_words host s f first pt) × Synced ops pt 0 0
  Synced (op ∷ ops) pt sent first = Synced ops pt sent first
