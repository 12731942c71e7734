-- ===== src/Glide/StBuf.antt =====
-- gllstbuf.c: the buffers in which the host keeps Glide states and vertex layouts for the guest.
mod Laws
mod Tests
use qemu_win.Prelude.{ℕ, Bool, List, [], ◌&&◌, ◌==◌, length}
use qemu_win.Registry.{find_or_add}

-- `LLSTBUF`; the list stands for the `next` pointers, and `st` is the address of the buffer.
pub record LlstBuf : Type 0 where
  pub id : ℕ
  pub sz : ℕ
  pub st : ℕ

-- the two static lists of the file
pub record StBufs : Type 0 where
  pub gr_state : List LlstBuf
  pub vtx_layout : List LlstBuf

abbrev pub matches : ℕ → ℕ → LlstBuf → Bool
matches st_size handle p = (p.id == handle) && (p.sz == st_size)

-- `mem` is what `g_malloc` returns, if the call allocates
abbrev pub new_st_buf : ℕ → ℕ → ℕ → LlstBuf
new_st_buf st_size handle mem = record { id = handle; sz = st_size; st = mem }

pub lookup_st_buf : List LlstBuf → ℕ → ℕ → ℕ → ℕ × List LlstBuf
lookup_st_buf pbuf st_size handle mem =
    let (p, pbuf') = find_or_add (matches st_size handle) (new_st_buf st_size handle mem) pbuf in
    (p.st, pbuf')

-- returns how many buffers it released
pub free_st_buf : List LlstBuf → ℕ × List LlstBuf
free_st_buf pbuf = (length pbuf, [])

pub lookup_gr_state : StBufs → ℕ → ℕ → ℕ → ℕ × StBufs
lookup_gr_state s handle size mem =
    let (p, l) = lookup_st_buf s.gr_state size handle mem in (p, record s { gr_state = l })

pub lookup_vtx_layout : StBufs → ℕ → ℕ → ℕ → ℕ × StBufs
lookup_vtx_layout s handle size mem =
    let (p, l) = lookup_st_buf s.vtx_layout size handle mem in (p, record s { vtx_layout = l })

pub free_gr_state : StBufs → ℕ × StBufs
free_gr_state s = let (n, l) = free_st_buf s.gr_state in (n, record s { gr_state = l })

pub free_vtx_layout : StBufs → ℕ × StBufs
free_vtx_layout s = let (n, l) = free_st_buf s.vtx_layout in (n, record s { vtx_layout = l })
