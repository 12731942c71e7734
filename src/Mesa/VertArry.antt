-- ===== src/Mesa/VertArry.antt =====
-- mglvarry.c: host copies of the guest's vertex arrays, found by guest address.
mod Laws
mod Tests
use qemu_win.Prelude.{
  ℕ, ◌+◌, ◌-◌, ◌*◌, ◌/◌, Bool, Option, none, some, List, [], ◌&&◌, ◌==◌, ltb, leb, if◌then◌else◌,
  length, u32, sub32,
}
use qemu_win.Registry.{find_or_add}

-- `VERTARRY`; the list stands for the `next` pointers, and `ptr` is the address of the copy.
pub record VertArry : Type 0 where
  pub tag_lo : ℕ
  pub tag_hi : ℕ
  pub ptr : ℕ

abbrev pub page_size : ℕ
page_size = 0x1000

-- the test of the walk: `handle` lies in the node's range with half a `size` to go
pub covers : ℕ → ℕ → VertArry → Bool
covers handle size p =
    leb p.tag_lo handle && ltb handle p.tag_hi && leb (size / 2) (sub32 p.tag_hi handle)

-- the first guest address of a node made for `handle`
abbrev pub new_tag_lo : ℕ → ℕ → ℕ
new_tag_lo handle size = if ltb size handle then handle - size else page_size

-- `mem` is what `g_malloc(size << 1)` returns, if the call allocates
pub new_vert_arry : ℕ → ℕ → ℕ → VertArry
new_vert_arry handle size mem = record {
  tag_lo = new_tag_lo handle size;
  tag_hi = u32 (new_tag_lo handle size + u32 (size * 2));
  ptr = mem;
}

-- `none` is the null pointer; otherwise the node and the offset into its copy
pub lookup_vert_arry : List VertArry → ℕ → ℕ → ℕ → Option (VertArry × ℕ) × List VertArry
lookup_vert_arry p_arry handle size mem =
    let (p, l) = find_or_add (covers handle size) (new_vert_arry handle size mem) p_arry in
    if handle == 0 then (none, p_arry) else (some (p, sub32 handle p.tag_lo), l)

pub free_vert_arry : List VertArry → ℕ × List VertArry
free_vert_arry p_arry = (length p_arry, [])
