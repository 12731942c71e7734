-- ===== src/Glide/Guest/Ops.antt =====
-- glidedll.c, the guest's GLIDE2X.DLL: what a wrapper function does to the shared memory, step by
-- step, and what it finds in the guest and gets from the device.
use qemu_win.Prelude.{ℕ, zero, suc, ◌+◌, Bool, List, [], ◌∷◌, ◌++◌, if◌then◌else◌}

-- the address of an application's buffer, or the words of a local variable
pub data Src : Type 0 where
  at : ℕ → Src
  local : List ℕ → Src

pub data Op : Type 0 where
  -- `fifoAddData(n_arg, src, cb)`
  add_data : ℕ → Src → ℕ → Op
  -- `pt[i] = v`
  store : ℕ → ℕ → Op
  -- `FIFO_GRFUNC(fenum, n)`
  grfunc : ℕ → ℕ → Op
  -- `*pt0 = fenum`
  call : ℕ → Op
  -- `fifoOutData(offs, darg, cb)`
  out_data : ℕ → ℕ → ℕ → Op
  -- `memcpy` of `cb` bytes to an address, from the start of the data, and from a file that the
  -- device has left at the end of the shared memory
  copy_data : ℕ → ℕ → Op
  copy_file : ℕ → ℕ → Op
  -- a file of `len` bytes is left there, and the device is told so
  push_file : ℕ → Op
  -- the word at an address of the guest goes on by so many
  advance : ℕ → ℕ → Op
  -- the build string is left for the device
  put_version : Op
  -- the loop on the register 0xfb8
  wait_window : Op
  -- HookTimeGetTime, and `HookEntryHook(0, 0)`
  hook_time : Op
  unhook : Op

-- arg0, arg1, ...
abbrev pub Args : Type 0
Args = ℕ → ℕ

pub record Env : Type 0 where
  -- the 32-bit word at an address of the guest
  pub word : ℕ → ℕ
  -- the address of a local variable
  pub stack : ℕ
  -- what the device returns to the wrapper, and to a grTexTextureMemRequired within it
  pub ret : ℕ
  pub mem_required : ℕ
  -- whether a file opens, and its length
  pub opens : Bool
  pub file_len : ℕ
  -- `lfb`, and what `basename` returns
  pub lfb : ℕ
  pub basename : ℕ

-- `guTex[i]` but for `oddEven`, which nothing reads
pub record GuTexInfo : Type 0 where
  pub mmid : ℕ
  pub small : ℕ
  pub large : ℕ
  pub aspect : ℕ
  pub format : ℕ

-- the static variables: the first `guTexNum` entries of guTex, grGlidePresent and grGlideWnd
pub record Statics : Type 0 where
  pub gu_tex : List GuTexInfo
  pub present : Bool
  pub wnd : ℕ

abbrev pub Wrapper : Type 0
Wrapper = Statics → Env → Args → List Op

-- `pt[i + 1] = arg_i;` for n arguments
abbrev pub stores : ℕ → ℕ → Args → List Op
stores zero i a = []
stores (suc n) i a = store (i + 1) (a i) ∷ stores n (i + 1) a

-- The wrappers that only hand their arguments on: by the queue, or at once.
pub data Plain : Type 0 where
  queued : ℕ → ℕ → Plain
  direct : ℕ → ℕ → Plain

unfoldable pub plain : Plain → Wrapper
plain (queued f n) g env a = stores n 0 a ++ (grfunc f n ∷ [])
plain (direct f n) g env a = stores n 0 a ++ (call f ∷ [])

abbrev pub ops_if : Bool → List Op → List Op
ops_if b ops = if b then ops else []
