-- ===== src/Mesa/Regs.antt =====
-- mesapt_mm.c: mesapt_write, the writes of the guest to the device's registers, and mesapt_read. What
-- the host does is a list of actions; what it answers is in the record `Host`.
mod Phase
mod Laws
mod Queue
mod Tests
use qemu_win.Prelude.{
  ℕ, ◌+◌, ◌/◌, ◌*◌, ◌^◌, Bool, true, false, ◌&&◌, ◌||◌, not, List, [], ◌∷◌, ◌++◌, ◌==◌, ◌!=◌,
  if◌then◌else◌, u32, sub32, bit_and,
}

abbrev pub mesagl_magic : ℕ
mesagl_magic = 0x5b5eb5e5

-- the name that the guest hands to MGLFuncHandler, as far as the device looks at it, with the
-- arguments behind it
pub data Func : Type 0 where
  create_context_attribs : ℕ → ℕ → Func
  choose_pixel_format : ℕ → Func
  set_device_cursor : Func
  another : Func

pub data Action : Type 0 where
  load_dll : Action
  temp_context : Action
  release_window : Action
  unload_dll : Action
  create_context : Action
  -- ContextCreateCommon
  reset_context : Action
  make_current : ℕ → ℕ → Action
  delete_context : ℕ → Action
  run_queue : Action
  -- processArgs, doMesaFunc, processFRet
  run_call : ℕ → Action
  -- `dataptr[0] = ALIGNED(1) >> 2`
  reset_data : Action
  clear_return : Action
  swap_buffers : Action
  pixel_format : Action
  query_ext : Action
  func_handler : Action
  cursor_define : Action
  activate : ℕ → Action
  new_timer : Action
  delete_timer : Action
  sched_timer : Action

-- the fields of MesaPTState that the registers change
pub record Regs : Type 0 where
  pub mesa_ver : ℕ
  pub mgl_context : ℕ
  pub mgl_cntx_current : ℕ
  pub mgl_cntx_wgl : ℕ
  pub fenum : ℕ
  pub disp_timer : Bool
  pub pixfmt : ℕ
  pub pixfmt_max : ℕ
  pub proc_ret : ℕ

pub record Host : Type 0 where
  -- the revision stamp matches and InitMesaGL() is 0
  pub dll_ok : Bool
  -- what MGLCreateContext and MGLMakeCurrent return
  pub create_ret : ℕ
  pub current_ret : ℕ
  -- `ptVer[0]`, GetDispTimerMS()
  pub pt_ver : ℕ
  pub timer_ms : ℕ
  pub func : Func
  -- the first word of the last page of the shared memory
  pub word : ℕ
  -- what the pixel format functions and ExtFuncIsValid return
  pub choose_ret : ℕ
  pub describe_ret : ℕ
  pub set_ret : ℕ
  pub ext_valid : Bool
  -- `((uint32_t *)s->fifo_ptr)[1]`
  pub mapped : ℕ

abbrev pub is_ready : Regs → Bool
is_ready s = s.mgl_context != 0 && s.mgl_cntx_current != 0

-- the register 0xFBC
unfoldable pub write_version : Host → ℕ → Regs → Regs × List Action
write_version host val s =
    if val == 0xa0320
    then (
      record s {
        mesa_ver =
            if host.dll_ok then bit_and (val / 2 ^ 12) 0xff + bit_and val 0xfff * 2 ^ 8 else 0;
      },
      if host.dll_ok then load_dll ∷ temp_context ∷ [] else [],
    )
    else if val == 0xd0320
    then (
      record s { mgl_context = 0 },
      (if s.mgl_context != 0 then delete_context 0 ∷ [] else [])
          ++ ((if s.mesa_ver != 0 then release_window ∷ [] else []) ++ (unload_dll ∷ [])),
    )
    else (s, [])

-- the register 0xFC0; FEnum_glDebugMessageInsertARB is the argument `debug_message`
unfoldable pub write_call : ℕ → ℕ → Regs → Regs × List Action
write_call debug_message val s =
    if is_ready s || val == debug_message
    then (record s { fenum = u32 val }, run_queue ∷ run_call (u32 val) ∷ reset_data ∷ [])
    else (s, clear_return ∷ [])

-- the case 0xFFC
unfoldable pub write_create : Host → Regs → Regs × List Action
write_create host s =
    if s.mgl_context == 0
    then (
      record s { mgl_context = if host.create_ret != 0 then 0 else 1 },
      create_context ∷ reset_context ∷ [],
    )
    else (s, create_context ∷ [])

-- the case 0xFF8
unfoldable pub write_current : Host → Regs → Regs × List Action
write_current host s =
    let level =
      if host.pt_ver / 16 == mesagl_magic / 16 then sub32 mesagl_magic host.pt_ver else 0 in
    let timer = host.timer_ms != 0 in
    if s.mgl_context != 0 && (s.mgl_cntx_current == 0 && host.pt_ver != 0)
    then (
      record s { mgl_cntx_current = if host.current_ret != 0 then 0 else 1; disp_timer = timer },
      make_current host.pt_ver level ∷ (if timer then new_timer ∷ sched_timer ∷ [] else []),
    )
    else (s, make_current host.pt_ver level ∷ [])

-- the case 0xFF4, where `val` is MESAGL_MAGIC
unfoldable pub write_delete : Regs → Regs × List Action
write_delete s =
    if is_ready s
    then (
      record s { disp_timer = false; mgl_context = 0; mgl_cntx_wgl = 0; mgl_cntx_current = 0 },
      delete_context 0 ∷ (if s.disp_timer then delete_timer ∷ [] else []),
    )
    else (s, delete_context 0 ∷ [])

-- the case 0xFDC
unfoldable pub write_func : Func → Regs → Regs × List Action
write_func (create_context_attribs a0 a1) s =
    if a0 != 0 && a1 == 0
    then (
      record s { mgl_cntx_current = 0; mgl_context = a0; mgl_cntx_wgl = a0 },
      func_handler ∷ reset_context ∷ [],
    )
    else (s, func_handler ∷ [])
write_func (choose_pixel_format a0) s = (record s { mgl_cntx_wgl = a0 }, func_handler ∷ [])
write_func set_device_cursor s = (s, func_handler ∷ cursor_define ∷ [])
write_func another s = (s, func_handler ∷ [])

-- the other cases
unfoldable pub write_other : Host → ℕ → Regs → Regs × List Action
write_other host addr s =
    let sched = if s.disp_timer && host.timer_ms != 0 then sched_timer ∷ [] else [] in
    if addr == 0xff0
    then (s, swap_buffers ∷ sched)
    else if addr == 0xfec
    then (record s { pixfmt = host.choose_ret }, pixel_format ∷ [])
    else if addr == 0xfe8
    then (
      record s { pixfmt_max = if host.mapped != 0 then host.describe_ret else 0 },
      if host.mapped != 0 then pixel_format ∷ [] else [],
    )
    else if addr == 0xfe4
    then (
      record s { proc_ret = if host.set_ret != 0 && host.mapped != 0 then mesagl_magic else 0 },
      pixel_format ∷ [],
    )
    else if addr == 0xfe0
    then (record s { proc_ret = if host.ext_valid then mesagl_magic else 0 }, query_ext ∷ [])
    else if addr == 0xfd8
    then (s, if is_ready s then activate host.word ∷ (if host.word != 0 then sched else []) else [])
    else (s, [])

-- what a write of MESAGL_MAGIC does before the case
unfoldable pub magic_actions : Regs → List Action
magic_actions s = if is_ready s then run_queue ∷ reset_data ∷ [] else []

unfoldable pub write_magic : Host → ℕ → Regs → Regs × List Action
write_magic host addr s =
    if addr == 0xffc
    then write_create host s
    else if addr == 0xff8
    then write_current host s
    else if addr == 0xff4
    then write_delete s
    else if addr == 0xfdc
    then write_func host.func s
    else write_other host addr s

unfoldable pub mesapt_write : ℕ → Host → ℕ → ℕ → Regs → Regs × List Action
mesapt_write debug_message host addr val s =
    let (t, acts) = write_magic host addr s in
    if addr == 0xfbc
    then write_version host val s
    else if addr == 0xfc0
    then write_call debug_message val s
    else if val == mesagl_magic
    then (t, magic_actions s ++ acts)
    else (s, [])

-- mesapt_read, from what glwnd_ready() and `s->FRet` are: the value, and the state
unfoldable pub mesapt_read : ℕ → ℕ → ℕ → Regs → ℕ × Regs
mesapt_read wnd_ready fret addr s =
    if addr == 0xfb8
    then (wnd_ready, s)
    else if addr == 0xfbc
    then (s.mesa_ver, s)
    else if addr == 0xfc0
    then (u32 fret, s)
    else if addr == 0xfec
    then (s.pixfmt, s)
    else if addr == 0xfe8
    then (s.pixfmt_max, s)
    else if addr == 0xfe4 || addr == 0xfe0
    then (s.proc_ret, record s { proc_ret = 0 })
    else (0, s)
