-- ===== src/Mesa/Regs/Phase.antt =====
-- mesapt_mm.c, an abstract view of the registers: the life of the OpenGL context.
use qemu_win.Prelude.{ℕ, Bool, true, false, ◌&&◌, ◌==◌, ◌!=◌, if◌then◌else◌}
use qemu_win.Mesa.Regs.{Regs, Host, Func, create_context_attribs, mesagl_magic}

-- no context; one that is not current yet; a current one; and none, while the device still takes
-- one for current
pub data Phase : Type 0 where
  idle : Phase
  created : Phase
  current : Phase
  stale : Phase

pub data Event : Type 0 where
  nothing : Event
  -- a context has been created by wglCreateContext, or by wglCreateContextAttribsARB
  opened : Event
  replaced : Event
  entered : Event
  deleted : Event
  unloaded : Event

unfoldable pub phase_of : Bool → Bool → Phase
phase_of false false = idle
phase_of true false = created
phase_of true true = current
phase_of false true = stale

unfoldable pub phase : Regs → Phase
phase s = phase_of (s.mgl_context != 0) (s.mgl_cntx_current != 0)

unfoldable pub func_event : Func → Event
func_event (create_context_attribs a0 a1) = if a0 != 0 && a1 == 0 then replaced else nothing
func_event f = nothing

unfoldable pub magic_event : Host → ℕ → Event
unfolding func_event
magic_event host addr =
    if addr == 0xffc
    then (if host.create_ret == 0 then opened else nothing)
    else if addr == 0xff8
    then (if host.pt_ver != 0 && host.current_ret == 0 then entered else nothing)
    else if addr == 0xff4
    then deleted
    else if addr == 0xfdc
    then func_event host.func
    else nothing

-- what a write means for the context
unfoldable pub event_of : Host → ℕ → ℕ → Event
event_of host addr val =
    if addr == 0xfbc
    then (if val == 0xd0320 then unloaded else nothing)
    else if addr == 0xfc0
    then nothing
    else if val == mesagl_magic
    then magic_event host addr
    else nothing

unfoldable pub step : Event → Phase → Phase
step nothing p = p
step opened idle = created
step opened stale = current
step opened p = p
step replaced p = created
step entered created = current
step entered p = p
step deleted current = idle
step deleted p = p
step unloaded idle = idle
step unloaded created = idle
step unloaded current = stale
step unloaded stale = stale
