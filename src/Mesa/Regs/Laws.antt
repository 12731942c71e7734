-- ===== src/Mesa/Regs/Laws.antt =====
-- mesapt_mm.c: mesapt_write implements the abstract life of the context.
use qemu_win.Prelude.{ℕ, ◌≡◌, refl, ◌&&◌, arith, ◌==◌, ◌!=◌, if◌then◌else◌}
use qemu_win.Mesa.Regs.{
  Regs, Host, Func, write_version, write_call, write_create, write_current, write_delete,
  write_func, write_other, write_magic, mesapt_write, create_context_attribs, choose_pixel_format,
  set_device_cursor, another,
}
use qemu_win.Mesa.Regs.Phase.{
  phase_of, phase, func_event, magic_event, event_of, step, nothing, opened, entered, deleted,
  unloaded,
}

create-phase :
    (host : Host) (s : Regs)
    → phase (write_create host s).0
      ≡ step (if host.create_ret == 0 then opened else nothing) (phase s)
unfolding write_create phase phase_of step
create-phase host s = ground arith

current-phase :
    (host : Host) (s : Regs)
    → phase (write_current host s).0
      ≡ step (if host.pt_ver != 0 && host.current_ret == 0 then entered else nothing) (phase s)
unfolding write_current phase phase_of step
current-phase host s = ground arith

delete-phase : (s : Regs) → phase (write_delete s).0 ≡ step deleted (phase s)
unfolding write_delete phase phase_of step
delete-phase s = ground arith

version-phase :
    (host : Host) (val : ℕ) (s : Regs)
    → phase (write_version host val s).0
      ≡ step (if val == 0xd0320 then unloaded else nothing) (phase s)
unfolding write_version phase phase_of step
version-phase host val s = ground arith

other-phase : (host : Host) (addr : ℕ) (s : Regs) → phase (write_other host addr s).0 ≡ phase s
unfolding write_other phase phase_of
other-phase host addr s = ground arith

func-phase : (f : Func) (s : Regs) → phase (write_func f s).0 ≡ step (func_event f) (phase s)
unfolding write_func phase phase_of func_event step
func-phase (create_context_attribs a0 a1) s = ground arith
func-phase (choose_pixel_format a0) s = refl
func-phase set_device_cursor s = refl
func-phase another s = refl

magic-phase :
    (host : Host) (addr : ℕ) (s : Regs)
    → phase (write_magic host addr s).0 ≡ step (magic_event host addr) (phase s)
unfolding write_magic magic_event step
magic-phase host addr s = grind (
  arith,
  create-phase host s,
  current-phase host s,
  delete-phase s,
  func-phase host.func s,
  other-phase host addr s,
)

call-phase : (debug val : ℕ) (s : Regs) → phase (write_call debug val s).0 ≡ phase s
unfolding write_call phase
call-phase debug val s = ground arith

-- Every write to a register, whatever the host answers, changes the phase of the context (none,
-- created, current, or none while the device still takes one for current) as the table of the
-- abstract events says.
pub mesapt_write-phase :
    (debug : ℕ) (host : Host) (addr val : ℕ) (s : Regs)
    → phase (mesapt_write debug host addr val s).0 ≡ step (event_of host addr val) (phase s)
unfolding mesapt_write event_of step
mesapt_write-phase debug host addr val s =
    grind (arith, version-phase host val s, call-phase debug val s, magic-phase host addr s)
