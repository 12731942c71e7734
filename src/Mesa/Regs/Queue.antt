-- ===== src/Mesa/Regs/Queue.antt =====
-- mesapt_mm.c: which writes run the queue of calls.
use qemu_win.Prelude.{
  ℕ, ◌≡◌, refl, Bool, true, false, ◌&&◌, ◌||◌, List, [], ◌∷◌, ◌++◌, arith, ◌==◌, ◌!=◌,
}
use qemu_win.Mesa.Regs.{
  Regs, Host, Func, Action, run_queue, write_version, write_call, write_create, write_current,
  write_delete, write_func, write_other, write_magic, magic_actions, mesapt_write, mesagl_magic,
  create_context_attribs, choose_pixel_format, set_device_cursor, another,
}
use qemu_win.Mesa.Regs.Phase.{Phase, current, phase_of, phase}

unfoldable pub has_queue : List Action → Bool
has_queue [] = false
has_queue (run_queue ∷ acts) = true
has_queue (a ∷ acts) = has_queue acts

no_actions : has_queue [] ≡ false
unfolding has_queue
no_actions = refl

unfoldable pub is_current : Phase → Bool
is_current current = true
is_current p = false

create-has_queue : (host : Host) (s : Regs) → has_queue (write_create host s).1 ≡ false
unfolding write_create has_queue
create-has_queue host s = ground arith

current-has_queue : (host : Host) (s : Regs) → has_queue (write_current host s).1 ≡ false
unfolding write_current has_queue
current-has_queue host s = ground arith

delete-has_queue : (s : Regs) → has_queue (write_delete s).1 ≡ false
unfolding write_delete has_queue
delete-has_queue s = ground arith

version-has_queue :
    (host : Host) (val : ℕ) (s : Regs) → has_queue (write_version host val s).1 ≡ false
unfolding write_version has_queue
version-has_queue host val s = ground arith

func-has_queue : (f : Func) (s : Regs) → has_queue (write_func f s).1 ≡ false
unfolding write_func has_queue
func-has_queue (create_context_attribs a0 a1) s = ground arith
func-has_queue (choose_pixel_format a0) s = refl
func-has_queue set_device_cursor s = refl
func-has_queue another s = refl

other-has_queue :
    (host : Host) (addr : ℕ) (s : Regs) → has_queue (write_other host addr s).1 ≡ false
unfolding write_other has_queue
other-has_queue host addr s = ground arith

magic-has_queue :
    (host : Host) (addr : ℕ) (s : Regs) → has_queue (write_magic host addr s).1 ≡ false
unfolding write_magic
magic-has_queue host addr s = grind (
  arith,
  create-has_queue host s,
  current-has_queue host s,
  delete-has_queue s,
  func-has_queue host.func s,
  other-has_queue host addr s,
)

call-has_queue :
    (debug val : ℕ) (s : Regs)
    → has_queue (write_call debug val s).1 ≡ (is_current (phase s) || val == debug)
unfolding write_call has_queue is_current phase phase_of
call-has_queue debug val s = ground arith

before-has_queue :
    (s : Regs) (acts : List Action)
    → has_queue acts ≡ false
    → has_queue (magic_actions s ++ acts) ≡ is_current (phase s)
unfolding magic_actions has_queue is_current phase phase_of
before-has_queue s acts h = ground arith

-- The queued calls run on a write to the call register, if the context is current or the call is
-- glDebugMessageInsertARB; on a write of MESAGL_MAGIC to another register but the version register,
-- if the context is current; and on no other write.
pub mesapt_write-has_queue :
    (debug : ℕ) (host : Host) (addr val : ℕ) (s : Regs)
    → has_queue (mesapt_write debug host addr val s).1 ≡ (
        ((addr == 0xfc0) && (is_current (phase s) || val == debug))
        || ((addr != 0xfc0)
            && ((addr != 0xfbc) && ((val == mesagl_magic) && is_current (phase s)))))
unfolding mesapt_write
mesapt_write-has_queue debug host addr val s = grind (
  arith,
  no_actions,
  version-has_queue host val s,
  call-has_queue debug val s,
  before-has_queue s (write_magic host addr s).1 (magic-has_queue host addr s),
)
