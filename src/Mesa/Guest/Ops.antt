-- ===== src/Mesa/Guest/Ops.antt =====
-- wrapgl32.c: a wrapper that sends data. It calls fifoAddData for each buffer, stores its arguments,
-- and queues the call or makes it at once.
use qemu_win.Prelude.{ℕ, List, []}

-- the function, the number of arguments that are stored, for a queued call the number that
-- FIFO_GLFUNC is given, and the buffers: which argument is the address, and how many bytes
pub data Sent : Type 0 where
  queued_as : ℕ → ℕ → ℕ → List (ℕ × ℕ) → Sent
  direct : ℕ → ℕ → List (ℕ × ℕ) → Sent

-- a queued call whose two numbers are the same
abbrev pub queued : ℕ → ℕ → List (ℕ × ℕ) → Sent
queued f n sent = queued_as f n n sent

abbrev pub func : Sent → ℕ
func (queued_as f stored n sent) = f
func (direct f stored sent) = f

abbrev pub stored_args : Sent → ℕ
stored_args (queued_as f stored n sent) = stored
stored_args (direct f stored sent) = stored

-- the arguments that FIFO_GLFUNC copies into the queue; a call that is not queued leaves them where
-- they are stored
abbrev pub queued_args : Sent → ℕ
queued_args (queued_as f stored n sent) = n
queued_args (direct f stored sent) = stored

abbrev pub buffers : Sent → List (ℕ × ℕ)
buffers (queued_as f stored n sent) = sent
buffers (direct f stored sent) = sent

-- a call without data: it stores its n arguments as they are, in order
abbrev pub queue : ℕ → ℕ → Sent
queue f n = queued f n []

abbrev pub call : ℕ → ℕ → Sent
call f n = direct f n []

-- a call whose numbers differ
abbrev pub queue_as : ℕ → ℕ → ℕ → Sent
queue_as f stored n = queued_as f stored n []

-- by `strlen` of the guest's texts, and the arguments
abbrev pub Wrapper : Type 0
Wrapper = (ℕ → ℕ) → (ℕ → ℕ) → Sent

-- a wrapper, with the bytes that it sends, before any wraps round
pub record Row : Type 0 where
  pub run : Wrapper
  pub size : (ℕ → ℕ) → (ℕ → ℕ) → ℕ

abbrev pub row : Wrapper → ((ℕ → ℕ) → (ℕ → ℕ) → ℕ) → Row
row f n = record { run = f; size = n }
