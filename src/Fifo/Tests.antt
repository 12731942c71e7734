-- ===== src/Fifo/Tests.antt =====
-- A round of the channel with the sizes of the Glide device: one call with an argument and a
-- buffer of two words.
use qemu_win.Prelude.{ℕ, ◌+◌, ◌≡◌, refl, some, List, [], ◌∷◌, ◌++◌, arith, ◌==◌, if◌then◌else◌}
use mathlib.Core.Option
use qemu_win.Fifo.Defs.{Memory, num_data, even_up}
use qemu_win.Fifo.Guest.{copy_args, fifo_add_entry, copy_words, fifo_add_data, can_queue}
use qemu_win.Fifo.Host.{Chan, run_entry, drain, run_queue, leave_queue, process_fifo}
use qemu_win.Fifo.Calls.{Call, Queued}
use qemu_win.Fifo.Copy.{words_of}
use qemu_win.Fifo.Send.{Pending, fifo_add_data-Pending, fifo_add_entry-Queued}
use qemu_win.Fifo.Drain.{Served}
use qemu_win.Fifo.Session.{Drained, process_queue}

abbrev max_fifo : ℕ
max_fifo = 0x10000

-- the first word after the data of the device
abbrev limit : ℕ
limit = 0xbc000

-- what the guest finds at the start, with one argument word written
abbrev fresh : Memory
fresh k = if k == 0 then 24 else if k == max_fifo then 2 else if k == 2 then 11 else 0

abbrev source : ℕ → ℕ
source k = 100 + k

abbrev sent : Memory
sent = fifo_add_data max_fifo fresh 0 0 source 8

abbrev call : Call
call = record { fenum = 7; args = 11 ∷ []; chunks = (100 ∷ 101 ∷ []) ∷ [] }

guest_writes :
    let m = fifo_add_entry sent 7 1 in
    (m 24 ≡ 7)
    × (m 25 ≡ 11)
    × (m 0 ≡ 26)
    × (m (max_fifo + 2) ≡ 100)
    × (m (max_fifo + 3) ≡ 101)
    × (m max_fifo ≡ 4)
unfolding fifo_add_entry copy_args fifo_add_data copy_words num_data even_up
guest_writes = (refl, refl, refl, refl, refl, refl)

fresh-Pending : Pending max_fifo fresh [] []
fresh-Pending = record { stored = tt; fifo_at = refl; data_at = refl; sent = tt }

fifo_add_data-Pending_example : Pending max_fifo sent [] ([] ++ words_of source 0 (num_data 8) ∷ [])
fifo_add_data-Pending_example =
    fifo_add_data-Pending max_fifo fresh [] [] 0 0 source 8 fresh-Pending (omega arith)
      (omega arith)

fifo_add_entry-Queued_example : Queued max_fifo (fifo_add_entry sent 7 1) (
    []
    ++ record { fenum = 7; args = 11 ∷ []; chunks = [] ++ words_of source 0 (num_data 8) ∷ [] }
      ∷ [])
unfolding fifo_add_data copy_words num_data even_up can_queue
fifo_add_entry-Queued_example =
    fifo_add_entry-Queued max_fifo sent [] ([] ++ words_of source 0 (num_data 8) ∷ []) 7 (11 ∷ [])
      0xaf000 fifo_add_data-Pending_example (refl, tt) (omega arith) refl

-- the memory after the round of the guest
abbrev queued : Memory
queued k =
    if k == 0
    then 26
    else if k == 24
    then 7
    else if k == 25
    then 11
    else if k == max_fifo
    then 4
    else if k == max_fifo + 2
    then 100
    else if k == max_fifo + 3
    then 101
    else 0

queued-Queued : Queued max_fifo queued (call ∷ [])
unfolding even_up
queued-Queued = record {
  stored = ((refl, (refl, tt), ((refl, (refl, tt)), tt)), tt);
  fifo_at = refl;
  data_at = refl;
}

-- a device that logs the first argument of each call
abbrev log_call : Chan (List ℕ) → Chan (List ℕ)
log_call s = record s { datacb = if s.fenum == 7 then 8 else 0; dev = s.mem s.arg ∷ s.dev }

abbrev one_arg : ℕ → ℕ
one_arg f = 1

abbrev start : Chan (List ℕ)
start = record {
  mem = queued;
  fenum = 9;
  arg = 0;
  hshm = 0;
  datacb = 0;
  fifo_max = 0;
  data_max = 0;
  dev = [];
}

call-Served : Served max_fifo one_arg log_call limit call
unfolding run_entry num_data even_up
call-Served = record { args = refl; consumed = λ s i j h. rw h.0; keeps = λ s i j h k side. refl }

process_queue_example :
    (t : Chan (List ℕ)) × (process_fifo max_fifo one_arg log_call 2 start ≡ some t)
    × Drained max_fifo one_arg log_call limit (call ∷ []) start t
unfolding even_up
process_queue_example =
    process_queue max_fifo one_arg log_call limit call [] 2 start queued-Queued (omega arith)
      (omega arith) (omega arith) (call-Served, tt)

abbrev observed : Chan (List ℕ) → List ℕ × ℕ × ℕ
observed t = (t.dev, t.mem 0, t.mem max_fifo)

host_reads :
    Option.map observed (process_fifo max_fifo one_arg log_call 2 start) ≡ some (11 ∷ [], 24, 0)
unfolding process_fifo run_queue drain leave_queue num_data
host_reads = refl
