-- ===== src/Fifo/Host.antt =====
-- The host's half: processFifo of glidept_mm.c and mesapt_mm.c, the same text in both. What a call
-- does (processArgs, doGlideFunc or doMesaFunc, processFRet) is the argument `exec`.
use qemu_win.Prelude.{
  ℕ, zero, suc, ◌+◌, true, false, Option, none, some, ltb, ◌!=◌, if◌then◌else◌, update, sub32,
}
use qemu_win.Fifo.Defs.{Memory, first_fifo, first_data, num_data}

-- The fields that GlidePTState and MesaPTState share; `arg` and `hshm` point into the shared
-- memory, and are word indices. `dev` is the rest of the device.
pub record Chan (D : Type 0) : Type 0 where
  pub mem : Memory
  pub fenum : ℕ
  pub arg : ℕ
  pub hshm : ℕ
  pub datacb : ℕ
  pub fifo_max : ℕ
  pub data_max : ℕ
  pub dev : D

module _ {D : Type 0} (max_fifo : ℕ) (args_cnt : ℕ → ℕ) (exec : Chan D → Chan D) where
  -- one round of the loop up to `processFRet`
  unfoldable pub run_entry : ℕ → ℕ → Chan D → Chan D
  run_entry i j s =
      exec (record s { fenum = s.mem i; datacb = 0; arg = i + 1; hshm = max_fifo + j })

  -- the loop, on fuel; `none` means that the fuel ran out
  unfoldable pub drain : ℕ → ℕ → ℕ → Chan D → Option (ℕ × ℕ × Chan D)
  unfolding run_entry
  drain zero i j s = none
  drain (suc fuel) i j s = elim (ltb i (s.mem 0)) [
    | true ↦
        let s' = run_entry i j s in
        drain fuel (i + 1 + args_cnt (s.mem i)) (j + num_data s'.datacb) s'
    | false ↦ some (i, j, s)
  ]

  -- the branch for a queue that is not empty
  unfoldable pub run_queue : ℕ → Chan D → Option (ℕ × Chan D)
  run_queue fuel s = elim (drain fuel first_fifo first_data s) [
    | none ↦ none
    | some (i, j, t) ↦ some (
      j,
      record t {
        mem = update t.mem 0 first_fifo;
        fenum = s.fenum;
        fifo_max = if ltb t.fifo_max i then i else t.fifo_max;
      },
    )
  ]

  -- what follows the branch: the pointers of the call that is not queued, and the data counter
  unfoldable pub leave_queue : ℕ → Chan D → Chan D
  leave_queue j s =
      let t = record s { datacb = 0; arg = 2; hshm = max_fifo + j } in
      if ltb first_data j
      then record t {
        data_max = if ltb s.data_max (s.mem max_fifo) then s.mem max_fifo else s.data_max;
        mem = update s.mem max_fifo (sub32 (s.mem max_fifo) j);
      }
      else t

  unfoldable pub process_fifo : ℕ → Chan D → Option (Chan D)
  process_fifo fuel s =
      if s.mem 0 != first_fifo
      then elim (run_queue fuel s) [ none ↦ none | some (j, t) ↦ some (leave_queue j t) ]
      else some (leave_queue first_data s)
