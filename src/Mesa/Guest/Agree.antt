-- ===== src/Mesa/Guest/Agree.antt =====
-- The wrappers whose data has a counted size, each with the case of the host.
use qemu_win.Prelude.{
  ℕ, zero, suc, ◌+◌, ◌^◌, ◌<◌, ◌≤◌, ap, some, List, [], ◌∷◌, ◌++◌, arith, get_or, length,
}
use qemu_win.Fifo.Defs.{num_data, even_up}
use qemu_win.Mesa.Args.{process_data}
use qemu_win.Mesa.Guest.Ops.{Row}
use qemu_win.Mesa.Guest.CountedA.{counted_a}
use qemu_win.Mesa.Guest.CountedB.{counted_b}
use qemu_win.Mesa.Guest.CountedC.{counted_c}
use qemu_win.Mesa.Guest.Table.{IsSynced}

module _ (strlen a : ℕ → ℕ) where
  unfoldable pub Agrees : Row → Type 0
  Agrees r = r.size strlen a + 128 ≤ 2 ^ 32 → IsSynced strlen a (r.run strlen a)

  infixr 5 ◌◁◌
  pub data Kept : List Row → Type 0 where
    done : Kept []
    ◌◁◌ : {r : Row} {rs : List Row} → Agrees r → Kept rs → Kept (r ∷ rs)

  pub Kept-get :
      (rs : List Row) (k : ℕ) (d : Row) → Kept rs → k < length rs → Agrees (get_or rs k d)
  Kept-get [] k d h lt = ground arith
  Kept-get (r ∷ rs) zero d (x ◁ h) lt = x
  Kept-get (r ∷ rs) (suc k) d (x ◁ h) lt = Kept-get rs k d h (omega arith)

  pub Kept-append : (rs qs : List Row) → Kept rs → Kept qs → Kept (rs ++ qs)
  Kept-append [] qs hr hq = hq
  Kept-append (r ∷ rs) qs (x ◁ h) hq = x ◁ Kept-append rs qs h hq

  pub counted_a-Kept : Kept counted_a
  unfolding Agrees counted_a process_data num_data even_up
  counted_a-Kept =
      (λ small. ap some (ground arith))
      ◁ (λ small. ap some (ground arith))
      ◁ (λ small. ap some (ground arith))
      ◁ (λ small. ap some (ground arith))
      ◁ (λ small. ap some (ground arith))
      ◁ (λ small. ap some (ground arith))
      ◁ (λ small. ap some (ground arith))
      ◁ (λ small. ap some (ground arith))
      ◁ (λ small. ap some (ground arith))
      ◁ (λ small. ap some (ground arith))
      ◁ (λ small. ap some (ground arith))
      ◁ (λ small. ap some (ground arith))
      ◁ (λ small. ap some (ground arith))
      ◁ (λ small. ap some (ground arith))
      ◁ (λ small. ap some (ground arith))
      ◁ (λ small. ap some (ground arith))
      ◁ (λ small. ap some (ground arith))
      ◁ (λ small. ap some (ground arith))
      ◁ (λ small. ap some (ground arith))
      ◁ (λ small. ap some (ground arith))
      ◁ (λ small. ap some (ground arith))
      ◁ (λ small. ap some (ground arith))
      ◁ (λ small. ap some (ground arith))
      ◁ (λ small. ap some (ground arith))
      ◁ (λ small. ap some (ground arith))
      ◁ (λ small. ap some (ground arith))
      ◁ (λ small. ap some (ground arith))
      ◁ (λ small. ap some (ground arith))
      ◁ (λ small. ap some (ground arith))
      ◁ (λ small. ap some (ground arith))
      ◁ (λ small. ap some (ground arith))
      ◁ (λ small. ap some (ground arith))
      ◁ (λ small. ap some (ground arith))
      ◁ (λ small. ap some (ground arith))
      ◁ (λ small. ap some (ground arith))
      ◁ (λ small. ap some (ground arith))
      ◁ (λ small. ap some (ground arith))
      ◁ (λ small. ap some (ground arith))
      ◁ (λ small. ap some (ground arith))
      ◁ (λ small. ap some (ground arith))
      ◁ (λ small. ap some (ground arith))
      ◁ (λ small. ap some (ground arith))
      ◁ (λ small. ap some (ground arith))
      ◁ (λ small. ap some (ground arith))
      ◁ (λ small. ap some (ground arith))
      ◁ (λ small. ap some (ground arith))
      ◁ done

  pub counted_b-Kept : Kept counted_b
  unfolding Agrees counted_b process_data num_data even_up
  counted_b-Kept =
      (λ small. ap some (ground arith))
      ◁ (λ small. ap some (ground arith))
      ◁ (λ small. ap some (ground arith))
      ◁ (λ small. ap some (ground arith))
      ◁ (λ small. ap some (ground arith))
      ◁ (λ small. ap some (ground arith))
      ◁ (λ small. ap some (ground arith))
      ◁ (λ small. ap some (ground arith))
      ◁ (λ small. ap some (ground arith))
      ◁ (λ small. ap some (ground arith))
      ◁ (λ small. ap some (ground arith))
      ◁ (λ small. ap some (ground arith))
      ◁ (λ small. ap some (ground arith))
      ◁ (λ small. ap some (ground arith))
      ◁ (λ small. ap some (ground arith))
      ◁ (λ small. ap some (ground arith))
      ◁ (λ small. ap some (ground arith))
      ◁ (λ small. ap some (ground arith))
      ◁ (λ small. ap some (ground arith))
      ◁ (λ small. ap some (ground arith))
      ◁ (λ small. ap some (ground arith))
      ◁ (λ small. ap some (ground arith))
      ◁ (λ small. ap some (ground arith))
      ◁ (λ small. ap some (ground arith))
      ◁ (λ small. ap some (ground arith))
      ◁ (λ small. ap some (ground arith))
      ◁ (λ small. ap some (ground arith))
      ◁ (λ small. ap some (ground arith))
      ◁ (λ small. ap some (ground arith))
      ◁ (λ small. ap some (ground arith))
      ◁ (λ small. ap some (ground arith))
      ◁ (λ small. ap some (ground arith))
      ◁ (λ small. ap some (ground arith))
      ◁ (λ small. ap some (ground arith))
      ◁ (λ small. ap some (ground arith))
      ◁ (λ small. ap some (ground arith))
      ◁ (λ small. ap some (ground arith))
      ◁ (λ small. ap some (ground arith))
      ◁ (λ small. ap some (ground arith))
      ◁ (λ small. ap some (ground arith))
      ◁ (λ small. ap some (ground arith))
      ◁ (λ small. ap some (ground arith))
      ◁ (λ small. ap some (ground arith))
      ◁ (λ small. ap some (ground arith))
      ◁ (λ small. ap some (ground arith))
      ◁ (λ small. ap some (ground arith))
      ◁ done

  pub counted_c-Kept : Kept counted_c
  unfolding Agrees counted_c process_data num_data even_up
  counted_c-Kept =
      (λ small. ap some (ground arith))
      ◁ (λ small. ap some (ground arith))
      ◁ (λ small. ap some (ground arith))
      ◁ (λ small. ap some (ground arith))
      ◁ (λ small. ap some (ground arith))
      ◁ (λ small. ap some (ground arith))
      ◁ (λ small. ap some (ground arith))
      ◁ (λ small. ap some (ground arith))
      ◁ (λ small. ap some (ground arith))
      ◁ (λ small. ap some (ground arith))
      ◁ (λ small. ap some (ground arith))
      ◁ (λ small. ap some (ground arith))
      ◁ (λ small. ap some (ground arith))
      ◁ (λ small. ap some (ground arith))
      ◁ (λ small. ap some (ground arith))
      ◁ (λ small. ap some (ground arith))
      ◁ (λ small. ap some (ground arith))
      ◁ (λ small. ap some (ground arith))
      ◁ (λ small. ap some (ground arith))
      ◁ (λ small. ap some (ground arith))
      ◁ (λ small. ap some (ground arith))
      ◁ (λ small. ap some (ground arith))
      ◁ (λ small. ap some (ground arith))
      ◁ (λ small. ap some (ground arith))
      ◁ (λ small. ap some (ground arith))
      ◁ (λ small. ap some (ground arith))
      ◁ done
