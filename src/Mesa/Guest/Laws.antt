-- ===== src/Mesa/Guest/Laws.antt =====
-- The guest and the host stay together on the wrappers that send data.
use qemu_win.Prelude.{
  ℕ, ◌+◌, ◌^◌, ◌<◌, ◌≤◌, ◌≡◌, refl, Bool, true, false, ◌&&◌, Option, none, some, ap, List, [], ◌∷◌,
  ◌++◌, arith, ◌==◌, get_or, length,
}
use qemu_win.Fifo.Defs.{num_data, even_up}
use qemu_win.Mesa.Args.{process_data}
use qemu_win.Mesa.Guest.Ops.{Sent, Wrapper}
use qemu_win.Mesa.Guest.CountedA.{counted_a}
use qemu_win.Mesa.Guest.CountedB.{counted_b}
use qemu_win.Mesa.Guest.CountedC.{counted_c}
use qemu_win.Mesa.Guest.Agree.{
  Agrees, Kept, done, ◌◁◌, Kept-get, Kept-append, counted_a-Kept, counted_b-Kept, counted_c-Kept,
}
use qemu_win.Mesa.Guest.Unprepared.{unprepared}
use qemu_win.Mesa.Guest.Table.{
  fixed_wrappers, counted_wrappers, fixed_rows, data_wrappers, no_wrapper, skipped, expected,
  IsSynced,
}

same_count : Option ℕ → Option ℕ → Bool
same_count none none = true
same_count none (some n) = false
same_count (some m) none = false
same_count (some m) (some n) = m == n

same_count-eq : (o p : Option ℕ) → same_count o p ≡ true → o ≡ p
unfolding same_count
same_count-eq none none h = refl
same_count-eq none (some n) h = ground (arith, h)
same_count-eq (some m) none h = ground (arith, h)
same_count-eq (some m) (some n) h = ap some (ground (arith, h))

module _ (strlen a : ℕ → ℕ) where
  -- whether the two sides skip the same, as a test
  in_step : Sent → Bool
  unfolding same_count
  in_step s = same_count (skipped strlen a s) (expected s)

  all_in_step : List Wrapper → Bool
  unfolding in_step
  all_in_step [] = true
  all_in_step (w ∷ ws) = in_step (w strlen a) && all_in_step ws

  fixed_in_step : all_in_step (fixed_wrappers ++ unprepared) ≡ true
  unfolding all_in_step fixed_wrappers unprepared process_data num_data even_up
  fixed_in_step = refl

  in_step-IsSynced : (sent : Sent) → in_step sent ≡ true → IsSynced strlen a sent
  unfolding in_step
  in_step-IsSynced sent h = same_count-eq _ _ h

  fixed_rows-Kept : (ws : List Wrapper) → all_in_step ws ≡ true → Kept strlen a (fixed_rows ws)
  unfolding all_in_step fixed_rows Agrees
  fixed_rows-Kept [] h = done
  fixed_rows-Kept (w ∷ ws) h =
      (λ small. in_step-IsSynced (w strlen a) (ground (arith, h)))
      ◁ fixed_rows-Kept ws (ground (arith, h))

  data_wrappers-Kept : Kept strlen a data_wrappers
  unfolding data_wrappers counted_wrappers
  data_wrappers-Kept =
      Kept-append strlen a (counted_a ++ (counted_b ++ counted_c))
        (fixed_rows (fixed_wrappers ++ unprepared))
        (Kept-append strlen a counted_a (counted_b ++ counted_c) (counted_a-Kept strlen a) (
          Kept-append strlen a counted_b counted_c (counted_b-Kept strlen a)
            (counted_c-Kept strlen a)))
        (fixed_rows-Kept (fixed_wrappers ++ unprepared) fixed_in_step)

  -- For each of the 336 functions of OPENGL32.DLL in the tables that send data of a fixed or a
  -- counted size, whatever the arguments and the lengths of the texts are: the words that the
  -- host's processArgs takes for the function and its arguments are exactly those that the wrapper
  -- pushes by fifoAddData, except for the 20 functions that `no_case` lists, for which processArgs
  -- has no case and takes nothing. The bytes that the call sends fit 32 bits.
  pub data_wrapper-IsSynced :
      (k : ℕ)
      → k < length data_wrappers
      → (get_or data_wrappers k no_wrapper).size strlen a + 128 ≤ 2 ^ 32
      → IsSynced strlen a ((get_or data_wrappers k no_wrapper).run strlen a)
  unfolding Agrees
  data_wrapper-IsSynced k lt small =
      Kept-get strlen a data_wrappers k no_wrapper data_wrappers-Kept lt small
