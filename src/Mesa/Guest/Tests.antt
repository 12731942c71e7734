-- ===== src/Mesa/Guest/Tests.antt =====
-- Runs of the wrappers of wrapgl32.c against the host.
use qemu_win.Prelude.{ℕ, ◌≡◌, ◌≤◌, ◌+◌, refl, some, none, arith}
use qemu_win.Mesa.Symbols.{glf_enum_args_cnt}
use qemu_win.Mesa.Guest.Plain.{plain_wrappers}
use qemu_win.Mesa.Guest.Counts.{left_out, calls, sent_by, wrapper-num_args}
use qemu_win.Mesa.Guest.Quiet.{plain_wrapper-no_data}
use qemu_win.Mesa.Args.{process_data}
use qemu_win.Mesa.Guest.Ops.{call, queue_as, func, stored_args, queued_args}
use qemu_win.Mesa.Guest.Table.{
  data_wrappers, counted_wrappers, fixed_rows, fixed_wrappers, skipped, IsSynced,
}
use qemu_win.Mesa.Guest.Laws.{data_wrapper-IsSynced}
use qemu_win.Mesa.Guest.CountedA.{counted_a}
use qemu_win.Mesa.Guest.CountedB.{counted_b, gl_uniform2fv}
use qemu_win.Mesa.Guest.CountedC.{counted_c}
use qemu_win.Mesa.Guest.Unprepared.{gl_tex_coord1fv}
use qemu_win.Fifo.Defs.{num_data, even_up}
use qemu_win.Mesa.Guest.Clear.{gl_clear_bufferiv}
use qemu_win.Mesa.Guest.Clears.{clear_wrappers, pushed, clear_wrapper-words}

abbrev three_each : ℕ → ℕ
three_each i = 3

data_wrapper-IsSynced_example : IsSynced three_each three_each (gl_uniform2fv three_each three_each)
unfolding data_wrappers counted_wrappers counted_a counted_b counted_c fixed_rows fixed_wrappers
data_wrapper-IsSynced_example =
    data_wrapper-IsSynced three_each three_each 68 (omega arith) (omega arith)

clear_wrapper-words_example :
    (pushed (gl_clear_bufferiv three_each three_each) ≡ 2)
    × (skipped three_each three_each (gl_clear_bufferiv three_each three_each) ≡ some 1)
unfolding clear_wrappers
clear_wrapper-words_example =
    clear_wrapper-words three_each three_each 1 (ground arith) gl_clear_bufferiv

-- glAccumxOES
wrapper-num_args_example :
    (stored_args (call 1 2) ≡ glf_enum_args_cnt (func (call 1 2)))
    × (queued_args (call 1 2) + left_out (func (call 1 2)) ≡ glf_enum_args_cnt (func (call 1 2)))
    × (stored_args (call 1 2) ≤ 22)
unfolding calls sent_by plain_wrappers
wrapper-num_args_example = wrapper-num_args three_each three_each 1 (call 0 0) (omega arith)

plain_wrapper-no_data_example : process_data (func (call 1 2)) three_each 3 ≡ none
unfolding plain_wrappers
plain_wrapper-no_data_example = plain_wrapper-no_data three_each 3 1 (call 0 0) (omega arith)

-- glFinishObjectAPPLE
short_call : glf_enum_args_cnt (func (queue_as 579 2 1)) ≡ 2
unfolding glf_enum_args_cnt
short_call = refl

-- glTexCoord1fv pushes two words, and the host takes none
no_case_skipped :
    (pushed (gl_tex_coord1fv three_each three_each) ≡ 2)
    × (skipped three_each three_each (gl_tex_coord1fv three_each three_each) ≡ none)
unfolding pushed gl_tex_coord1fv process_data num_data even_up
no_case_skipped = (refl, refl)
