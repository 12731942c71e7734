-- ===== src/Mesa/Guest/CountedC.antt =====
-- wrapgl32.c: wrappers that send data of a counted size, glUniformMatrix2x3fv to glWeightusvARB.
use qemu_win.Prelude.{◌*◌, List, [], ◌∷◌, u32}
use qemu_win.Mesa.FEnum
use qemu_win.Mesa.Args.State.{aligned}
use qemu_win.Mesa.Guest.Ops.{Wrapper, queued, Row, row}

unfoldable pub gl_uniform_matrix2x3fv : Wrapper
gl_uniform_matrix2x3fv strlen a =
    queued FEnum.gl_uniform_matrix2x3fv 4 ((3, u32 ((u32 (6 * a 1)) * 4)) ∷ [])

unfoldable pub gl_uniform_matrix2x4dv : Wrapper
gl_uniform_matrix2x4dv strlen a =
    queued FEnum.gl_uniform_matrix2x4dv 4 ((3, u32 ((u32 (8 * a 1)) * 8)) ∷ [])

unfoldable pub gl_uniform_matrix2x4fv : Wrapper
gl_uniform_matrix2x4fv strlen a =
    queued FEnum.gl_uniform_matrix2x4fv 4 ((3, u32 ((u32 (8 * a 1)) * 4)) ∷ [])

unfoldable pub gl_uniform_matrix3dv : Wrapper
gl_uniform_matrix3dv strlen a =
    queued FEnum.gl_uniform_matrix3dv 4 ((3, u32 ((u32 (9 * a 1)) * 8)) ∷ [])

unfoldable pub gl_uniform_matrix3fv : Wrapper
gl_uniform_matrix3fv strlen a =
    queued FEnum.gl_uniform_matrix3fv 4 ((3, u32 (aligned (u32 ((u32 (9 * a 1)) * 4)))) ∷ [])

unfoldable pub gl_uniform_matrix3fv_arb : Wrapper
gl_uniform_matrix3fv_arb strlen a =
    queued FEnum.gl_uniform_matrix3fv_arb 4 ((3, u32 (aligned (u32 ((u32 (9 * a 1)) * 4)))) ∷ [])

unfoldable pub gl_uniform_matrix3x2dv : Wrapper
gl_uniform_matrix3x2dv strlen a =
    queued FEnum.gl_uniform_matrix3x2dv 4 ((3, u32 ((u32 (6 * a 1)) * 8)) ∷ [])

unfoldable pub gl_uniform_matrix3x2fv : Wrapper
gl_uniform_matrix3x2fv strlen a =
    queued FEnum.gl_uniform_matrix3x2fv 4 ((3, u32 ((u32 (6 * a 1)) * 4)) ∷ [])

unfoldable pub gl_uniform_matrix3x4dv : Wrapper
gl_uniform_matrix3x4dv strlen a =
    queued FEnum.gl_uniform_matrix3x4dv 4 ((3, u32 ((u32 (12 * a 1)) * 8)) ∷ [])

unfoldable pub gl_uniform_matrix3x4fv : Wrapper
gl_uniform_matrix3x4fv strlen a =
    queued FEnum.gl_uniform_matrix3x4fv 4 ((3, u32 ((u32 (12 * a 1)) * 4)) ∷ [])

unfoldable pub gl_uniform_matrix4dv : Wrapper
gl_uniform_matrix4dv strlen a =
    queued FEnum.gl_uniform_matrix4dv 4 ((3, u32 ((u32 (16 * a 1)) * 8)) ∷ [])

unfoldable pub gl_uniform_matrix4fv : Wrapper
gl_uniform_matrix4fv strlen a =
    queued FEnum.gl_uniform_matrix4fv 4 ((3, u32 ((u32 (16 * a 1)) * 4)) ∷ [])

unfoldable pub gl_uniform_matrix4fv_arb : Wrapper
gl_uniform_matrix4fv_arb strlen a =
    queued FEnum.gl_uniform_matrix4fv_arb 4 ((3, u32 ((u32 (16 * a 1)) * 4)) ∷ [])

unfoldable pub gl_uniform_matrix4x2dv : Wrapper
gl_uniform_matrix4x2dv strlen a =
    queued FEnum.gl_uniform_matrix4x2dv 4 ((3, u32 ((u32 (8 * a 1)) * 8)) ∷ [])

unfoldable pub gl_uniform_matrix4x2fv : Wrapper
gl_uniform_matrix4x2fv strlen a =
    queued FEnum.gl_uniform_matrix4x2fv 4 ((3, u32 ((u32 (8 * a 1)) * 4)) ∷ [])

unfoldable pub gl_uniform_matrix4x3dv : Wrapper
gl_uniform_matrix4x3dv strlen a =
    queued FEnum.gl_uniform_matrix4x3dv 4 ((3, u32 ((u32 (12 * a 1)) * 8)) ∷ [])

unfoldable pub gl_uniform_matrix4x3fv : Wrapper
gl_uniform_matrix4x3fv strlen a =
    queued FEnum.gl_uniform_matrix4x3fv 4 ((3, u32 ((u32 (12 * a 1)) * 4)) ∷ [])

unfoldable pub gl_viewport_arrayv : Wrapper
gl_viewport_arrayv strlen a =
    queued FEnum.gl_viewport_arrayv 3 ((2, u32 ((u32 (a 1 * 4)) * 4)) ∷ [])

unfoldable pub gl_weightbv_arb : Wrapper
gl_weightbv_arb strlen a = queued FEnum.gl_weightbv_arb 2 ((1, u32 (aligned (u32 (a 0 * 1)))) ∷ [])

unfoldable pub gl_weightdv_arb : Wrapper
gl_weightdv_arb strlen a = queued FEnum.gl_weightdv_arb 2 ((1, u32 (a 0 * 8)) ∷ [])

unfoldable pub gl_weightfv_arb : Wrapper
gl_weightfv_arb strlen a = queued FEnum.gl_weightfv_arb 2 ((1, u32 (aligned (u32 (a 0 * 4)))) ∷ [])

unfoldable pub gl_weightiv_arb : Wrapper
gl_weightiv_arb strlen a = queued FEnum.gl_weightiv_arb 2 ((1, u32 (aligned (u32 (a 0 * 4)))) ∷ [])

unfoldable pub gl_weightsv_arb : Wrapper
gl_weightsv_arb strlen a = queued FEnum.gl_weightsv_arb 2 ((1, u32 (aligned (u32 (a 0 * 2)))) ∷ [])

unfoldable pub gl_weightubv_arb : Wrapper
gl_weightubv_arb strlen a =
    queued FEnum.gl_weightubv_arb 2 ((1, u32 (aligned (u32 (a 0 * 1)))) ∷ [])

unfoldable pub gl_weightuiv_arb : Wrapper
gl_weightuiv_arb strlen a =
    queued FEnum.gl_weightuiv_arb 2 ((1, u32 (aligned (u32 (a 0 * 4)))) ∷ [])

unfoldable pub gl_weightusv_arb : Wrapper
gl_weightusv_arb strlen a =
    queued FEnum.gl_weightusv_arb 2 ((1, u32 (aligned (u32 (a 0 * 2)))) ∷ [])

unfoldable pub counted_c : List Row
unfolding gl_uniform_matrix2x3fv gl_uniform_matrix2x4dv gl_uniform_matrix2x4fv gl_uniform_matrix3dv
    gl_uniform_matrix3fv gl_uniform_matrix3fv_arb gl_uniform_matrix3x2dv gl_uniform_matrix3x2fv
    gl_uniform_matrix3x4dv gl_uniform_matrix3x4fv gl_uniform_matrix4dv gl_uniform_matrix4fv
    gl_uniform_matrix4fv_arb gl_uniform_matrix4x2dv gl_uniform_matrix4x2fv gl_uniform_matrix4x3dv
    gl_uniform_matrix4x3fv gl_viewport_arrayv gl_weightbv_arb gl_weightdv_arb gl_weightfv_arb
    gl_weightiv_arb gl_weightsv_arb gl_weightubv_arb gl_weightuiv_arb gl_weightusv_arb
counted_c =
    row gl_uniform_matrix2x3fv (λ strlen a. 6 * a 1 * 4)
    ∷ row gl_uniform_matrix2x4dv (λ strlen a. 8 * a 1 * 8)
    ∷ row gl_uniform_matrix2x4fv (λ strlen a. 8 * a 1 * 4)
    ∷ row gl_uniform_matrix3dv (λ strlen a. 9 * a 1 * 8)
    ∷ row gl_uniform_matrix3fv (λ strlen a. 9 * a 1 * 4)
    ∷ row gl_uniform_matrix3fv_arb (λ strlen a. 9 * a 1 * 4)
    ∷ row gl_uniform_matrix3x2dv (λ strlen a. 6 * a 1 * 8)
    ∷ row gl_uniform_matrix3x2fv (λ strlen a. 6 * a 1 * 4)
    ∷ row gl_uniform_matrix3x4dv (λ strlen a. 12 * a 1 * 8)
    ∷ row gl_uniform_matrix3x4fv (λ strlen a. 12 * a 1 * 4)
    ∷ row gl_uniform_matrix4dv (λ strlen a. 16 * a 1 * 8)
    ∷ row gl_uniform_matrix4fv (λ strlen a. 16 * a 1 * 4)
    ∷ row gl_uniform_matrix4fv_arb (λ strlen a. 16 * a 1 * 4)
    ∷ row gl_uniform_matrix4x2dv (λ strlen a. 8 * a 1 * 8)
    ∷ row gl_uniform_matrix4x2fv (λ strlen a. 8 * a 1 * 4)
    ∷ row gl_uniform_matrix4x3dv (λ strlen a. 12 * a 1 * 8)
    ∷ row gl_uniform_matrix4x3fv (λ strlen a. 12 * a 1 * 4)
    ∷ row gl_viewport_arrayv (λ strlen a. a 1 * 4 * 4)
    ∷ row gl_weightbv_arb (λ strlen a. a 0 * 1)
    ∷ row gl_weightdv_arb (λ strlen a. a 0 * 8)
    ∷ row gl_weightfv_arb (λ strlen a. a 0 * 4)
    ∷ row gl_weightiv_arb (λ strlen a. a 0 * 4)
    ∷ row gl_weightsv_arb (λ strlen a. a 0 * 2)
    ∷ row gl_weightubv_arb (λ strlen a. a 0 * 1)
    ∷ row gl_weightuiv_arb (λ strlen a. a 0 * 4)
    ∷ row gl_weightusv_arb (λ strlen a. a 0 * 2)
    ∷ []
