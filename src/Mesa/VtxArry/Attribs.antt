-- ===== src/Mesa/VtxArry/Attribs.antt =====
-- mesapt_mm.c and wrapgl32.c: the arrays of the generic vertex attributes.
use qemu_win.Prelude.{ℕ, ◌<◌, ◌≡◌, refl, some, arith, All-upto}
use qemu_win.Mesa.VtxArry.State.{Arrays, array_slot, vattr2arry_state, vattr2arry}

-- For each of the sixteen attributes, the enumerator that `vattr2arry_state` returns, with the
-- texture unit that it selects, stands for the array that `vattr2arry` points to.
pub vattr2arry_state-vattr2arry :
    (s : Arrays) (attr : ℕ)
    → attr < 16
    → array_slot (vattr2arry_state attr s).1.tex_unit (vattr2arry_state attr s).0
      ≡ some (vattr2arry attr)
unfolding array_slot vattr2arry_state vattr2arry
vattr2arry_state-vattr2arry s attr lt =
    All-upto
      (λ a.
        array_slot (vattr2arry_state a s).1.tex_unit (vattr2arry_state a s).0 ≡ some (vattr2arry a))
      16 0 attr
      (
        refl,
        (
          refl,
          (
            refl,
            (
              refl,
              (
                refl,
                (
                  refl,
                  (
                    refl,
                    (refl, (refl, (refl, (refl, (refl, (refl, (refl, (refl, (refl, tt))))))))),
                  ),
                ),
              ),
            ),
          ),
        ),
      )
      (omega arith) lt
