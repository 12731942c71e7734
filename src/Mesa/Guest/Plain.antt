-- ===== src/Mesa/Guest/Plain.antt =====
-- wrapgl32.c: the wrappers that only hand their arguments on.
mod PartA
mod PartB
mod PartC
mod PartD
mod PartE
mod PartF
mod PartG
mod PartH
mod PartI
mod PartJ
mod PartK
mod PartL
mod PartM
mod PartN
mod PartO
use qemu_win.Prelude.{List, ◌++◌}
use qemu_win.Mesa.Guest.Ops.{Sent}
use PartA.{plain_a}
use PartB.{plain_b}
use PartC.{plain_c}
use PartD.{plain_d}
use PartE.{plain_e}
use PartF.{plain_f}
use PartG.{plain_g}
use PartH.{plain_h}
use PartI.{plain_i}
use PartJ.{plain_j}
use PartK.{plain_k}
use PartL.{plain_l}
use PartM.{plain_m}
use PartN.{plain_n}
use PartO.{plain_o}

unfoldable pub plain_wrappers : List Sent
unfolding plain_a plain_b plain_c plain_d plain_e plain_f plain_g plain_h plain_i plain_j plain_k
    plain_l plain_m plain_n plain_o
plain_wrappers =
    plain_a
    ++ (plain_b
        ++ (plain_c
            ++ (plain_d
                ++ (plain_e
                    ++ (plain_f
                        ++ (plain_g
                            ++ (plain_h
                                ++ (plain_i
                                    ++ (plain_j
                                        ++ (plain_k
                                            ++ (plain_l
                                                ++ (plain_m ++ (plain_n ++ (plain_o))))))))))))))
