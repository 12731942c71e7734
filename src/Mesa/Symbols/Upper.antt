-- ===== src/Mesa/Symbols/Upper.antt =====
-- mglfptbl.h: tblMesaGL, of each decorated name the number after the `@`, glMultMatrixf to glWriteMaskEXT.
use qemu_win.Prelude.{ℕ, List, [], ◌∷◌}

unfoldable pub bytes_1536 : List ℕ
bytes_1536 =
    4 ∷ 4 ∷ 4 ∷ 4 ∷ 4 ∷ 4 ∷ 4 ∷ 16 ∷ 16 ∷ 16 ∷ 16 ∷ 16 ∷ 16 ∷ 16 ∷ 20 ∷ 20 ∷ 16 ∷ 16 ∷ 20 ∷ 8 ∷ 12
    ∷ 12 ∷ 12 ∷ 8 ∷ 16 ∷ 16 ∷ 16 ∷ 16 ∷ 16 ∷ 16 ∷ 20 ∷ 20 ∷ 24 ∷ 16 ∷ 20 ∷ 20 ∷ 20 ∷ 44 ∷ 16 ∷ 28
    ∷ 16 ∷ 28 ∷ 16 ∷ 28 ∷ 16 ∷ 20 ∷ 20 ∷ 20 ∷ 20 ∷ 16 ∷ 16 ∷ 20 ∷ 24 ∷ 24 ∷ 20 ∷ 20 ∷ 8 ∷ 12 ∷ 12
    ∷ 4 ∷ 24 ∷ 4 ∷ 12 ∷ 4 ∷ 24 ∷ 8 ∷ 12 ∷ 4 ∷ 12 ∷ 4 ∷ 12 ∷ 4 ∷ 12 ∷ 4 ∷ 8 ∷ 8 ∷ 8 ∷ 12 ∷ 16 ∷ 16
    ∷ 8 ∷ 16 ∷ 8 ∷ 28 ∷ 8 ∷ 16 ∷ 8 ∷ 16 ∷ 8 ∷ 16 ∷ 8 ∷ 16 ∷ 12 ∷ 12 ∷ 12 ∷ 48 ∷ 24 ∷ 24 ∷ 12 ∷ 4 ∷ 4
    ∷ 8 ∷ 8 ∷ 16 ∷ 24 ∷ 16 ∷ 4 ∷ 12 ∷ 4 ∷ 32 ∷ 24 ∷ 36 ∷ 40 ∷ 36 ∷ 12 ∷ 12 ∷ 12 ∷ 12 ∷ 8 ∷ 12 ∷ 16
    ∷ 32 ∷ 20 ∷ 16 ∷ 0 ∷ 0 ∷ 12 ∷ 12 ∷ []

unfoldable pub bytes_1664 : List ℕ
bytes_1664 =
    12 ∷ 12 ∷ 12 ∷ 8 ∷ 8 ∷ 8 ∷ 8 ∷ 8 ∷ 8 ∷ 8 ∷ 4 ∷ 8 ∷ 8 ∷ 8 ∷ 12 ∷ 12 ∷ 12 ∷ 12 ∷ 8 ∷ 8 ∷ 8 ∷ 8
    ∷ 32 ∷ 8 ∷ 8 ∷ 8 ∷ 8 ∷ 8 ∷ 8 ∷ 8 ∷ 8 ∷ 8 ∷ 8 ∷ 8 ∷ 8 ∷ 8 ∷ 4 ∷ 4 ∷ 4 ∷ 4 ∷ 8 ∷ 8 ∷ 12 ∷ 12 ∷ 8
    ∷ 8 ∷ 4 ∷ 0 ∷ 0 ∷ 0 ∷ 0 ∷ 0 ∷ 0 ∷ 56 ∷ 48 ∷ 32 ∷ 4 ∷ 4 ∷ 0 ∷ 12 ∷ 12 ∷ 12 ∷ 16 ∷ 20 ∷ 20 ∷ 20
    ∷ 40 ∷ 12 ∷ 24 ∷ 12 ∷ 24 ∷ 12 ∷ 24 ∷ 12 ∷ 16 ∷ 16 ∷ 16 ∷ 40 ∷ 12 ∷ 24 ∷ 12 ∷ 24 ∷ 12 ∷ 24 ∷ 12
    ∷ 16 ∷ 16 ∷ 16 ∷ 44 ∷ 16 ∷ 28 ∷ 16 ∷ 40 ∷ 12 ∷ 24 ∷ 12 ∷ 12 ∷ 12 ∷ 12 ∷ 16 ∷ 16 ∷ 20 ∷ 16 ∷ 12
    ∷ 16 ∷ 16 ∷ 16 ∷ 16 ∷ 12 ∷ 12 ∷ 16 ∷ 16 ∷ 12 ∷ 16 ∷ 16 ∷ 16 ∷ 16 ∷ 12 ∷ 16 ∷ 16 ∷ 12 ∷ 16 ∷ 16
    ∷ 16 ∷ 16 ∷ 12 ∷ 16 ∷ 16 ∷ []

unfoldable pub bytes_1792 : List ℕ
bytes_1792 =
    24 ∷ 24 ∷ 16 ∷ 16 ∷ 16 ∷ 16 ∷ 16 ∷ 16 ∷ 16 ∷ 24 ∷ 24 ∷ 16 ∷ 16 ∷ 16 ∷ 16 ∷ 16 ∷ 16 ∷ 24 ∷ 24
    ∷ 16 ∷ 16 ∷ 16 ∷ 16 ∷ 16 ∷ 32 ∷ 32 ∷ 16 ∷ 16 ∷ 20 ∷ 20 ∷ 16 ∷ 16 ∷ 20 ∷ 32 ∷ 32 ∷ 16 ∷ 16 ∷ 20
    ∷ 16 ∷ 16 ∷ 20 ∷ 32 ∷ 32 ∷ 16 ∷ 16 ∷ 20 ∷ 16 ∷ 16 ∷ 40 ∷ 40 ∷ 16 ∷ 16 ∷ 24 ∷ 24 ∷ 16 ∷ 16 ∷ 24
    ∷ 40 ∷ 40 ∷ 16 ∷ 16 ∷ 24 ∷ 16 ∷ 16 ∷ 24 ∷ 40 ∷ 40 ∷ 16 ∷ 16 ∷ 24 ∷ 16 ∷ 16 ∷ 16 ∷ 16 ∷ 16 ∷ 16
    ∷ 20 ∷ 20 ∷ 20 ∷ 20 ∷ 20 ∷ 20 ∷ 20 ∷ 20 ∷ 20 ∷ 20 ∷ 20 ∷ 20 ∷ 20 ∷ 20 ∷ 20 ∷ 20 ∷ 20 ∷ 20 ∷ 20
    ∷ 20 ∷ 20 ∷ 20 ∷ 20 ∷ 20 ∷ 20 ∷ 20 ∷ 20 ∷ 20 ∷ 20 ∷ 20 ∷ 20 ∷ 20 ∷ 20 ∷ 20 ∷ 20 ∷ 20 ∷ 16 ∷ 16
    ∷ 8 ∷ 4 ∷ 4 ∷ 4 ∷ 4 ∷ 4 ∷ 16 ∷ 8 ∷ 0 ∷ 4 ∷ 8 ∷ 8 ∷ 16 ∷ 16 ∷ []

unfoldable pub bytes_1920 : List ℕ
bytes_1920 =
    8 ∷ 16 ∷ 4 ∷ 8 ∷ 4 ∷ 8 ∷ 4 ∷ 8 ∷ 4 ∷ 8 ∷ 4 ∷ 24 ∷ 4 ∷ 12 ∷ 4 ∷ 12 ∷ 4 ∷ 12 ∷ 4 ∷ 12 ∷ 4 ∷ 32 ∷ 4
    ∷ 16 ∷ 4 ∷ 16 ∷ 4 ∷ 16 ∷ 4 ∷ 16 ∷ 4 ∷ 8 ∷ 4 ∷ 4 ∷ 32 ∷ 32 ∷ 28 ∷ 32 ∷ 8 ∷ 16 ∷ 8 ∷ 16 ∷ 8 ∷ 16
    ∷ 8 ∷ 16 ∷ 8 ∷ 4 ∷ 12 ∷ 0 ∷ 16 ∷ 16 ∷ 20 ∷ 24 ∷ 24 ∷ 20 ∷ 4 ∷ 4 ∷ 12 ∷ 4 ∷ 4 ∷ 28 ∷ 12 ∷ 44 ∷ 16
    ∷ 32 ∷ 12 ∷ 28 ∷ 12 ∷ 4 ∷ 52 ∷ 20 ∷ 36 ∷ 16 ∷ 24 ∷ 12 ∷ 16 ∷ 8 ∷ 4 ∷ 4 ∷ 4 ∷ 8 ∷ 4 ∷ 4 ∷ 8 ∷ 4
    ∷ 4 ∷ 0 ∷ 0 ∷ 0 ∷ 0 ∷ 32 ∷ 16 ∷ 16 ∷ 8 ∷ 8 ∷ 12 ∷ 8 ∷ 8 ∷ 8 ∷ 8 ∷ 4 ∷ 4 ∷ 12 ∷ 12 ∷ 12 ∷ 12 ∷ 12
    ∷ 12 ∷ 24 ∷ 12 ∷ 12 ∷ 16 ∷ 12 ∷ 12 ∷ 16 ∷ 20 ∷ 8 ∷ 12 ∷ 12 ∷ 4 ∷ 4 ∷ 24 ∷ 24 ∷ 4 ∷ 4 ∷ 12 ∷ 12
    ∷ []

unfoldable pub bytes_2048 : List ℕ
bytes_2048 =
    4 ∷ 4 ∷ 12 ∷ 4 ∷ 12 ∷ 12 ∷ 4 ∷ 4 ∷ 12 ∷ 12 ∷ 4 ∷ 4 ∷ 12 ∷ 12 ∷ 4 ∷ 4 ∷ 12 ∷ 12 ∷ 4 ∷ 4 ∷ 12 ∷ 12
    ∷ 4 ∷ 4 ∷ 12 ∷ 8 ∷ 8 ∷ 16 ∷ 16 ∷ 20 ∷ 8 ∷ 20 ∷ 12 ∷ 32 ∷ 32 ∷ 4 ∷ 8 ∷ 8 ∷ 12 ∷ 12 ∷ 12 ∷ 4 ∷ 20
    ∷ 12 ∷ 16 ∷ 20 ∷ 16 ∷ 16 ∷ 12 ∷ 4 ∷ 16 ∷ 12 ∷ 4 ∷ 12 ∷ 24 ∷ 8 ∷ 8 ∷ 20 ∷ 20 ∷ 8 ∷ 8 ∷ 8 ∷ 8 ∷ 0
    ∷ 8 ∷ 8 ∷ 32 ∷ 12 ∷ 12 ∷ 16 ∷ 16 ∷ 4 ∷ 8 ∷ 12 ∷ 16 ∷ 16 ∷ 8 ∷ 32 ∷ 12 ∷ 36 ∷ 16 ∷ 36 ∷ 16 ∷ 4
    ∷ 8 ∷ 8 ∷ 24 ∷ 4 ∷ 0 ∷ 12 ∷ 4 ∷ 24 ∷ 4 ∷ 12 ∷ 4 ∷ 12 ∷ 4 ∷ 12 ∷ 4 ∷ 12 ∷ 4 ∷ 4 ∷ 4 ∷ 4 ∷ 4 ∷ 8
    ∷ 16 ∷ 12 ∷ 12 ∷ 12 ∷ 20 ∷ 8 ∷ 8 ∷ 4 ∷ 4 ∷ 8 ∷ 4 ∷ 4 ∷ 4 ∷ 4 ∷ 4 ∷ 4 ∷ 4 ∷ 4 ∷ 4 ∷ 4 ∷ 4 ∷ 8
    ∷ []

unfoldable pub bytes_2176 : List ℕ
bytes_2176 =
    4 ∷ 16 ∷ 4 ∷ 8 ∷ 32 ∷ 12 ∷ 48 ∷ 16 ∷ 36 ∷ 12 ∷ 32 ∷ 12 ∷ 4 ∷ 20 ∷ 8 ∷ 8 ∷ 4 ∷ 8 ∷ 4 ∷ 8 ∷ 4 ∷ 8
    ∷ 4 ∷ 12 ∷ 4 ∷ 24 ∷ 4 ∷ 12 ∷ 4 ∷ 12 ∷ 4 ∷ 12 ∷ 4 ∷ 12 ∷ 4 ∷ 12 ∷ 4 ∷ 16 ∷ 4 ∷ 32 ∷ 4 ∷ 16 ∷ 60
    ∷ 16 ∷ 4 ∷ 32 ∷ 8 ∷ 16 ∷ 4 ∷ 16 ∷ 4 ∷ 16 ∷ 4 ∷ 16 ∷ 4 ∷ 12 ∷ 8 ∷ 8 ∷ 8 ∷ 8 ∷ 8 ∷ 8 ∷ 8 ∷ 8 ∷ 16
    ∷ 20 ∷ 20 ∷ 12 ∷ 12 ∷ 12 ∷ 12 ∷ 12 ∷ 12 ∷ 12 ∷ 16 ∷ 16 ∷ 12 ∷ 12 ∷ 12 ∷ 12 ∷ 12 ∷ 12 ∷ 12 ∷ 32
    ∷ 36 ∷ 24 ∷ 28 ∷ 40 ∷ 40 ∷ 28 ∷ 32 ∷ 44 ∷ 36 ∷ 12 ∷ 12 ∷ 12 ∷ 12 ∷ 12 ∷ 12 ∷ 12 ∷ 12 ∷ 12 ∷ 12
    ∷ 8 ∷ 16 ∷ 20 ∷ 24 ∷ 24 ∷ 28 ∷ 28 ∷ 32 ∷ 36 ∷ 36 ∷ 40 ∷ 28 ∷ 28 ∷ 28 ∷ 36 ∷ 36 ∷ 44 ∷ 44 ∷ 52
    ∷ 16 ∷ 0 ∷ 0 ∷ 12 ∷ 16 ∷ 20 ∷ []

unfoldable pub bytes_2304 : List ℕ
bytes_2304 =
    24 ∷ 16 ∷ 36 ∷ 40 ∷ 32 ∷ 28 ∷ 44 ∷ 36 ∷ 32 ∷ 4 ∷ 8 ∷ 4 ∷ 36 ∷ 12 ∷ 16 ∷ 12 ∷ 16 ∷ 12 ∷ 16 ∷ 12
    ∷ 16 ∷ 12 ∷ 16 ∷ 12 ∷ 16 ∷ 12 ∷ 12 ∷ 16 ∷ 20 ∷ 20 ∷ 24 ∷ 24 ∷ 28 ∷ 24 ∷ 28 ∷ 28 ∷ 32 ∷ 28 ∷ 32
    ∷ 36 ∷ 36 ∷ 40 ∷ 32 ∷ 28 ∷ 32 ∷ 36 ∷ 40 ∷ 44 ∷ 48 ∷ 32 ∷ 16 ∷ 12 ∷ 12 ∷ 20 ∷ 20 ∷ 16 ∷ 16 ∷ 16
    ∷ 16 ∷ 24 ∷ 12 ∷ 12 ∷ 12 ∷ 12 ∷ 8 ∷ 8 ∷ 12 ∷ 12 ∷ 8 ∷ 12 ∷ 12 ∷ 12 ∷ 12 ∷ 8 ∷ 12 ∷ 12 ∷ 8 ∷ 12
    ∷ 12 ∷ 12 ∷ 12 ∷ 8 ∷ 12 ∷ 12 ∷ 20 ∷ 12 ∷ 12 ∷ 12 ∷ 12 ∷ 12 ∷ 12 ∷ 20 ∷ 20 ∷ 12 ∷ 12 ∷ 12 ∷ 12
    ∷ 12 ∷ 12 ∷ 20 ∷ 20 ∷ 12 ∷ 12 ∷ 12 ∷ 12 ∷ 12 ∷ 28 ∷ 12 ∷ 16 ∷ 16 ∷ 12 ∷ 12 ∷ 16 ∷ 28 ∷ 28 ∷ 12
    ∷ 12 ∷ 16 ∷ 12 ∷ 12 ∷ 16 ∷ 28 ∷ 28 ∷ 12 ∷ 12 ∷ 16 ∷ 12 ∷ 12 ∷ []

unfoldable pub bytes_2432 : List ℕ
bytes_2432 =
    36 ∷ 12 ∷ 20 ∷ 20 ∷ 12 ∷ 12 ∷ 20 ∷ 36 ∷ 36 ∷ 12 ∷ 12 ∷ 20 ∷ 12 ∷ 12 ∷ 20 ∷ 36 ∷ 36 ∷ 12 ∷ 12
    ∷ 20 ∷ 12 ∷ 12 ∷ 12 ∷ 12 ∷ 12 ∷ 12 ∷ 12 ∷ 12 ∷ 16 ∷ 16 ∷ 16 ∷ 16 ∷ 16 ∷ 16 ∷ 16 ∷ 16 ∷ 16 ∷ 16
    ∷ 16 ∷ 16 ∷ 16 ∷ 16 ∷ 16 ∷ 16 ∷ 16 ∷ 16 ∷ 16 ∷ 16 ∷ 16 ∷ 12 ∷ 12 ∷ 12 ∷ 0 ∷ 4 ∷ 4 ∷ 4 ∷ 4 ∷ 4
    ∷ 8 ∷ 20 ∷ 4 ∷ 4 ∷ 12 ∷ 8 ∷ 4 ∷ 4 ∷ 4 ∷ 20 ∷ 8 ∷ 8 ∷ 8 ∷ 8 ∷ 16 ∷ 8 ∷ 8 ∷ 8 ∷ 8 ∷ 0 ∷ 20 ∷ 8 ∷ 4
    ∷ 8 ∷ 16 ∷ 16 ∷ 20 ∷ 8 ∷ 8 ∷ 4 ∷ 8 ∷ 4 ∷ 16 ∷ 4 ∷ 8 ∷ 4 ∷ 8 ∷ 4 ∷ 8 ∷ 4 ∷ 8 ∷ 4 ∷ 4 ∷ 4 ∷ 12 ∷ 4
    ∷ 24 ∷ 4 ∷ 12 ∷ 4 ∷ 12 ∷ 4 ∷ 12 ∷ 4 ∷ 12 ∷ 4 ∷ 8 ∷ 4 ∷ 16 ∷ 4 ∷ 32 ∷ 4 ∷ 16 ∷ 4 ∷ 16 ∷ 4 ∷ 16
    ∷ 4 ∷ 16 ∷ 4 ∷ []

unfoldable pub bytes_2560 : List ℕ
bytes_2560 =
    12 ∷ 4 ∷ 12 ∷ 24 ∷ 20 ∷ 20 ∷ 12 ∷ 20 ∷ 24 ∷ 16 ∷ 8 ∷ 20 ∷ 20 ∷ 28 ∷ 20 ∷ 8 ∷ 8 ∷ 8 ∷ 24 ∷ 24
    ∷ 12 ∷ 12 ∷ 24 ∷ 20 ∷ 28 ∷ 20 ∷ 28 ∷ 32 ∷ 12 ∷ 20 ∷ 24 ∷ 24 ∷ 12 ∷ 12 ∷ 12 ∷ 8 ∷ 8 ∷ 8 ∷ 8 ∷ 8
    ∷ 8 ∷ 8 ∷ 8 ∷ 8 ∷ 8 ∷ 8 ∷ 8 ∷ 8 ∷ 8 ∷ 8 ∷ 8 ∷ 8 ∷ 20 ∷ 20 ∷ 20 ∷ 8 ∷ 8 ∷ 8 ∷ 12 ∷ 12 ∷ 12 ∷ 8
    ∷ 8 ∷ 8 ∷ 12 ∷ 8 ∷ 12 ∷ 12 ∷ 12 ∷ 8 ∷ 8 ∷ 8 ∷ 28 ∷ 28 ∷ 28 ∷ 8 ∷ 8 ∷ 8 ∷ 16 ∷ 16 ∷ 16 ∷ 8 ∷ 8
    ∷ 8 ∷ 16 ∷ 8 ∷ 16 ∷ 16 ∷ 16 ∷ 8 ∷ 8 ∷ 8 ∷ 8 ∷ 8 ∷ 36 ∷ 36 ∷ 36 ∷ 8 ∷ 8 ∷ 8 ∷ 20 ∷ 20 ∷ 20 ∷ 8
    ∷ 8 ∷ 8 ∷ 20 ∷ 8 ∷ 8 ∷ 8 ∷ 8 ∷ 8 ∷ 8 ∷ 8 ∷ 8 ∷ 8 ∷ 20 ∷ 20 ∷ 8 ∷ 8 ∷ 8 ∷ 8 ∷ 8 ∷ 8 ∷ 20 ∷ 20
    ∷ 20 ∷ 8 ∷ []

unfoldable pub bytes_2688 : List ℕ
bytes_2688 =
    8 ∷ 8 ∷ 20 ∷ 8 ∷ 8 ∷ 8 ∷ 8 ∷ 8 ∷ 8 ∷ 8 ∷ 28 ∷ 8 ∷ 8 ∷ 8 ∷ 20 ∷ 20 ∷ 8 ∷ 8 ∷ 8 ∷ 8 ∷ 8 ∷ 8 ∷ 8
    ∷ 8 ∷ 12 ∷ 12 ∷ 8 ∷ 8 ∷ 12 ∷ 12 ∷ 8 ∷ 8 ∷ 16 ∷ 16 ∷ 8 ∷ 8 ∷ 16 ∷ 16 ∷ 8 ∷ 8 ∷ 8 ∷ 8 ∷ 20 ∷ 20
    ∷ 8 ∷ 8 ∷ 8 ∷ 8 ∷ 8 ∷ 8 ∷ 20 ∷ 20 ∷ 8 ∷ 8 ∷ 8 ∷ 8 ∷ 16 ∷ 16 ∷ 20 ∷ 20 ∷ 12 ∷ 12 ∷ 8 ∷ 8 ∷ 12 ∷ 8
    ∷ 12 ∷ 12 ∷ 8 ∷ 8 ∷ 20 ∷ 20 ∷ 8 ∷ 8 ∷ 20 ∷ 8 ∷ 20 ∷ 8 ∷ 28 ∷ 28 ∷ 8 ∷ 8 ∷ 28 ∷ 8 ∷ 28 ∷ 8 ∷ 36
    ∷ 36 ∷ 8 ∷ 8 ∷ 36 ∷ 8 ∷ 36 ∷ 8 ∷ 16 ∷ 16 ∷ 20 ∷ 20 ∷ 16 ∷ 16 ∷ 16 ∷ 16 ∷ 16 ∷ 16 ∷ 16 ∷ 16 ∷ 12
    ∷ 24 ∷ 24 ∷ 20 ∷ 12 ∷ 12 ∷ 12 ∷ 12 ∷ 12 ∷ 12 ∷ 12 ∷ 12 ∷ 12 ∷ 12 ∷ 12 ∷ 12 ∷ 12 ∷ 12 ∷ 12 ∷ 12
    ∷ 12 ∷ 8 ∷ []

unfoldable pub bytes_2816 : List ℕ
bytes_2816 =
    4 ∷ 8 ∷ 8 ∷ 12 ∷ 8 ∷ 8 ∷ 8 ∷ 8 ∷ 8 ∷ 8 ∷ 16 ∷ 20 ∷ 20 ∷ 12 ∷ 12 ∷ 8 ∷ 8 ∷ 8 ∷ 8 ∷ 8 ∷ 8 ∷ 8 ∷ 20
    ∷ 8 ∷ 12 ∷ 8 ∷ 12 ∷ 8 ∷ 12 ∷ 8 ∷ 28 ∷ 8 ∷ 16 ∷ 8 ∷ 16 ∷ 8 ∷ 16 ∷ 8 ∷ 36 ∷ 8 ∷ 20 ∷ 8 ∷ 20 ∷ 8
    ∷ 20 ∷ 8 ∷ 4 ∷ 4 ∷ 4 ∷ 4 ∷ 16 ∷ 12 ∷ 16 ∷ 16 ∷ 16 ∷ 16 ∷ 12 ∷ 20 ∷ 8 ∷ 12 ∷ 20 ∷ 24 ∷ 16 ∷ 8 ∷ 8
    ∷ 8 ∷ 8 ∷ 8 ∷ 16 ∷ 16 ∷ 8 ∷ 8 ∷ 8 ∷ 8 ∷ 16 ∷ 16 ∷ 16 ∷ 4 ∷ 4 ∷ 4 ∷ 8 ∷ 8 ∷ 8 ∷ 4 ∷ 4 ∷ 4 ∷ 8 ∷ 8
    ∷ 8 ∷ 4 ∷ 4 ∷ 4 ∷ 8 ∷ 8 ∷ 8 ∷ 4 ∷ 4 ∷ 4 ∷ 24 ∷ 24 ∷ 24 ∷ 4 ∷ 4 ∷ 4 ∷ 12 ∷ 12 ∷ 12 ∷ 4 ∷ 4 ∷ 4
    ∷ 12 ∷ 12 ∷ 12 ∷ 4 ∷ 4 ∷ 4 ∷ 12 ∷ 12 ∷ 12 ∷ 4 ∷ 4 ∷ 4 ∷ 32 ∷ 4 ∷ 16 ∷ 4 ∷ 16 ∷ 4 ∷ []

unfoldable pub bytes_2944 : List ℕ
bytes_2944 = 16 ∷ 4 ∷ 12 ∷ 24 ∷ []
