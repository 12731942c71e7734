-- ===== src/Mesa/Symbols/Lower.antt =====
-- mglfptbl.h: tblMesaGL, of each decorated name the number after the `@`, glAccum to glMultMatrixd.
use qemu_win.Prelude.{ℕ, List, [], ◌∷◌}

unfoldable pub bytes_0 : List ℕ
bytes_0 =
    8 ∷ 8 ∷ 16 ∷ 4 ∷ 8 ∷ 4 ∷ 4 ∷ 4 ∷ 8 ∷ 24 ∷ 36 ∷ 48 ∷ 8 ∷ 8 ∷ 4 ∷ 0 ∷ 4 ∷ 12 ∷ 12 ∷ 12 ∷ 4 ∷ 4
    ∷ 24 ∷ 4 ∷ 8 ∷ 8 ∷ 4 ∷ 8 ∷ 8 ∷ 4 ∷ 0 ∷ 4 ∷ 4 ∷ 4 ∷ 8 ∷ 8 ∷ 12 ∷ 4 ∷ 4 ∷ 4 ∷ 0 ∷ 4 ∷ 12 ∷ 12 ∷ 8
    ∷ 8 ∷ 12 ∷ 12 ∷ 12 ∷ 16 ∷ 16 ∷ 20 ∷ 20 ∷ 20 ∷ 16 ∷ 24 ∷ 12 ∷ 12 ∷ 16 ∷ 4 ∷ 8 ∷ 8 ∷ 28 ∷ 28 ∷ 12
    ∷ 8 ∷ 8 ∷ 12 ∷ 4 ∷ 8 ∷ 8 ∷ 4 ∷ 8 ∷ 8 ∷ 8 ∷ 12 ∷ 4 ∷ 12 ∷ 8 ∷ 8 ∷ 12 ∷ 8 ∷ 8 ∷ 8 ∷ 8 ∷ 4 ∷ 4 ∷ 16
    ∷ 20 ∷ 4 ∷ 16 ∷ 20 ∷ 12 ∷ 4 ∷ 24 ∷ 4 ∷ 12 ∷ 4 ∷ 12 ∷ 4 ∷ 12 ∷ 4 ∷ 12 ∷ 28 ∷ 28 ∷ 0 ∷ 0 ∷ 16 ∷ 16
    ∷ 16 ∷ 4 ∷ 4 ∷ 8 ∷ 8 ∷ 8 ∷ 8 ∷ 8 ∷ 12 ∷ 12 ∷ 12 ∷ 8 ∷ 12 ∷ 12 ∷ 12 ∷ 16 ∷ 16 ∷ 20 ∷ 20 ∷ []

unfoldable pub bytes_128 : List ℕ
bytes_128 =
    20 ∷ 16 ∷ 8 ∷ 40 ∷ 40 ∷ 48 ∷ 20 ∷ 16 ∷ 16 ∷ 16 ∷ 16 ∷ 12 ∷ 16 ∷ 20 ∷ 20 ∷ 16 ∷ 16 ∷ 4 ∷ 4 ∷ 12
    ∷ 4 ∷ 4 ∷ 8 ∷ 8 ∷ 8 ∷ 8 ∷ 4 ∷ 16 ∷ 16 ∷ 20 ∷ 16 ∷ 12 ∷ 12 ∷ 28 ∷ 12 ∷ 16 ∷ 16 ∷ 16 ∷ 16 ∷ 8 ∷ 8
    ∷ 4 ∷ 4 ∷ 4 ∷ 4 ∷ 20 ∷ 20 ∷ 28 ∷ 28 ∷ 20 ∷ 16 ∷ 16 ∷ 16 ∷ 4 ∷ 20 ∷ 44 ∷ 4 ∷ 4 ∷ 4 ∷ 4 ∷ 16 ∷ 8
    ∷ 8 ∷ 8 ∷ 8 ∷ 12 ∷ 4 ∷ 24 ∷ 4 ∷ 12 ∷ 4 ∷ 24 ∷ 8 ∷ 12 ∷ 4 ∷ 12 ∷ 4 ∷ 12 ∷ 4 ∷ 12 ∷ 4 ∷ 12 ∷ 4
    ∷ 12 ∷ 4 ∷ 12 ∷ 4 ∷ 16 ∷ 4 ∷ 32 ∷ 4 ∷ 16 ∷ 40 ∷ 12 ∷ 4 ∷ 16 ∷ 4 ∷ 16 ∷ 4 ∷ 16 ∷ 4 ∷ 16 ∷ 4 ∷ 24
    ∷ 8 ∷ 28 ∷ 8 ∷ 16 ∷ 4 ∷ 16 ∷ 4 ∷ 16 ∷ 4 ∷ 12 ∷ 28 ∷ 40 ∷ 52 ∷ 16 ∷ 20 ∷ 20 ∷ 8 ∷ 8 ∷ 8 ∷ 8 ∷ 8
    ∷ 16 ∷ 20 ∷ 20 ∷ []

unfoldable pub bytes_256 : List ℕ
bytes_256 =
    12 ∷ 24 ∷ 24 ∷ 24 ∷ 24 ∷ 12 ∷ 12 ∷ 12 ∷ 12 ∷ 24 ∷ 24 ∷ 40 ∷ 8 ∷ 8 ∷ 8 ∷ 8 ∷ 12 ∷ 8 ∷ 4 ∷ 4 ∷ 4
    ∷ 16 ∷ 32 ∷ 36 ∷ 40 ∷ 32 ∷ 40 ∷ 48 ∷ 28 ∷ 28 ∷ 32 ∷ 32 ∷ 36 ∷ 36 ∷ 28 ∷ 28 ∷ 36 ∷ 36 ∷ 44 ∷ 44
    ∷ 32 ∷ 36 ∷ 40 ∷ 28 ∷ 32 ∷ 36 ∷ 40 ∷ 44 ∷ 48 ∷ 8 ∷ 8 ∷ 24 ∷ 24 ∷ 28 ∷ 28 ∷ 12 ∷ 12 ∷ 12 ∷ 12
    ∷ 12 ∷ 12 ∷ 12 ∷ 12 ∷ 12 ∷ 12 ∷ 20 ∷ 20 ∷ 20 ∷ 20 ∷ 20 ∷ 20 ∷ 20 ∷ 24 ∷ 24 ∷ 60 ∷ 60 ∷ 32 ∷ 36
    ∷ 28 ∷ 36 ∷ 40 ∷ 20 ∷ 8 ∷ 20 ∷ 28 ∷ 28 ∷ 32 ∷ 32 ∷ 24 ∷ 24 ∷ 32 ∷ 32 ∷ 36 ∷ 36 ∷ 32 ∷ 36 ∷ 24
    ∷ 28 ∷ 32 ∷ 36 ∷ 36 ∷ 40 ∷ 4 ∷ 8 ∷ 28 ∷ 8 ∷ 28 ∷ 8 ∷ 8 ∷ 8 ∷ 8 ∷ 8 ∷ 8 ∷ 0 ∷ 0 ∷ 8 ∷ 12 ∷ 8 ∷ 8
    ∷ 4 ∷ 4 ∷ 8 ∷ 12 ∷ 8 ∷ 12 ∷ 12 ∷ 8 ∷ 8 ∷ []

unfoldable pub bytes_384 : List ℕ
bytes_384 =
    4 ∷ 8 ∷ 8 ∷ 4 ∷ 8 ∷ 8 ∷ 8 ∷ 24 ∷ 24 ∷ 20 ∷ 24 ∷ 20 ∷ 24 ∷ 80 ∷ 56 ∷ 4 ∷ 8 ∷ 8 ∷ 8 ∷ 8 ∷ 8 ∷ 8
    ∷ 4 ∷ 8 ∷ 8 ∷ 8 ∷ 8 ∷ 8 ∷ 12 ∷ 4 ∷ 8 ∷ 8 ∷ 8 ∷ 4 ∷ 4 ∷ 8 ∷ 8 ∷ 8 ∷ 8 ∷ 8 ∷ 8 ∷ 8 ∷ 8 ∷ 8 ∷ 8 ∷ 4
    ∷ 8 ∷ 4 ∷ 8 ∷ 8 ∷ 8 ∷ 8 ∷ 8 ∷ 8 ∷ 4 ∷ 16 ∷ 16 ∷ 4 ∷ 4 ∷ 16 ∷ 12 ∷ 16 ∷ 8 ∷ 8 ∷ 20 ∷ 8 ∷ 8 ∷ 8
    ∷ 12 ∷ 4 ∷ 4 ∷ 8 ∷ 8 ∷ 8 ∷ 8 ∷ 4 ∷ 8 ∷ 8 ∷ 8 ∷ 8 ∷ 4 ∷ 4 ∷ 12 ∷ 24 ∷ 4 ∷ 12 ∷ 12 ∷ 8 ∷ 16 ∷ 16
    ∷ 20 ∷ 16 ∷ 4 ∷ 8 ∷ 8 ∷ 8 ∷ 16 ∷ 20 ∷ 20 ∷ 24 ∷ 12 ∷ 8 ∷ 16 ∷ 20 ∷ 12 ∷ 20 ∷ 20 ∷ 24 ∷ 24 ∷ 28
    ∷ 20 ∷ 16 ∷ 4 ∷ 8 ∷ 20 ∷ 20 ∷ 16 ∷ 24 ∷ 28 ∷ 24 ∷ 44 ∷ 8 ∷ 12 ∷ 8 ∷ 12 ∷ 16 ∷ 48 ∷ 4 ∷ []

unfoldable pub bytes_512 : List ℕ
bytes_512 =
    4 ∷ 8 ∷ 12 ∷ 12 ∷ 4 ∷ 12 ∷ 12 ∷ 8 ∷ 8 ∷ 4 ∷ 4 ∷ 8 ∷ 8 ∷ 8 ∷ 8 ∷ 4 ∷ 8 ∷ 8 ∷ 8 ∷ 8 ∷ 4 ∷ 4 ∷ 0
    ∷ 0 ∷ 0 ∷ 0 ∷ 0 ∷ 0 ∷ 0 ∷ 4 ∷ 4 ∷ 4 ∷ 4 ∷ 8 ∷ 0 ∷ 0 ∷ 0 ∷ 0 ∷ 4 ∷ 8 ∷ 4 ∷ 4 ∷ 4 ∷ 4 ∷ 4 ∷ 16 ∷ 4
    ∷ 8 ∷ 4 ∷ 8 ∷ 4 ∷ 8 ∷ 12 ∷ 20 ∷ 4 ∷ 8 ∷ 0 ∷ 12 ∷ 12 ∷ 12 ∷ 12 ∷ 8 ∷ 16 ∷ 0 ∷ 4 ∷ 4 ∷ 4 ∷ 8 ∷ 0
    ∷ 0 ∷ 12 ∷ 12 ∷ 12 ∷ 12 ∷ 4 ∷ 0 ∷ 4 ∷ 8 ∷ 0 ∷ 8 ∷ 8 ∷ 4 ∷ 4 ∷ 4 ∷ 4 ∷ 8 ∷ 4 ∷ 4 ∷ 4 ∷ 4 ∷ 12
    ∷ 12 ∷ 16 ∷ 8 ∷ 8 ∷ 8 ∷ 8 ∷ 8 ∷ 8 ∷ 8 ∷ 8 ∷ 4 ∷ 12 ∷ 12 ∷ 12 ∷ 12 ∷ 8 ∷ 8 ∷ 8 ∷ 8 ∷ 12 ∷ 12 ∷ 12
    ∷ 12 ∷ 8 ∷ 12 ∷ 0 ∷ 12 ∷ 8 ∷ 16 ∷ 16 ∷ 16 ∷ 16 ∷ 16 ∷ 16 ∷ 20 ∷ 20 ∷ 20 ∷ []

unfoldable pub bytes_640 : List ℕ
bytes_640 =
    20 ∷ 24 ∷ 24 ∷ 16 ∷ 16 ∷ 20 ∷ 20 ∷ 20 ∷ 20 ∷ 20 ∷ 24 ∷ 0 ∷ 4 ∷ 4 ∷ 4 ∷ 48 ∷ 24 ∷ 24 ∷ 4 ∷ 8 ∷ 8
    ∷ 4 ∷ 4 ∷ 8 ∷ 4 ∷ 8 ∷ 8 ∷ 8 ∷ 4 ∷ 8 ∷ 8 ∷ 4 ∷ 12 ∷ 8 ∷ 4 ∷ 8 ∷ 8 ∷ 8 ∷ 8 ∷ 8 ∷ 8 ∷ 8 ∷ 8 ∷ 8 ∷ 8
    ∷ 8 ∷ 16 ∷ 8 ∷ 8 ∷ 8 ∷ 8 ∷ 8 ∷ 8 ∷ 4 ∷ 16 ∷ 28 ∷ 28 ∷ 24 ∷ 20 ∷ 24 ∷ 28 ∷ 28 ∷ 16 ∷ 20 ∷ 20 ∷ 20
    ∷ 28 ∷ 12 ∷ 12 ∷ 16 ∷ 16 ∷ 8 ∷ 8 ∷ 12 ∷ 12 ∷ 8 ∷ 12 ∷ 12 ∷ 12 ∷ 12 ∷ 12 ∷ 12 ∷ 16 ∷ 16 ∷ 8 ∷ 8
    ∷ 8 ∷ 16 ∷ 16 ∷ 12 ∷ 12 ∷ 12 ∷ 12 ∷ 12 ∷ 12 ∷ 16 ∷ 20 ∷ 20 ∷ 16 ∷ 16 ∷ 12 ∷ 8 ∷ 16 ∷ 12 ∷ 12
    ∷ 16 ∷ 16 ∷ 40 ∷ 16 ∷ 16 ∷ 12 ∷ 12 ∷ 12 ∷ 12 ∷ 12 ∷ 8 ∷ 32 ∷ 28 ∷ 32 ∷ 8 ∷ 12 ∷ 12 ∷ 12 ∷ 8 ∷ 0
    ∷ 12 ∷ 12 ∷ 12 ∷ []

unfoldable pub bytes_768 : List ℕ
bytes_768 =
    4 ∷ 8 ∷ 12 ∷ 12 ∷ 12 ∷ 8 ∷ 4 ∷ 8 ∷ 8 ∷ 8 ∷ 12 ∷ 12 ∷ 12 ∷ 12 ∷ 16 ∷ 16 ∷ 24 ∷ 12 ∷ 12 ∷ 0 ∷ 0
    ∷ 4 ∷ 20 ∷ 20 ∷ 12 ∷ 12 ∷ 12 ∷ 12 ∷ 12 ∷ 20 ∷ 20 ∷ 12 ∷ 12 ∷ 16 ∷ 0 ∷ 12 ∷ 8 ∷ 12 ∷ 12 ∷ 12 ∷ 8
    ∷ 8 ∷ 20 ∷ 20 ∷ 24 ∷ 12 ∷ 12 ∷ 12 ∷ 12 ∷ 12 ∷ 12 ∷ 12 ∷ 12 ∷ 12 ∷ 12 ∷ 12 ∷ 16 ∷ 16 ∷ 28 ∷ 12
    ∷ 12 ∷ 12 ∷ 12 ∷ 12 ∷ 12 ∷ 12 ∷ 12 ∷ 12 ∷ 20 ∷ 12 ∷ 20 ∷ 20 ∷ 12 ∷ 12 ∷ 12 ∷ 12 ∷ 12 ∷ 12 ∷ 16
    ∷ 16 ∷ 16 ∷ 16 ∷ 16 ∷ 24 ∷ 20 ∷ 20 ∷ 16 ∷ 16 ∷ 16 ∷ 16 ∷ 12 ∷ 12 ∷ 12 ∷ 12 ∷ 12 ∷ 12 ∷ 16 ∷ 16
    ∷ 16 ∷ 16 ∷ 24 ∷ 12 ∷ 12 ∷ 16 ∷ 16 ∷ 16 ∷ 16 ∷ 16 ∷ 16 ∷ 12 ∷ 12 ∷ 20 ∷ 16 ∷ 20 ∷ 20 ∷ 16 ∷ 16
    ∷ 20 ∷ 20 ∷ 8 ∷ 24 ∷ 24 ∷ 16 ∷ 16 ∷ 16 ∷ 16 ∷ 16 ∷ 16 ∷ []

unfoldable pub bytes_896 : List ℕ
bytes_896 =
    24 ∷ 24 ∷ 12 ∷ 12 ∷ 12 ∷ 12 ∷ 12 ∷ 12 ∷ 8 ∷ 8 ∷ 32 ∷ 32 ∷ 24 ∷ 24 ∷ 16 ∷ 16 ∷ 16 ∷ 16 ∷ 16 ∷ 16
    ∷ 16 ∷ 16 ∷ 16 ∷ 16 ∷ 12 ∷ 12 ∷ 20 ∷ 20 ∷ 12 ∷ 16 ∷ 12 ∷ 16 ∷ 12 ∷ 12 ∷ 12 ∷ 12 ∷ 8 ∷ 8 ∷ 8 ∷ 12
    ∷ 20 ∷ 28 ∷ 12 ∷ 12 ∷ 36 ∷ 12 ∷ 12 ∷ 44 ∷ 20 ∷ 16 ∷ 20 ∷ 20 ∷ 12 ∷ 16 ∷ 20 ∷ 8 ∷ 28 ∷ 8 ∷ 8 ∷ 8
    ∷ 12 ∷ 8 ∷ 8 ∷ 12 ∷ 12 ∷ 12 ∷ 12 ∷ 8 ∷ 8 ∷ 4 ∷ 20 ∷ 12 ∷ 12 ∷ 12 ∷ 12 ∷ 16 ∷ 16 ∷ 12 ∷ 12 ∷ 12
    ∷ 12 ∷ 12 ∷ 12 ∷ 12 ∷ 16 ∷ 16 ∷ 16 ∷ 16 ∷ 16 ∷ 12 ∷ 32 ∷ 12 ∷ 32 ∷ 12 ∷ 12 ∷ 24 ∷ 16 ∷ 12 ∷ 12
    ∷ 12 ∷ 16 ∷ 16 ∷ 16 ∷ 16 ∷ 16 ∷ 12 ∷ 12 ∷ 12 ∷ 12 ∷ 12 ∷ 12 ∷ 12 ∷ 12 ∷ 12 ∷ 12 ∷ 12 ∷ 12 ∷ 12
    ∷ 12 ∷ 12 ∷ 12 ∷ 12 ∷ 24 ∷ 24 ∷ 16 ∷ 12 ∷ 16 ∷ 16 ∷ []

unfoldable pub bytes_1024 : List ℕ
bytes_1024 =
    16 ∷ 12 ∷ 16 ∷ 8 ∷ 4 ∷ 4 ∷ 8 ∷ 12 ∷ 12 ∷ 20 ∷ 8 ∷ 8 ∷ 12 ∷ 12 ∷ 12 ∷ 12 ∷ 12 ∷ 12 ∷ 12 ∷ 12 ∷ 20
    ∷ 16 ∷ 16 ∷ 16 ∷ 12 ∷ 12 ∷ 12 ∷ 12 ∷ 12 ∷ 12 ∷ 12 ∷ 12 ∷ 4 ∷ 4 ∷ 24 ∷ 24 ∷ 16 ∷ 20 ∷ 16 ∷ 20
    ∷ 12 ∷ 16 ∷ 12 ∷ 16 ∷ 12 ∷ 16 ∷ 12 ∷ 16 ∷ 8 ∷ 8 ∷ 48 ∷ 16 ∷ 16 ∷ 16 ∷ 12 ∷ 28 ∷ 28 ∷ 12 ∷ 8 ∷ 8
    ∷ 12 ∷ 12 ∷ 12 ∷ 12 ∷ 12 ∷ 16 ∷ 12 ∷ 12 ∷ 8 ∷ 8 ∷ 8 ∷ 12 ∷ 12 ∷ 12 ∷ 12 ∷ 12 ∷ 12 ∷ 8 ∷ 12 ∷ 12
    ∷ 12 ∷ 12 ∷ 12 ∷ 12 ∷ 8 ∷ 16 ∷ 16 ∷ 16 ∷ 12 ∷ 12 ∷ 16 ∷ 12 ∷ 12 ∷ 12 ∷ 12 ∷ 12 ∷ 12 ∷ 12 ∷ 12
    ∷ 12 ∷ 12 ∷ 12 ∷ 12 ∷ 12 ∷ 12 ∷ 12 ∷ 12 ∷ 12 ∷ 12 ∷ 12 ∷ 12 ∷ 12 ∷ 12 ∷ 12 ∷ 12 ∷ 12 ∷ 16 ∷ 16
    ∷ 16 ∷ 12 ∷ 12 ∷ 12 ∷ 12 ∷ 4 ∷ 4 ∷ 8 ∷ 4 ∷ 4 ∷ []

unfoldable pub bytes_1152 : List ℕ
bytes_1152 =
    4 ∷ 4 ∷ 4 ∷ 4 ∷ 8 ∷ 8 ∷ 16 ∷ 16 ∷ 8 ∷ 12 ∷ 12 ∷ 12 ∷ 12 ∷ 20 ∷ 20 ∷ 20 ∷ 12 ∷ 12 ∷ 12 ∷ 12 ∷ 8
    ∷ 4 ∷ 4 ∷ 8 ∷ 8 ∷ 4 ∷ 4 ∷ 4 ∷ 4 ∷ 8 ∷ 12 ∷ 16 ∷ 16 ∷ 4 ∷ 4 ∷ 4 ∷ 4 ∷ 4 ∷ 4 ∷ 0 ∷ 12 ∷ 8 ∷ 8 ∷ 12
    ∷ 16 ∷ 4 ∷ 12 ∷ 12 ∷ 12 ∷ 28 ∷ 28 ∷ 8 ∷ 32 ∷ 4 ∷ 4 ∷ 4 ∷ 4 ∷ 4 ∷ 4 ∷ 8 ∷ 8 ∷ 4 ∷ 4 ∷ 4 ∷ 4 ∷ 8
    ∷ 8 ∷ 4 ∷ 4 ∷ 8 ∷ 4 ∷ 8 ∷ 4 ∷ 4 ∷ 4 ∷ 16 ∷ 12 ∷ 4 ∷ 4 ∷ 4 ∷ 4 ∷ 4 ∷ 4 ∷ 4 ∷ 4 ∷ 4 ∷ 4 ∷ 4 ∷ 4
    ∷ 4 ∷ 4 ∷ 4 ∷ 8 ∷ 8 ∷ 4 ∷ 4 ∷ 8 ∷ 4 ∷ 4 ∷ 8 ∷ 16 ∷ 68 ∷ 0 ∷ 20 ∷ 8 ∷ 12 ∷ 12 ∷ 12 ∷ 12 ∷ 8 ∷ 8
    ∷ 8 ∷ 8 ∷ 8 ∷ 8 ∷ 12 ∷ 12 ∷ 8 ∷ 4 ∷ 4 ∷ 4 ∷ 4 ∷ 4 ∷ 28 ∷ 12 ∷ 12 ∷ 12 ∷ 12 ∷ []

unfoldable pub bytes_1280 : List ℕ
bytes_1280 =
    0 ∷ 4 ∷ 4 ∷ 4 ∷ 4 ∷ 4 ∷ 16 ∷ 4 ∷ 4 ∷ 4 ∷ 4 ∷ 4 ∷ 8 ∷ 4 ∷ 4 ∷ 8 ∷ 8 ∷ 8 ∷ 12 ∷ 12 ∷ 4 ∷ 8 ∷ 8 ∷ 8
    ∷ 8 ∷ 8 ∷ 32 ∷ 24 ∷ 24 ∷ 56 ∷ 40 ∷ 40 ∷ 8 ∷ 8 ∷ 16 ∷ 36 ∷ 20 ∷ 12 ∷ 12 ∷ 40 ∷ 24 ∷ 20 ∷ 8 ∷ 8
    ∷ 16 ∷ 16 ∷ 4 ∷ 12 ∷ 12 ∷ 20 ∷ 36 ∷ 28 ∷ 60 ∷ 44 ∷ 12 ∷ 12 ∷ 12 ∷ 12 ∷ 12 ∷ 12 ∷ 52 ∷ 16 ∷ 8 ∷ 8
    ∷ 8 ∷ 8 ∷ 8 ∷ 8 ∷ 8 ∷ 4 ∷ 8 ∷ 8 ∷ 8 ∷ 4 ∷ 8 ∷ 8 ∷ 8 ∷ 8 ∷ 8 ∷ 8 ∷ 8 ∷ 52 ∷ 4 ∷ 4 ∷ 36 ∷ 20 ∷ 28
    ∷ 16 ∷ 28 ∷ 16 ∷ 4 ∷ 4 ∷ 4 ∷ 4 ∷ 4 ∷ 12 ∷ 12 ∷ 12 ∷ 4 ∷ 4 ∷ 0 ∷ 48 ∷ 20 ∷ 28 ∷ 68 ∷ 20 ∷ 16 ∷ 16
    ∷ 16 ∷ 16 ∷ 8 ∷ 16 ∷ 16 ∷ 16 ∷ 16 ∷ 24 ∷ 20 ∷ 20 ∷ 20 ∷ 16 ∷ 20 ∷ 24 ∷ 20 ∷ 20 ∷ 20 ∷ 28 ∷ 24
    ∷ 24 ∷ []

unfoldable pub bytes_1408 : List ℕ
bytes_1408 =
    24 ∷ 16 ∷ 12 ∷ 24 ∷ 20 ∷ 24 ∷ 16 ∷ 8 ∷ 8 ∷ 12 ∷ 12 ∷ 8 ∷ 8 ∷ 8 ∷ 8 ∷ 8 ∷ 8 ∷ 8 ∷ 8 ∷ 8 ∷ 8 ∷ 8
    ∷ 8 ∷ 8 ∷ 8 ∷ 8 ∷ 8 ∷ 8 ∷ 8 ∷ 12 ∷ 8 ∷ 20 ∷ 20 ∷ 8 ∷ 8 ∷ 12 ∷ 12 ∷ 8 ∷ 8 ∷ 12 ∷ 8 ∷ 12 ∷ 12 ∷ 8
    ∷ 8 ∷ 12 ∷ 12 ∷ 8 ∷ 8 ∷ 12 ∷ 8 ∷ 16 ∷ 8 ∷ 28 ∷ 28 ∷ 8 ∷ 8 ∷ 16 ∷ 16 ∷ 8 ∷ 8 ∷ 16 ∷ 8 ∷ 16 ∷ 16
    ∷ 8 ∷ 8 ∷ 16 ∷ 16 ∷ 8 ∷ 8 ∷ 16 ∷ 8 ∷ 20 ∷ 8 ∷ 36 ∷ 36 ∷ 8 ∷ 8 ∷ 20 ∷ 20 ∷ 8 ∷ 8 ∷ 20 ∷ 8 ∷ 20
    ∷ 20 ∷ 8 ∷ 8 ∷ 20 ∷ 20 ∷ 8 ∷ 8 ∷ 20 ∷ 8 ∷ 12 ∷ 12 ∷ 12 ∷ 12 ∷ 12 ∷ 12 ∷ 12 ∷ 12 ∷ 20 ∷ 16 ∷ 16
    ∷ 16 ∷ 16 ∷ 20 ∷ 16 ∷ 16 ∷ 16 ∷ 16 ∷ 16 ∷ 36 ∷ 40 ∷ 44 ∷ 16 ∷ 16 ∷ 16 ∷ 16 ∷ 16 ∷ 16 ∷ 12 ∷ 32
    ∷ 40 ∷ 48 ∷ 4 ∷ []
