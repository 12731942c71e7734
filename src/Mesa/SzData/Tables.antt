-- ===== src/Mesa/SzData/Tables.antt =====
-- szgldata.c, the tables: the OpenGL enumerators of mgldefs.h and, for each, the number of bytes
-- or of components. A row stands for a row of the source, in its order.
use qemu_win.Prelude.{ℕ, List, [], ◌∷◌}

abbrev pub Table : Type 0
Table = List (ℕ × ℕ)

unfoldable pub gltype : Table
gltype =
    (0x1407, 2)
    ∷ (0x140b, 2)
    ∷ (0x1402, 2)
    ∷ (0x1403, 2)
    ∷ (0x8366, 2)
    ∷ (0x8033, 2)
    ∷ (0x8365, 2)
    ∷ (0x8034, 2)
    ∷ (0x8363, 2)
    ∷ (0x8364, 2)
    ∷ (0x1408, 3)
    ∷ (0x1409, 4)
    ∷ (0x140c, 4)
    ∷ (0x1406, 4)
    ∷ (0x1404, 4)
    ∷ (0x8d9f, 4)
    ∷ (0x1405, 4)
    ∷ (0x8c3b, 4)
    ∷ (0x8036, 4)
    ∷ (0x84fa, 4)
    ∷ (0x8368, 4)
    ∷ (0x8035, 4)
    ∷ (0x8367, 4)
    ∷ (0x86db, 4)
    ∷ (0x140a, 8)
    ∷ (0x8dad, 8)
    ∷ []

unfoldable pub glformat : Table
glformat =
    (0x84f9, 2)
    ∷ (0x86f5, 2)
    ∷ (0x190a, 2)
    ∷ (0x8227, 2)
    ∷ (0x0002, 2)
    ∷ (0x80e0, 3)
    ∷ (0x86f6, 3)
    ∷ (0x1907, 3)
    ∷ (0x0003, 3)
    ∷ (0x80e1, 4)
    ∷ (0x86dc, 4)
    ∷ (0x86f7, 4)
    ∷ (0x1908, 4)
    ∷ (0x0004, 4)
    ∷ (0x2a20, 8)
    ∷ (0x2a22, 12)
    ∷ (0x2a21, 12)
    ∷ (0x2a23, 16)
    ∷ (0x2a27, 20)
    ∷ (0x2a24, 24)
    ∷ (0x2a25, 24)
    ∷ (0x2a29, 24)
    ∷ (0x2a2a, 32)
    ∷ (0x2a2b, 32)
    ∷ (0x2a28, 32)
    ∷ (0x2a26, 40)
    ∷ (0x2a2c, 48)
    ∷ (0x2a2d, 60)
    ∷ []

unfoldable pub glpname : Table
glpname =
    (0x846e, 2)
    ∷ (0x846d, 2)
    ∷ (0x0b70, 2)
    ∷ (0x0b22, 2)
    ∷ (0x0dd0, 2)
    ∷ (0x0d94, 2)
    ∷ (0x0dd3, 2)
    ∷ (0x0db4, 2)
    ∷ (0x0d3a, 2)
    ∷ (0x0b12, 2)
    ∷ (0x0b40, 2)
    ∷ (0x0b22, 2)
    ∷ (0x0b12, 2)
    ∷ (0x825d, 2)
    ∷ (0x1603, 3)
    ∷ (0x86e5, 3)
    ∷ (0x0b02, 3)
    ∷ (0x8129, 3)
    ∷ (0x0d92, 3)
    ∷ (0x0d95, 3)
    ∷ (0x0d97, 3)
    ∷ (0x0db2, 3)
    ∷ (0x0db5, 3)
    ∷ (0x0db7, 3)
    ∷ (0x1204, 3)
    ∷ (0x1200, 4)
    ∷ (0x1602, 4)
    ∷ (0x8005, 4)
    ∷ (0x0c22, 4)
    ∷ (0x0c23, 4)
    ∷ (0x852a, 4)
    ∷ (0x852b, 4)
    ∷ (0x86e0, 4)
    ∷ (0x0b00, 4)
    ∷ (0x0b04, 4)
    ∷ (0x0b07, 4)
    ∷ (0x845f, 4)
    ∷ (0x0b06, 4)
    ∷ (0x8459, 4)
    ∷ (0x0b03, 4)
    ∷ (0x1201, 4)
    ∷ (0x1600, 4)
    ∷ (0x2502, 4)
    ∷ (0x0b66, 4)
    ∷ (0x0b53, 4)
    ∷ (0x0d90, 4)
    ∷ (0x0d96, 4)
    ∷ (0x0d98, 4)
    ∷ (0x0db0, 4)
    ∷ (0x0dd2, 4)
    ∷ (0x0db6, 4)
    ∷ (0x0db8, 4)
    ∷ (0x2501, 4)
    ∷ (0x86e1, 4)
    ∷ (0x1203, 4)
    ∷ (0x0c10, 4)
    ∷ (0x1202, 4)
    ∷ (0x1004, 4)
    ∷ (0x871a, 4)
    ∷ (0x2201, 4)
    ∷ (0x8e46, 4)
    ∷ (0x0ba2, 4)
    ∷ (0x80b1, 16)
    ∷ (0x0ba6, 16)
    ∷ (0x0ba7, 16)
    ∷ []

-- the types that pack all components of a pixel
unfoldable pub packed_types : List ℕ
packed_types =
    0x8d9f ∷ 0x8362 ∷ 0x8032 ∷ 0x8c3b ∷ 0x8036 ∷ 0x84fa ∷ 0x8368 ∷ 0x8035 ∷ 0x8367 ∷ 0x86db ∷ 0x8366
    ∷ 0x8033 ∷ 0x8365 ∷ 0x8034 ∷ 0x8363 ∷ 0x8364 ∷ []
