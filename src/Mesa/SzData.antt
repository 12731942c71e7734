-- ===== src/Mesa/SzData.antt =====
-- szgldata.c: the sizes of OpenGL pixel types, formats and parameters.
pub mod Tables
mod Laws
mod Tests
use qemu_win.Prelude.{ℕ, ◌*◌, ◌/◌, Bool, List, [], ◌∷◌, ◌==◌, if◌then◌else◌, is_in}
use Tables.{Table, gltype, glformat, glpname, packed_types}

-- `for (i = 0; t[i].n; i++) if (key == t[i].key) break;` and the `n` found, 1 at the end
unfoldable pub size_in : Table → ℕ → ℕ
size_in [] key = 1
size_in ((k, n) ∷ t) key = if key == k then n else size_in t key

unfoldable pub sztype : ℕ → ℕ
sztype type = size_in gltype type

unfoldable pub szformat : ℕ → ℕ
szformat format = size_in glformat format

unfoldable pub szpname : ℕ → ℕ
szpname pname = size_in glpname pname

unfoldable pub szgldata : ℕ → ℕ → ℕ
szgldata format type =
    let ret = szformat format * sztype type in
    if is_in packed_types type then ret / szformat format else ret

unfoldable pub szglname : ℕ → ℕ
szglname pname = szpname pname
