-- ===== src/Mesa/SzData/Tests.antt =====
-- Runs of the two lookups on enumerators of the tables.
use qemu_win.Prelude.{ℕ, ◌≤◌, ◌≡◌, refl}
use qemu_win.Mesa.SzData.Tables.{gltype, glformat, packed_types}
use qemu_win.Mesa.SzData.{size_in, sztype, szformat, szgldata, szglname}
use qemu_win.Mesa.SzData.Laws.{szgldata_bounds}

abbrev gl_rgba : ℕ
gl_rgba = 0x1908

abbrev gl_unsigned_byte : ℕ
gl_unsigned_byte = 0x1401

abbrev gl_unsigned_int_8_8_8_8 : ℕ
gl_unsigned_int_8_8_8_8 = 0x8035

rgba_bytes : szgldata gl_rgba gl_unsigned_byte ≡ 4
unfolding szgldata sztype szformat size_in gltype glformat packed_types
rgba_bytes = refl

rgba_packed : szgldata gl_rgba gl_unsigned_int_8_8_8_8 ≡ 4
unfolding szgldata sztype szformat size_in gltype glformat packed_types
rgba_packed = refl

szgldata_bounds_example :
    (1 ≤ szgldata gl_rgba gl_unsigned_byte)
    × (szgldata gl_rgba gl_unsigned_byte ≤ 480)
    × (1 ≤ szglname 0x0ba6)
    × (szglname 0x0ba6 ≤ 16)
szgldata_bounds_example = szgldata_bounds gl_rgba gl_unsigned_byte 0x0ba6

-- 16 bytes, where a pixel of GL_DEPTH_STENCIL and GL_FLOAT_32_UNSIGNED_INT_24_8_REV has 8
missed_type : szgldata 0x84f9 0x8dad ≡ 16
unfolding szgldata sztype szformat size_in gltype glformat packed_types
missed_type = refl
