-- ===== src/Mesa/Guest/Plain/PartA.antt =====
-- wrapgl32.c: runs of wrappers that only hand their arguments on, glAccum to glClearAccumxOES.
-- Each row has the number that mglfunci.h gives the function, and the count of arguments.
use qemu_win.Prelude.{List, [], ◌∷◌, ◌++◌}
use qemu_win.Mesa.Guest.Ops.{Sent, queue, call}

unfoldable pub from_gl_accum : List Sent
from_gl_accum =
    queue 0 2
    ∷ call 1 2
    ∷ call 2 4
    ∷ call 3 1
    ∷ call 4 2
    ∷ queue 5 1
    ∷ queue 6 1
    ∷ queue 7 1
    ∷ call 8 2
    ∷ queue 9 6
    ∷ queue 10 9
    ∷ queue 11 12
    ∷ queue 12 2
    ∷ call 13 2
    ∷ call 14 1
    ∷ call 15 0
    ∷ call 16 1
    ∷ []

unfoldable pub from_gl_array_object_ati : List Sent
from_gl_array_object_ati =
    call 22 6
    ∷ call 23 1
    ∷ call 24 2
    ∷ queue 25 2
    ∷ queue 26 1
    ∷ call 27 2
    ∷ call 28 2
    ∷ call 29 1
    ∷ queue 30 0
    ∷ queue 31 1
    ∷ call 32 1
    ∷ call 33 1
    ∷ queue 34 2
    ∷ queue 35 2
    ∷ queue 36 3
    ∷ queue 37 1
    ∷ queue 38 1
    ∷ call 39 1
    ∷ call 40 0
    ∷ call 41 1
    ∷ []

unfoldable pub from_gl_bind_buffer_base : List Sent
from_gl_bind_buffer_base =
    queue 46 3
    ∷ queue 47 3
    ∷ call 48 3
    ∷ queue 49 4
    ∷ call 50 4
    ∷ queue 51 5
    ∷ queue 52 5
    ∷ call 53 5
    ∷ call 54 4
    ∷ call 55 6
    ∷ []

unfoldable pub from_gl_bind_fragment_shader_ati : List Sent
from_gl_bind_fragment_shader_ati =
    queue 59 1 ∷ queue 60 2 ∷ queue 61 2 ∷ queue 62 7 ∷ queue 63 7 ∷ []

unfoldable pub from_gl_bind_light_parameter_ext : List Sent
from_gl_bind_light_parameter_ext =
    call 65 2
    ∷ call 66 2
    ∷ call 67 3
    ∷ call 68 1
    ∷ queue 69 2
    ∷ queue 70 2
    ∷ call 71 1
    ∷ queue 72 2
    ∷ queue 73 2
    ∷ queue 74 2
    ∷ []

unfoldable pub from_gl_bind_shading_rate_image_nv : List Sent
from_gl_bind_shading_rate_image_nv =
    call 76 1
    ∷ call 77 3
    ∷ queue 78 2
    ∷ queue 79 2
    ∷ call 81 2
    ∷ call 82 2
    ∷ call 80 3
    ∷ call 83 2
    ∷ call 84 2
    ∷ []

unfoldable pub from_gl_bind_vertex_array_apple : List Sent
from_gl_bind_vertex_array_apple =
    call 86 1
    ∷ call 87 4
    ∷ call 88 5
    ∷ call 89 1
    ∷ call 90 4
    ∷ call 91 5
    ∷ call 92 3
    ∷ call 93 1
    ∷ call 94 6
    ∷ call 95 1
    ∷ call 96 3
    ∷ call 97 1
    ∷ call 98 3
    ∷ call 99 1
    ∷ call 100 3
    ∷ call 101 1
    ∷ call 102 3
    ∷ []

unfoldable pub from_gl_bitmapx_oes : List Sent
from_gl_bitmapx_oes =
    call 104 7
    ∷ call 105 0
    ∷ call 106 0
    ∷ queue 107 4
    ∷ queue 108 4
    ∷ call 109 4
    ∷ queue 110 1
    ∷ queue 111 1
    ∷ call 114 2
    ∷ queue 115 2
    ∷ queue 116 2
    ∷ call 119 3
    ∷ queue 117 3
    ∷ queue 118 3
    ∷ queue 112 2
    ∷ queue 113 2
    ∷ queue 120 2
    ∷ call 123 3
    ∷ queue 124 4
    ∷ queue 125 4
    ∷ call 129 4
    ∷ call 128 5
    ∷ queue 126 5
    ∷ queue 127 5
    ∷ queue 121 3
    ∷ queue 122 3
    ∷ call 130 2
    ∷ queue 131 10
    ∷ queue 132 10
    ∷ call 133 12
    ∷ call 134 5
    ∷ call 135 4
    ∷ []

unfoldable pub from_gl_check_named_framebuffer_status : List Sent
from_gl_check_named_framebuffer_status =
    call 150 2
    ∷ call 151 2
    ∷ queue 152 2
    ∷ queue 153 2
    ∷ queue 154 1
    ∷ queue 155 4
    ∷ call 156 4
    ∷ []

unfoldable pub plain_a : List Sent
unfolding from_gl_accum from_gl_array_object_ati from_gl_bind_buffer_base
    from_gl_bind_fragment_shader_ati from_gl_bind_light_parameter_ext
    from_gl_bind_shading_rate_image_nv from_gl_bind_vertex_array_apple from_gl_bitmapx_oes
    from_gl_check_named_framebuffer_status
plain_a =
    from_gl_accum
    ++ (from_gl_array_object_ati
        ++ (from_gl_bind_buffer_base
            ++ (from_gl_bind_fragment_shader_ati
                ++ (from_gl_bind_light_parameter_ext
                    ++ (from_gl_bind_shading_rate_image_nv
                        ++ (from_gl_bind_vertex_array_apple
                            ++ (from_gl_bitmapx_oes
                                ++ (from_gl_check_named_framebuffer_status))))))))
