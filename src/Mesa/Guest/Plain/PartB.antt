-- ===== src/Mesa/Guest/Plain/PartB.antt =====
-- wrapgl32.c: runs of wrappers that only hand their arguments on, glClearColor to glDebugMessageInsertAMD.
-- Each row has the number that mglfunci.h gives the function, and the count of arguments.
use qemu_win.Prelude.{List, [], ◌∷◌, ◌++◌}
use qemu_win.Mesa.Guest.Ops.{Sent, queue, call}

unfoldable pub from_gl_clear_color : List Sent
from_gl_clear_color =
    queue 163 4
    ∷ call 164 4
    ∷ call 165 4
    ∷ call 166 4
    ∷ queue 167 2
    ∷ call 168 2
    ∷ queue 169 1
    ∷ call 170 1
    ∷ call 171 1
    ∷ queue 172 1
    ∷ []

unfoldable pub from_gl_clear_named_framebufferfi : List Sent
from_gl_clear_named_framebufferfi =
    call 177 5 ∷ call 178 4 ∷ call 179 4 ∷ call 180 4 ∷ queue 181 1 ∷ []

unfoldable pub from_gl_color4ub : List Sent
from_gl_color4ub = queue 229 4 ∷ call 231 6 ∷ call 232 2 ∷ call 233 7 ∷ call 234 2 ∷ []

unfoldable pub from_gl_color4x_oes : List Sent
from_gl_color4x_oes =
    call 239 4
    ∷ call 240 1
    ∷ call 241 3
    ∷ queue 242 7
    ∷ queue 243 10
    ∷ queue 244 13
    ∷ queue 245 4
    ∷ call 247 5
    ∷ queue 246 5
    ∷ queue 248 2
    ∷ call 249 2
    ∷ call 250 2
    ∷ call 251 2
    ∷ call 252 2
    ∷ []

unfoldable pub from_gl_command_list_segments_nv : List Sent
from_gl_command_list_segments_nv =
    call 273 2
    ∷ call 274 1
    ∷ queue 275 1
    ∷ queue 276 1
    ∷ call 277 4
    ∷ call 278 8
    ∷ call 279 9
    ∷ call 280 10
    ∷ call 281 8
    ∷ call 282 10
    ∷ call 283 12
    ∷ []

unfoldable pub from_gl_compressed_texture_image1_dext : List Sent
from_gl_compressed_texture_image1_dext =
    call 296 8
    ∷ call 297 9
    ∷ call 298 10
    ∷ call 299 7
    ∷ call 300 8
    ∷ call 301 9
    ∷ call 302 10
    ∷ call 303 11
    ∷ call 304 12
    ∷ call 305 2
    ∷ call 306 2
    ∷ call 307 6
    ∷ call 308 6
    ∷ call 309 7
    ∷ call 310 7
    ∷ call 311 3
    ∷ call 312 3
    ∷ call 313 3
    ∷ call 314 3
    ∷ call 315 3
    ∷ call 316 3
    ∷ call 317 3
    ∷ call 318 3
    ∷ call 319 3
    ∷ call 320 3
    ∷ queue 321 5
    ∷ call 322 5
    ∷ call 323 5
    ∷ call 324 5
    ∷ call 325 5
    ∷ call 326 5
    ∷ call 327 5
    ∷ call 328 6
    ∷ call 329 6
    ∷ queue 330 15
    ∷ call 331 15
    ∷ call 332 8
    ∷ []

unfoldable pub from_gl_copy_multi_tex_image2_dext : List Sent
from_gl_copy_multi_tex_image2_dext =
    call 333 9
    ∷ call 334 7
    ∷ call 335 9
    ∷ call 336 10
    ∷ call 337 5
    ∷ call 338 2
    ∷ queue 339 5
    ∷ queue 340 7
    ∷ queue 341 7
    ∷ queue 342 8
    ∷ queue 343 8
    ∷ queue 344 6
    ∷ queue 345 6
    ∷ queue 346 8
    ∷ queue 347 8
    ∷ queue 348 9
    ∷ queue 349 9
    ∷ queue 350 8
    ∷ queue 351 9
    ∷ queue 352 6
    ∷ queue 353 7
    ∷ queue 354 8
    ∷ queue 355 9
    ∷ queue 356 9
    ∷ queue 357 10
    ∷ call 360 7
    ∷ call 361 2
    ∷ call 362 7
    ∷ call 363 2
    ∷ call 358 1
    ∷ call 359 2
    ∷ call 364 2
    ∷ call 365 2
    ∷ call 366 2
    ∷ call 367 2
    ∷ call 368 2
    ∷ []

unfoldable pub from_gl_create_shader_program_ext : List Sent
from_gl_create_shader_program_ext =
    call 377 2
    ∷ call 378 3
    ∷ call 379 2
    ∷ call 380 3
    ∷ call 381 3
    ∷ call 382 2
    ∷ call 383 2
    ∷ queue 384 1
    ∷ call 385 2
    ∷ call 386 2
    ∷ call 387 1
    ∷ call 388 2
    ∷ call 389 2
    ∷ call 390 2
    ∷ call 391 6
    ∷ call 392 6
    ∷ call 393 5
    ∷ call 394 6
    ∷ call 395 5
    ∷ []

unfoldable pub plain_b : List Sent
unfolding from_gl_clear_color from_gl_clear_named_framebufferfi from_gl_color4ub from_gl_color4x_oes
    from_gl_command_list_segments_nv from_gl_compressed_texture_image1_dext
    from_gl_copy_multi_tex_image2_dext from_gl_create_shader_program_ext
plain_b =
    from_gl_clear_color
    ++ (from_gl_clear_named_framebufferfi
        ++ (from_gl_color4ub
            ++ (from_gl_color4x_oes
                ++ (from_gl_command_list_segments_nv
                    ++ (from_gl_compressed_texture_image1_dext
                        ++ (from_gl_copy_multi_tex_image2_dext
                            ++ (from_gl_create_shader_program_ext)))))))
