-- ===== src/Mesa/Guest/Plain/PartM.antt =====
-- wrapgl32.c: runs of wrappers that only hand their arguments on, glUniform1i64ARB to glVertex4d.
-- Each row has the number that mglfunci.h gives the function, and the count of arguments.
use qemu_win.Prelude.{List, [], ◌∷◌, ◌++◌}
use qemu_win.Mesa.Guest.Ops.{Sent, queue, call}

unfoldable pub from_gl_uniform1i64_arb : List Sent
from_gl_uniform1i64_arb =
    call 2373 3 ∷ call 2374 3 ∷ call 2375 3 ∷ call 2376 3 ∷ queue 2372 2 ∷ queue 2377 2 ∷ []

unfoldable pub from_gl_uniform1ui64_arb : List Sent
from_gl_uniform1ui64_arb =
    call 2381 3 ∷ call 2382 3 ∷ call 2383 3 ∷ call 2384 3 ∷ queue 2380 2 ∷ queue 2385 2 ∷ []

unfoldable pub from_gl_uniform2i64_arb : List Sent
from_gl_uniform2i64_arb =
    call 2395 5 ∷ call 2396 5 ∷ call 2397 3 ∷ call 2398 3 ∷ queue 2394 3 ∷ queue 2399 3 ∷ []

unfoldable pub from_gl_uniform2ui64_arb : List Sent
from_gl_uniform2ui64_arb =
    call 2403 5 ∷ call 2404 5 ∷ call 2405 3 ∷ call 2406 3 ∷ queue 2402 3 ∷ queue 2407 3 ∷ []

unfoldable pub from_gl_uniform3i64_arb : List Sent
from_gl_uniform3i64_arb =
    call 2417 7 ∷ call 2418 7 ∷ call 2419 3 ∷ call 2420 3 ∷ queue 2416 4 ∷ queue 2421 4 ∷ []

unfoldable pub from_gl_uniform3ui64_arb : List Sent
from_gl_uniform3ui64_arb =
    call 2425 7 ∷ call 2426 7 ∷ call 2427 3 ∷ call 2428 3 ∷ queue 2424 4 ∷ queue 2429 4 ∷ []

unfoldable pub from_gl_uniform4i64_arb : List Sent
from_gl_uniform4i64_arb =
    call 2439 9 ∷ call 2440 9 ∷ call 2441 3 ∷ call 2442 3 ∷ queue 2438 5 ∷ queue 2443 5 ∷ []

unfoldable pub from_gl_uniform4ui64_arb : List Sent
from_gl_uniform4ui64_arb =
    call 2447 9 ∷ call 2448 9 ∷ call 2449 3 ∷ call 2450 3 ∷ queue 2446 5 ∷ queue 2451 5 ∷ []

unfoldable pub from_gl_uniform_block_binding : List Sent
from_gl_uniform_block_binding =
    queue 2454 3 ∷ queue 2455 3 ∷ call 2456 3 ∷ call 2457 3 ∷ call 2458 3 ∷ call 2459 3 ∷ []

unfoldable pub from_gl_unmap_object_buffer_ati : List Sent
from_gl_unmap_object_buffer_ati =
    call 2489 1
    ∷ call 2490 2
    ∷ call 2491 5
    ∷ queue 2492 1
    ∷ queue 2493 1
    ∷ call 2494 3
    ∷ call 2495 2
    ∷ call 2509 0
    ∷ call 2510 5
    ∷ call 2511 2
    ∷ call 2512 1
    ∷ call 2513 2
    ∷ call 2514 4
    ∷ call 2515 4
    ∷ call 2516 5
    ∷ call 2517 2
    ∷ call 2518 2
    ∷ call 2519 1
    ∷ queue 2496 1
    ∷ queue 2497 1
    ∷ call 2498 1
    ∷ call 2499 5
    ∷ call 2504 4
    ∷ call 2500 2
    ∷ call 2501 2
    ∷ call 2502 2
    ∷ call 2503 2
    ∷ call 2505 2
    ∷ call 2506 2
    ∷ call 2507 2
    ∷ call 2508 2
    ∷ call 2520 2
    ∷ call 2521 1
    ∷ queue 2522 4
    ∷ []

unfoldable pub from_gl_vertex2x_oes : List Sent
from_gl_vertex2x_oes = call 2532 1 ∷ call 2533 1 ∷ call 2534 3 ∷ call 2535 1 ∷ queue 2536 6 ∷ []

unfoldable pub from_gl_vertex3x_oes : List Sent
from_gl_vertex3x_oes = call 2546 2 ∷ call 2547 1 ∷ call 2548 4 ∷ call 2549 1 ∷ queue 2550 8 ∷ []

unfoldable pub plain_m : List Sent
unfolding from_gl_uniform1i64_arb from_gl_uniform1ui64_arb from_gl_uniform2i64_arb
    from_gl_uniform2ui64_arb from_gl_uniform3i64_arb from_gl_uniform3ui64_arb
    from_gl_uniform4i64_arb from_gl_uniform4ui64_arb from_gl_uniform_block_binding
    from_gl_unmap_object_buffer_ati from_gl_vertex2x_oes from_gl_vertex3x_oes
plain_m =
    from_gl_uniform1i64_arb
    ++ (from_gl_uniform1ui64_arb
        ++ (from_gl_uniform2i64_arb
            ++ (from_gl_uniform2ui64_arb
                ++ (from_gl_uniform3i64_arb
                    ++ (from_gl_uniform3ui64_arb
                        ++ (from_gl_uniform4i64_arb
                            ++ (from_gl_uniform4ui64_arb
                                ++ (from_gl_uniform_block_binding
                                    ++ (from_gl_unmap_object_buffer_ati
                                        ++ (from_gl_vertex2x_oes ++ (from_gl_vertex3x_oes)))))))))))
