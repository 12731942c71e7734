-- ===== src/Mesa/Guest/Plain/PartC.antt =====
-- wrapgl32.c: runs of wrappers that only hand their arguments on, glDeleteLists to glFogCoordFormatNV.
-- Each row has the number that mglfunci.h gives the function, and the count of arguments.
use qemu_win.Prelude.{List, [], ◌∷◌, ◌++◌}
use qemu_win.Mesa.Guest.Ops.{Sent, queue, queue_as, call}

unfoldable pub from_gl_delete_lists : List Sent
from_gl_delete_lists = queue 409 2 ∷ call 410 2 ∷ call 411 2 ∷ call 412 3 ∷ queue 413 1 ∷ []

unfoldable pub from_gl_delete_paths_nv : List Sent
from_gl_delete_paths_nv = call 415 2 ∷ call 416 2 ∷ call 417 1 ∷ queue 418 1 ∷ call 419 2 ∷ []

unfoldable pub from_gl_delete_vertex_arrays_apple : List Sent
from_gl_delete_vertex_arrays_apple =
    call 437 2
    ∷ call 438 1
    ∷ queue 440 4
    ∷ call 439 4
    ∷ queue 441 1
    ∷ queue 442 1
    ∷ queue 443 4
    ∷ []

unfoldable pub from_gl_depth_range_indexed : List Sent
from_gl_depth_range_indexed =
    call 448 5
    ∷ call 445 4
    ∷ call 446 2
    ∷ call 447 2
    ∷ call 449 2
    ∷ queue 450 2
    ∷ call 451 2
    ∷ call 452 3
    ∷ []

unfoldable pub from_gl_disable_client_state_indexed_ext : List Sent
from_gl_disable_client_state_indexed_ext =
    call 456 2
    ∷ call 455 2
    ∷ call 458 2
    ∷ call 459 1
    ∷ call 460 2
    ∷ call 461 2
    ∷ call 462 2
    ∷ call 463 2
    ∷ []

unfoldable pub from_gl_draw_arrays_instanced : List Sent
from_gl_draw_arrays_instanced =
    queue 472 4 ∷ queue 473 4 ∷ queue 474 5 ∷ queue 475 4 ∷ queue 476 1 ∷ []

unfoldable pub from_gl_draw_buffers_ati : List Sent
from_gl_draw_buffers_ati =
    call 479 2 ∷ call 480 4 ∷ call 481 5 ∷ call 482 5 ∷ call 483 6 ∷ call 484 3 ∷ call 485 2 ∷ []

unfoldable pub from_gl_draw_texture_nv : List Sent
from_gl_draw_texture_nv =
    call 504 11
    ∷ call 505 2
    ∷ call 506 3
    ∷ call 507 2
    ∷ call 508 3
    ∷ call 509 4
    ∷ call 510 12
    ∷ call 517 3
    ∷ call 518 3
    ∷ queue 511 1
    ∷ call 512 1
    ∷ []

unfoldable pub from_gl_enable_client_state_indexed_ext : List Sent
from_gl_enable_client_state_indexed_ext =
    call 524 2
    ∷ call 523 2
    ∷ call 526 2
    ∷ call 527 1
    ∷ call 528 2
    ∷ call 529 2
    ∷ call 530 2
    ∷ call 531 2
    ∷ []

unfoldable pub from_gl_enablei : List Sent
from_gl_enablei =
    queue 525 2
    ∷ queue 534 0
    ∷ call 535 0
    ∷ call 536 0
    ∷ call 537 0
    ∷ queue 538 0
    ∷ queue 539 0
    ∷ queue 540 0
    ∷ call 541 1
    ∷ call 542 1
    ∷ queue 543 1
    ∷ queue 544 1
    ∷ queue 545 2
    ∷ queue 546 0
    ∷ queue 547 0
    ∷ call 548 0
    ∷ call 549 0
    ∷ call 550 1
    ∷ queue 551 2
    ∷ []

unfoldable pub from_gl_eval_coord2x_oes : List Sent
from_gl_eval_coord2x_oes =
    call 561 2
    ∷ call 562 1
    ∷ call 563 2
    ∷ queue 564 3
    ∷ queue 565 5
    ∷ queue 566 1
    ∷ queue 567 2
    ∷ call 568 0
    ∷ []

unfoldable pub from_gl_finish : List Sent
from_gl_finish =
    call 575 0
    ∷ call 576 1
    ∷ queue 577 1
    ∷ queue 578 1
    ∷ queue_as 579 2 1
    ∷ call 580 0
    ∷ call 581 0
    ∷ queue 582 3
    ∷ queue 583 3
    ∷ call 584 3
    ∷ call 585 3
    ∷ call 586 1
    ∷ call 587 0
    ∷ call 588 1
    ∷ call 589 2
    ∷ call 590 0
    ∷ call 597 2
    ∷ []

unfoldable pub plain_c : List Sent
unfolding from_gl_delete_lists from_gl_delete_paths_nv from_gl_delete_vertex_arrays_apple
    from_gl_depth_range_indexed from_gl_disable_client_state_indexed_ext
    from_gl_draw_arrays_instanced from_gl_draw_buffers_ati from_gl_draw_texture_nv
    from_gl_enable_client_state_indexed_ext from_gl_enablei from_gl_eval_coord2x_oes from_gl_finish
plain_c =
    from_gl_delete_lists
    ++ (from_gl_delete_paths_nv
        ++ (from_gl_delete_vertex_arrays_apple
            ++ (from_gl_depth_range_indexed
                ++ (from_gl_disable_client_state_indexed_ext
                    ++ (from_gl_draw_arrays_instanced
                        ++ (from_gl_draw_buffers_ati
                            ++ (from_gl_draw_texture_nv
                                ++ (from_gl_enable_client_state_indexed_ext
                                    ++ (from_gl_enablei
                                        ++ (from_gl_eval_coord2x_oes ++ (from_gl_finish)))))))))))
