-- ===== src/Mesa/Guest/Plain/PartD.antt =====
-- wrapgl32.c: runs of wrappers that only hand their arguments on, glFogxOES to glGetIntegerui64vNV.
-- Each row has the number that mglfunci.h gives the function, and the count of arguments.
use qemu_win.Prelude.{List, [], ◌∷◌, ◌++◌}
use qemu_win.Mesa.Guest.Ops.{Sent, queue, call}

unfoldable pub from_gl_fogx_oes : List Sent
from_gl_fogx_oes =
    call 610 2
    ∷ call 611 2
    ∷ call 612 2
    ∷ call 613 1
    ∷ call 618 2
    ∷ call 619 2
    ∷ call 620 2
    ∷ call 621 2
    ∷ call 614 3
    ∷ call 615 3
    ∷ call 616 3
    ∷ call 617 3
    ∷ call 622 3
    ∷ call 623 3
    ∷ call 624 3
    ∷ call 625 3
    ∷ call 651 0
    ∷ call 652 1
    ∷ call 626 2
    ∷ call 627 3
    ∷ call 628 0
    ∷ queue 629 3
    ∷ call 630 2
    ∷ queue 631 4
    ∷ queue 632 4
    ∷ call 633 4
    ∷ call 634 4
    ∷ call 635 4
    ∷ queue 637 5
    ∷ queue 638 5
    ∷ queue 639 5
    ∷ queue 640 5
    ∷ queue 641 6
    ∷ queue 642 6
    ∷ queue 636 4
    ∷ queue 643 4
    ∷ queue 644 4
    ∷ []

unfoldable pub from_gl_framebuffer_texture_face_arb : List Sent
from_gl_framebuffer_texture_face_arb =
    queue 645 5
    ∷ queue 646 5
    ∷ queue 647 5
    ∷ queue 648 5
    ∷ queue 649 5
    ∷ call 650 6
    ∷ call 653 1
    ∷ queue 654 1
    ∷ queue 655 12
    ∷ call 656 6
    ∷ call 657 6
    ∷ call 658 1
    ∷ []

unfoldable pub from_gl_gen_vertex_arrays_apple : List Sent
from_gl_gen_vertex_arrays_apple =
    call 692 2
    ∷ call 693 1
    ∷ queue 661 1
    ∷ queue 662 1
    ∷ call 663 2
    ∷ call 664 1
    ∷ call 665 2
    ∷ call 694 4
    ∷ call 695 7
    ∷ call 696 7
    ∷ call 697 6
    ∷ call 699 6
    ∷ call 698 5
    ∷ []

unfoldable pub from_gl_get_active_uniformsiv : List Sent
from_gl_get_active_uniformsiv = call 705 5 ∷ call 706 7 ∷ call 707 3 ∷ call 708 3 ∷ call 709 4 ∷ []

unfoldable pub from_gl_get_clip_planef_oes : List Sent
from_gl_get_clip_planef_oes =
    call 725 2
    ∷ call 726 2
    ∷ call 727 4
    ∷ call 728 4
    ∷ call 729 3
    ∷ call 730 3
    ∷ call 731 3
    ∷ call 732 3
    ∷ call 733 3
    ∷ call 734 3
    ∷ call 735 4
    ∷ []

unfoldable pub from_gl_get_compressed_texture_image : List Sent
from_gl_get_compressed_texture_image =
    call 745 4
    ∷ call 746 4
    ∷ call 747 10
    ∷ call 748 4
    ∷ call 749 4
    ∷ call 750 3
    ∷ call 751 3
    ∷ call 752 3
    ∷ call 753 3
    ∷ call 754 3
    ∷ call 755 2
    ∷ call 756 8
    ∷ call 757 7
    ∷ call 758 8
    ∷ call 759 2
    ∷ call 762 3
    ∷ call 760 3
    ∷ call 761 3
    ∷ []

unfoldable pub from_gl_get_first_perf_query_id_intel : List Sent
from_gl_get_first_perf_query_id_intel =
    call 768 1 ∷ call 769 2 ∷ call 772 3 ∷ call 770 3 ∷ call 771 3 ∷ []

unfoldable pub from_gl_get_frag_data_location_ext : List Sent
from_gl_get_frag_data_location_ext =
    call 777 2 ∷ call 778 3 ∷ call 779 3 ∷ call 780 3 ∷ call 781 3 ∷ []

unfoldable pub from_gl_get_framebuffer_parameterfv_amd : List Sent
from_gl_get_framebuffer_parameterfv_amd =
    call 784 6 ∷ call 785 3 ∷ call 786 3 ∷ call 787 0 ∷ call 788 0 ∷ []

unfoldable pub from_gl_get_histogram : List Sent
from_gl_get_histogram =
    call 790 5
    ∷ call 791 5
    ∷ call 792 3
    ∷ call 793 3
    ∷ call 794 3
    ∷ call 795 3
    ∷ call 796 3
    ∷ call 797 5
    ∷ call 798 5
    ∷ call 799 3
    ∷ call 800 3
    ∷ []

unfoldable pub from_gl_get_instruments_sgix : List Sent
from_gl_get_instruments_sgix =
    call 802 0 ∷ call 803 3 ∷ call 804 2 ∷ call 806 3 ∷ call 805 3 ∷ call 807 3 ∷ call 808 2 ∷ []

unfoldable pub plain_d : List Sent
unfolding from_gl_fogx_oes from_gl_framebuffer_texture_face_arb from_gl_gen_vertex_arrays_apple
    from_gl_get_active_uniformsiv from_gl_get_clip_planef_oes from_gl_get_compressed_texture_image
    from_gl_get_first_perf_query_id_intel from_gl_get_frag_data_location_ext
    from_gl_get_framebuffer_parameterfv_amd from_gl_get_histogram from_gl_get_instruments_sgix
plain_d =
    from_gl_fogx_oes
    ++ (from_gl_framebuffer_texture_face_arb
        ++ (from_gl_gen_vertex_arrays_apple
            ++ (from_gl_get_active_uniformsiv
                ++ (from_gl_get_clip_planef_oes
                    ++ (from_gl_get_compressed_texture_image
                        ++ (from_gl_get_first_perf_query_id_intel
                            ++ (from_gl_get_frag_data_location_ext
                                ++ (from_gl_get_framebuffer_parameterfv_amd
                                    ++ (from_gl_get_histogram
                                        ++ (from_gl_get_instruments_sgix))))))))))
