-- ===== src/Mesa/Guest/Plain/PartN.antt =====
-- wrapgl32.c: runs of wrappers that only hand their arguments on, glVertex4xOES to glVertexAttribParameteriAMD.
-- Each row has the number that mglfunci.h gives the function, and the count of arguments.
use qemu_win.Prelude.{List, [], ◌∷◌, ◌++◌}
use qemu_win.Mesa.Guest.Ops.{Sent, queue, call}

unfoldable pub from_gl_vertex4x_oes : List Sent
from_gl_vertex4x_oes =
    call 2560 3
    ∷ call 2561 1
    ∷ call 2562 3
    ∷ call 2563 6
    ∷ call 2564 5
    ∷ call 2565 5
    ∷ call 2567 5
    ∷ call 2566 3
    ∷ call 2568 6
    ∷ call 2569 4
    ∷ call 2570 2
    ∷ call 2571 5
    ∷ call 2572 5
    ∷ call 2573 7
    ∷ call 2574 5
    ∷ call 2575 2
    ∷ call 2576 2
    ∷ call 2577 2
    ∷ call 2578 6
    ∷ call 2579 6
    ∷ call 2580 3
    ∷ call 2581 3
    ∷ call 2582 6
    ∷ call 2583 5
    ∷ call 2584 7
    ∷ call 2585 5
    ∷ call 2586 7
    ∷ call 2587 8
    ∷ call 2588 3
    ∷ call 2589 5
    ∷ call 2590 6
    ∷ call 2591 6
    ∷ queue 2592 3
    ∷ queue 2593 3
    ∷ queue 2594 3
    ∷ []

unfoldable pub from_gl_vertex_attrib1h_nv : List Sent
from_gl_vertex_attrib1h_nv =
    call 2604 2 ∷ call 2605 2 ∷ queue 2606 2 ∷ queue 2607 2 ∷ queue 2608 2 ∷ []

unfoldable pub from_gl_vertex_attrib2h_nv : List Sent
from_gl_vertex_attrib2h_nv =
    call 2624 3 ∷ call 2625 2 ∷ queue 2626 3 ∷ queue 2627 3 ∷ queue 2628 3 ∷ []

unfoldable pub from_gl_vertex_attrib3h_nv : List Sent
from_gl_vertex_attrib3h_nv =
    call 2644 4 ∷ call 2645 2 ∷ queue 2646 4 ∷ queue 2647 4 ∷ queue 2648 4 ∷ []

unfoldable pub from_gl_vertex_attrib_array_object_ati : List Sent
from_gl_vertex_attrib_array_object_ati =
    call 2698 7
    ∷ call 2699 2
    ∷ queue 2700 2
    ∷ queue 2701 2
    ∷ call 2702 5
    ∷ call 2703 5
    ∷ call 2704 2
    ∷ call 2705 2
    ∷ call 2706 2
    ∷ call 2707 2
    ∷ call 2708 2
    ∷ call 2709 2
    ∷ call 2710 2
    ∷ call 2711 2
    ∷ call 2712 3
    ∷ call 2713 3
    ∷ call 2714 2
    ∷ call 2715 2
    ∷ call 2716 3
    ∷ call 2717 3
    ∷ call 2718 2
    ∷ call 2719 2
    ∷ call 2720 4
    ∷ call 2721 4
    ∷ call 2722 2
    ∷ call 2723 2
    ∷ call 2724 4
    ∷ call 2725 4
    ∷ call 2726 2
    ∷ call 2727 2
    ∷ call 2728 2
    ∷ call 2729 2
    ∷ call 2730 5
    ∷ call 2731 5
    ∷ call 2732 2
    ∷ call 2733 2
    ∷ call 2734 2
    ∷ []

unfoldable pub from_gl_vertex_attrib_i4sv_ext : List Sent
from_gl_vertex_attrib_i4sv_ext =
    call 2735 2
    ∷ call 2736 2
    ∷ call 2737 2
    ∷ call 2738 5
    ∷ call 2739 5
    ∷ call 2740 2
    ∷ call 2741 2
    ∷ call 2742 2
    ∷ call 2743 2
    ∷ call 2744 4
    ∷ call 2745 4
    ∷ []

unfoldable pub from_gl_vertex_attrib_l1d : List Sent
from_gl_vertex_attrib_l1d =
    call 2748 3
    ∷ call 2749 3
    ∷ call 2750 2
    ∷ call 2751 2
    ∷ call 2752 3
    ∷ call 2753 2
    ∷ call 2754 3
    ∷ call 2755 3
    ∷ call 2756 2
    ∷ call 2757 2
    ∷ call 2758 5
    ∷ call 2759 5
    ∷ call 2760 2
    ∷ call 2761 2
    ∷ call 2762 5
    ∷ call 2763 2
    ∷ call 2764 5
    ∷ call 2765 2
    ∷ call 2766 7
    ∷ call 2767 7
    ∷ call 2768 2
    ∷ call 2769 2
    ∷ call 2770 7
    ∷ call 2771 2
    ∷ call 2772 7
    ∷ call 2773 2
    ∷ call 2774 9
    ∷ call 2775 9
    ∷ call 2776 2
    ∷ call 2777 2
    ∷ call 2778 9
    ∷ call 2779 2
    ∷ call 2780 9
    ∷ call 2781 2
    ∷ call 2782 4
    ∷ call 2783 4
    ∷ []

unfoldable pub from_gl_vertex_attrib_p1ui : List Sent
from_gl_vertex_attrib_p1ui =
    call 2786 4
    ∷ call 2787 4
    ∷ call 2788 4
    ∷ call 2789 4
    ∷ call 2790 4
    ∷ call 2791 4
    ∷ call 2792 4
    ∷ call 2793 4
    ∷ call 2794 3
    ∷ []

unfoldable pub plain_n : List Sent
unfolding from_gl_vertex4x_oes from_gl_vertex_attrib1h_nv from_gl_vertex_attrib2h_nv
    from_gl_vertex_attrib3h_nv from_gl_vertex_attrib_array_object_ati from_gl_vertex_attrib_i4sv_ext
    from_gl_vertex_attrib_l1d from_gl_vertex_attrib_p1ui
plain_n =
    from_gl_vertex4x_oes
    ++ (from_gl_vertex_attrib1h_nv
        ++ (from_gl_vertex_attrib2h_nv
            ++ (from_gl_vertex_attrib3h_nv
                ++ (from_gl_vertex_attrib_array_object_ati
                    ++ (from_gl_vertex_attrib_i4sv_ext
                        ++ (from_gl_vertex_attrib_l1d ++ (from_gl_vertex_attrib_p1ui)))))))
