-- ===== src/Mesa/Guest/Plain/PartO.antt =====
-- wrapgl32.c: runs of wrappers that only hand their arguments on, glVertexBindingDivisor to glWriteMaskEXT.
-- Each row has the number that mglfunci.h gives the function, and the count of arguments.
use qemu_win.Prelude.{List, [], ◌∷◌, ◌++◌}
use qemu_win.Mesa.Guest.Ops.{Sent, queue, call}

unfoldable pub from_gl_vertex_binding_divisor : List Sent
from_gl_vertex_binding_divisor =
    call 2815 2
    ∷ queue 2816 1
    ∷ call 2817 2
    ∷ call 2818 2
    ∷ call 2819 3
    ∷ call 2820 2
    ∷ call 2821 2
    ∷ call 2822 2
    ∷ call 2823 2
    ∷ call 2824 2
    ∷ call 2825 2
    ∷ []

unfoldable pub from_gl_vertex_pointer_list_ibm : List Sent
from_gl_vertex_pointer_list_ibm =
    call 2828 5
    ∷ call 2829 3
    ∷ call 2830 3
    ∷ call 2831 2
    ∷ call 2832 2
    ∷ call 2833 2
    ∷ call 2834 2
    ∷ call 2835 2
    ∷ call 2836 2
    ∷ call 2837 2
    ∷ call 2838 5
    ∷ call 2839 2
    ∷ call 2840 3
    ∷ call 2841 2
    ∷ call 2842 3
    ∷ call 2843 2
    ∷ call 2844 3
    ∷ call 2845 2
    ∷ call 2846 7
    ∷ call 2847 2
    ∷ call 2848 4
    ∷ call 2849 2
    ∷ call 2850 4
    ∷ call 2851 2
    ∷ call 2852 4
    ∷ call 2853 2
    ∷ call 2854 9
    ∷ call 2855 2
    ∷ call 2856 5
    ∷ call 2857 2
    ∷ call 2858 5
    ∷ call 2859 2
    ∷ call 2860 5
    ∷ call 2861 2
    ∷ []

unfoldable pub from_gl_vertex_weighth_nv : List Sent
from_gl_vertex_weighth_nv =
    call 2864 1
    ∷ call 2865 1
    ∷ call 2867 3
    ∷ call 2868 4
    ∷ call 2869 4
    ∷ call 2870 4
    ∷ queue 2871 4
    ∷ []

unfoldable pub from_gl_viewport_position_wscale_nv : List Sent
from_gl_viewport_position_wscale_nv =
    call 2875 3 ∷ call 2876 5 ∷ call 2877 6 ∷ queue 2878 4 ∷ call 2879 2 ∷ call 2884 4 ∷ []

unfoldable pub from_gl_window_pos2d : List Sent
from_gl_window_pos2d =
    call 2890 4
    ∷ call 2891 4
    ∷ call 2892 4
    ∷ call 2893 1
    ∷ call 2894 1
    ∷ call 2895 1
    ∷ call 2896 2
    ∷ call 2897 2
    ∷ call 2898 2
    ∷ call 2899 1
    ∷ call 2900 1
    ∷ call 2901 1
    ∷ call 2902 2
    ∷ call 2903 2
    ∷ call 2904 2
    ∷ call 2905 1
    ∷ call 2906 1
    ∷ call 2907 1
    ∷ call 2908 2
    ∷ call 2909 2
    ∷ call 2910 2
    ∷ call 2911 1
    ∷ call 2912 1
    ∷ call 2913 1
    ∷ call 2914 6
    ∷ call 2915 6
    ∷ call 2916 6
    ∷ call 2917 1
    ∷ call 2918 1
    ∷ call 2919 1
    ∷ call 2920 3
    ∷ call 2921 3
    ∷ call 2922 3
    ∷ call 2923 1
    ∷ call 2924 1
    ∷ call 2925 1
    ∷ call 2926 3
    ∷ []

unfoldable pub from_gl_window_pos3i_arb : List Sent
from_gl_window_pos3i_arb =
    call 2927 3
    ∷ call 2928 3
    ∷ call 2929 1
    ∷ call 2930 1
    ∷ call 2931 1
    ∷ call 2932 3
    ∷ call 2933 3
    ∷ call 2934 3
    ∷ call 2935 1
    ∷ call 2936 1
    ∷ call 2937 1
    ∷ call 2938 8
    ∷ call 2939 1
    ∷ call 2940 4
    ∷ call 2941 1
    ∷ call 2942 4
    ∷ call 2943 1
    ∷ call 2944 4
    ∷ call 2945 1
    ∷ call 2946 3
    ∷ call 2947 6
    ∷ []

unfoldable pub plain_o : List Sent
unfolding from_gl_vertex_binding_divisor from_gl_vertex_pointer_list_ibm from_gl_vertex_weighth_nv
    from_gl_viewport_position_wscale_nv from_gl_window_pos2d from_gl_window_pos3i_arb
plain_o =
    from_gl_vertex_binding_divisor
    ++ (from_gl_vertex_pointer_list_ibm
        ++ (from_gl_vertex_weighth_nv
            ++ (from_gl_viewport_position_wscale_nv
                ++ (from_gl_window_pos2d ++ (from_gl_window_pos3i_arb)))))
