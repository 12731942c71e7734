-- ===== src/Mesa/Guest/Plain/PartE.antt =====
-- wrapgl32.c: runs of wrappers that only hand their arguments on, glGetLightxOES to glGetTexBumpParameterivATI.
-- Each row has the number that mglfunci.h gives the function, and the count of arguments.
use qemu_win.Prelude.{List, [], ◌∷◌, ◌++◌}
use qemu_win.Mesa.Guest.Ops.{Sent, call}

unfoldable pub from_gl_get_lightx_oes : List Sent
from_gl_get_lightx_oes =
    call 818 3
    ∷ call 819 3
    ∷ call 820 3
    ∷ call 821 3
    ∷ call 822 3
    ∷ call 823 3
    ∷ call 824 4
    ∷ call 825 4
    ∷ call 826 7
    ∷ call 830 3
    ∷ call 831 3
    ∷ []

unfoldable pub from_gl_get_materialx_oes : List Sent
from_gl_get_materialx_oes =
    call 835 3
    ∷ call 836 5
    ∷ call 837 3
    ∷ call 838 5
    ∷ call 839 5
    ∷ call 840 3
    ∷ call 841 3
    ∷ call 842 3
    ∷ call 843 3
    ∷ call 846 4
    ∷ call 847 4
    ∷ call 848 4
    ∷ call 849 4
    ∷ call 850 4
    ∷ call 851 6
    ∷ call 852 5
    ∷ call 853 5
    ∷ call 855 4
    ∷ call 856 4
    ∷ call 854 4
    ∷ call 857 4
    ∷ call 844 3
    ∷ call 845 3
    ∷ call 858 3
    ∷ call 859 3
    ∷ call 860 3
    ∷ call 861 3
    ∷ call 862 3
    ∷ call 863 3
    ∷ call 864 4
    ∷ call 865 4
    ∷ call 866 4
    ∷ call 867 4
    ∷ call 868 6
    ∷ call 869 3
    ∷ call 870 3
    ∷ call 874 4
    ∷ []

unfoldable pub from_gl_get_named_program_local_parameter_iuiv_ext : List Sent
from_gl_get_named_program_local_parameter_iuiv_ext =
    call 875 4
    ∷ call 872 4
    ∷ call 873 4
    ∷ call 876 4
    ∷ call 871 4
    ∷ call 877 3
    ∷ call 878 3
    ∷ call 879 5
    ∷ call 880 4
    ∷ call 887 2
    ∷ call 920 3
    ∷ call 921 3
    ∷ call 922 5
    ∷ call 923 5
    ∷ []

unfoldable pub from_gl_get_path_color_genfv_nv : List Sent
from_gl_get_path_color_genfv_nv =
    call 930 3
    ∷ call 931 3
    ∷ call 932 2
    ∷ call 933 2
    ∷ call 934 2
    ∷ call 935 3
    ∷ call 936 5
    ∷ call 937 7
    ∷ call 938 3
    ∷ call 939 3
    ∷ call 940 9
    ∷ call 941 3
    ∷ call 942 3
    ∷ call 943 11
    ∷ call 944 5
    ∷ call 945 4
    ∷ call 947 5
    ∷ call 946 5
    ∷ call 949 4
    ∷ call 948 3
    ∷ call 950 5
    ∷ call 951 2
    ∷ call 952 7
    ∷ []

unfoldable pub from_gl_get_pixel_mapxv : List Sent
from_gl_get_pixel_mapxv =
    call 956 3
    ∷ call 957 2
    ∷ call 958 2
    ∷ call 959 3
    ∷ call 960 3
    ∷ call 962 3
    ∷ call 961 3
    ∷ call 963 2
    ∷ call 964 2
    ∷ call 965 1
    ∷ call 966 5
    ∷ call 969 3
    ∷ call 970 3
    ∷ call 967 3
    ∷ call 968 3
    ∷ []

unfoldable pub from_gl_get_program_interfaceiv : List Sent
from_gl_get_program_interfaceiv =
    call 972 4
    ∷ call 978 3
    ∷ call 979 3
    ∷ call 976 3
    ∷ call 977 3
    ∷ call 980 4
    ∷ call 981 4
    ∷ call 982 4
    ∷ call 983 4
    ∷ call 984 4
    ∷ call 985 3
    ∷ call 987 3
    ∷ call 989 3
    ∷ call 990 3
    ∷ call 991 6
    ∷ call 986 8
    ∷ call 988 8
    ∷ call 992 4
    ∷ call 993 3
    ∷ call 994 3
    ∷ call 995 3
    ∷ []

unfoldable pub from_gl_get_query_buffer_objecti64v : List Sent
from_gl_get_query_buffer_objecti64v =
    call 996 4 ∷ call 997 4 ∷ call 998 4 ∷ call 999 4 ∷ call 1000 4 ∷ []

unfoldable pub from_gl_get_sampler_parameter_iiv : List Sent
from_gl_get_sampler_parameter_iiv =
    call 1014 3
    ∷ call 1015 3
    ∷ call 1013 3
    ∷ call 1016 3
    ∷ call 1017 3
    ∷ call 1018 6
    ∷ call 1019 6
    ∷ []

unfoldable pub from_gl_get_subroutine_index : List Sent
from_gl_get_subroutine_index =
    call 1031 3 ∷ call 1032 3 ∷ call 1033 5 ∷ call 1034 2 ∷ call 1035 2 ∷ []

unfoldable pub plain_e : List Sent
unfolding from_gl_get_lightx_oes from_gl_get_materialx_oes
    from_gl_get_named_program_local_parameter_iuiv_ext from_gl_get_path_color_genfv_nv
    from_gl_get_pixel_mapxv from_gl_get_program_interfaceiv from_gl_get_query_buffer_objecti64v
    from_gl_get_sampler_parameter_iiv from_gl_get_subroutine_index
plain_e =
    from_gl_get_lightx_oes
    ++ (from_gl_get_materialx_oes
        ++ (from_gl_get_named_program_local_parameter_iuiv_ext
            ++ (from_gl_get_path_color_genfv_nv
                ++ (from_gl_get_pixel_mapxv
                    ++ (from_gl_get_program_interfaceiv
                        ++ (from_gl_get_query_buffer_objecti64v
                            ++ (from_gl_get_sampler_parameter_iiv
                                ++ (from_gl_get_subroutine_index))))))))
