-- ===== src/Mesa/Guest/Plain/PartF.antt =====
-- wrapgl32.c: runs of wrappers that only hand their arguments on, glGetTexLevelParameterxvOES to glIndexMaterialEXT.
-- Each row has the number that mglfunci.h gives the function, and the count of arguments.
use qemu_win.Prelude.{List, [], ◌∷◌, ◌++◌}
use qemu_win.Mesa.Guest.Ops.{Sent, queue, call}

unfoldable pub from_gl_get_tex_level_parameterxv_oes : List Sent
from_gl_get_tex_level_parameterxv_oes =
    call 1047 4 ∷ call 1049 3 ∷ call 1050 3 ∷ call 1051 3 ∷ call 1052 3 ∷ call 1054 3 ∷ []

unfoldable pub from_gl_get_tex_parameterxv_oes : List Sent
from_gl_get_tex_parameterxv_oes =
    call 1055 3
    ∷ call 1056 1
    ∷ call 1057 1
    ∷ call 1058 6
    ∷ call 1059 6
    ∷ call 1060 4
    ∷ call 1061 5
    ∷ call 1062 4
    ∷ call 1063 5
    ∷ call 1066 3
    ∷ call 1067 4
    ∷ call 1068 3
    ∷ call 1069 4
    ∷ call 1064 3
    ∷ call 1065 4
    ∷ call 1070 3
    ∷ call 1071 4
    ∷ call 1072 2
    ∷ call 1073 2
    ∷ call 1074 12
    ∷ call 1075 4
    ∷ []

unfoldable pub from_gl_get_uniform_subroutineuiv : List Sent
from_gl_get_uniform_subroutineuiv =
    call 1095 3
    ∷ call 1084 3
    ∷ call 1085 3
    ∷ call 1086 3
    ∷ call 1087 3
    ∷ call 1088 3
    ∷ call 1090 3
    ∷ call 1091 3
    ∷ call 1096 3
    ∷ call 1097 3
    ∷ call 1098 3
    ∷ call 1099 3
    ∷ call 1100 3
    ∷ call 1101 2
    ∷ call 1102 3
    ∷ call 1103 3
    ∷ call 1104 3
    ∷ call 1105 3
    ∷ call 1106 3
    ∷ call 1107 3
    ∷ call 1108 2
    ∷ call 1109 4
    ∷ call 1110 4
    ∷ call 1111 4
    ∷ call 1112 3
    ∷ call 1114 4
    ∷ call 1115 3
    ∷ call 1113 3
    ∷ call 1116 3
    ∷ call 1117 3
    ∷ call 1124 3
    ∷ call 1125 3
    ∷ call 1126 3
    ∷ call 1127 3
    ∷ call 1131 3
    ∷ call 1132 3
    ∷ call 1133 3
    ∷ []

unfoldable pub from_gl_get_vertex_attrib_lui64v_arb : List Sent
from_gl_get_vertex_attrib_lui64v_arb =
    call 1134 3
    ∷ call 1135 3
    ∷ call 1136 3
    ∷ call 1137 3
    ∷ call 1138 3
    ∷ call 1118 3
    ∷ call 1119 3
    ∷ call 1120 3
    ∷ call 1121 3
    ∷ call 1122 3
    ∷ call 1123 3
    ∷ call 1128 3
    ∷ call 1129 3
    ∷ call 1130 3
    ∷ call 1140 4
    ∷ call 1141 4
    ∷ call 1142 4
    ∷ call 1139 3
    ∷ call 1143 3
    ∷ call 1144 3
    ∷ call 1145 3
    ∷ call 1146 3
    ∷ call 1147 1
    ∷ call 881 5
    ∷ call 882 5
    ∷ call 883 4
    ∷ call 884 4
    ∷ call 885 5
    ∷ call 886 5
    ∷ call 888 6
    ∷ call 889 6
    ∷ call 890 4
    ∷ call 891 4
    ∷ call 892 4
    ∷ call 893 4
    ∷ call 894 4
    ∷ call 895 4
    ∷ []

unfoldable pub from_gl_getn_minmax : List Sent
from_gl_getn_minmax =
    call 896 6
    ∷ call 897 6
    ∷ call 898 3
    ∷ call 899 3
    ∷ call 900 3
    ∷ call 901 3
    ∷ call 902 3
    ∷ call 903 3
    ∷ call 904 2
    ∷ call 905 2
    ∷ call 906 8
    ∷ call 907 8
    ∷ call 908 6
    ∷ call 909 6
    ∷ call 910 4
    ∷ call 911 4
    ∷ call 912 4
    ∷ call 913 4
    ∷ call 914 4
    ∷ call 915 4
    ∷ call 916 4
    ∷ call 917 4
    ∷ call 918 4
    ∷ call 919 4
    ∷ call 1148 1
    ∷ call 1149 2
    ∷ call 1150 1
    ∷ call 1151 1
    ∷ call 1152 1
    ∷ call 1153 1
    ∷ call 1154 1
    ∷ call 1155 1
    ∷ queue 1156 2
    ∷ call 1157 2
    ∷ call 1158 4
    ∷ call 1159 4
    ∷ call 1160 2
    ∷ []

unfoldable pub from_gl_image_transform_parameterf_hp : List Sent
from_gl_image_transform_parameterf_hp =
    call 1161 3
    ∷ call 1162 3
    ∷ call 1163 3
    ∷ call 1164 3
    ∷ call 1165 5
    ∷ call 1166 5
    ∷ call 1167 5
    ∷ call 1168 3
    ∷ call 1169 3
    ∷ call 1170 3
    ∷ call 1171 3
    ∷ call 1175 2
    ∷ call 1176 2
    ∷ queue 1180 1
    ∷ call 1181 2
    ∷ []

unfoldable pub plain_f : List Sent
unfolding from_gl_get_tex_level_parameterxv_oes from_gl_get_tex_parameterxv_oes
    from_gl_get_uniform_subroutineuiv from_gl_get_vertex_attrib_lui64v_arb from_gl_getn_minmax
    from_gl_image_transform_parameterf_hp
plain_f =
    from_gl_get_tex_level_parameterxv_oes
    ++ (from_gl_get_tex_parameterxv_oes
        ++ (from_gl_get_uniform_subroutineuiv
            ++ (from_gl_get_vertex_attrib_lui64v_arb
                ++ (from_gl_getn_minmax ++ (from_gl_image_transform_parameterf_hp)))))
