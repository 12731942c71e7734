-- ===== src/Mesa/Guest/Plain/PartK.antt =====
-- wrapgl32.c: runs of wrappers that only hand their arguments on, glRenderbufferStorage to glTexCoord2d.
-- Each row has the number that mglfunci.h gives the function, and the count of arguments.
use qemu_win.Prelude.{List, [], ◌∷◌, ◌++◌}
use qemu_win.Mesa.Guest.Ops.{Sent, queue, queue_as, call}

unfoldable pub from_gl_renderbuffer_storage : List Sent
from_gl_renderbuffer_storage =
    queue 1970 4
    ∷ queue 1971 4
    ∷ queue 1972 5
    ∷ call 1973 6
    ∷ call 1974 6
    ∷ queue 1975 5
    ∷ call 1978 3
    ∷ call 1979 1
    ∷ call 1980 1
    ∷ call 1981 7
    ∷ call 1982 3
    ∷ call 1983 11
    ∷ call 1984 4
    ∷ call 1985 8
    ∷ call 1986 3
    ∷ call 1987 7
    ∷ call 1988 3
    ∷ call 1989 1
    ∷ call 1990 13
    ∷ call 1991 5
    ∷ call 1992 9
    ∷ call 1993 4
    ∷ call 1994 6
    ∷ call 1995 3
    ∷ call 1996 4
    ∷ call 1997 2
    ∷ call 1998 1
    ∷ call 1999 1
    ∷ call 2000 1
    ∷ []

unfoldable pub from_gl_reset_histogram : List Sent
from_gl_reset_histogram =
    call 2002 1
    ∷ call 2003 1
    ∷ call 2004 2
    ∷ call 2005 1
    ∷ call 2006 1
    ∷ call 2007 0
    ∷ call 2008 0
    ∷ call 2009 0
    ∷ call 2010 0
    ∷ queue 2011 8
    ∷ queue 2012 4
    ∷ call 2013 4
    ∷ call 2014 2
    ∷ call 2015 2
    ∷ queue 2016 3
    ∷ call 2017 2
    ∷ call 2019 2
    ∷ call 2020 2
    ∷ call 2018 2
    ∷ call 2021 1
    ∷ call 2022 1
    ∷ []

unfoldable pub from_gl_select_perf_monitor_counters_amd : List Sent
from_gl_select_perf_monitor_counters_amd =
    call 2079 5 ∷ call 2080 3 ∷ call 2081 8 ∷ call 2082 8 ∷ queue 2083 1 ∷ queue_as 2084 2 1 ∷ []

unfoldable pub from_gl_set_invariant_ext : List Sent
from_gl_set_invariant_ext =
    call 2086 3
    ∷ call 2087 3
    ∷ call 2088 3
    ∷ queue 2089 1
    ∷ call 2090 5
    ∷ call 2091 3
    ∷ call 2092 4
    ∷ call 2093 5
    ∷ []

unfoldable pub from_gl_shader_storage_block_binding : List Sent
from_gl_shader_storage_block_binding =
    call 2096 3
    ∷ call 2097 1
    ∷ call 2098 4
    ∷ call 2099 3
    ∷ call 2100 1
    ∷ call 2101 3
    ∷ call 2102 6
    ∷ call 2103 2
    ∷ call 2104 2
    ∷ call 2105 5
    ∷ call 2106 5
    ∷ call 2107 2
    ∷ call 2108 2
    ∷ call 2109 2
    ∷ call 2110 2
    ∷ call 2111 0
    ∷ call 2112 2
    ∷ call 2113 2
    ∷ call 2114 8
    ∷ call 2115 3
    ∷ queue 2116 3
    ∷ queue 2117 4
    ∷ queue 2118 4
    ∷ queue 2119 1
    ∷ queue 2120 2
    ∷ queue 2121 3
    ∷ queue 2122 4
    ∷ queue 2123 4
    ∷ call 2124 2
    ∷ call 2125 8
    ∷ call 2126 3
    ∷ call 2127 9
    ∷ call 2128 4
    ∷ call 2129 9
    ∷ call 2130 4
    ∷ call 2131 1
    ∷ call 2132 2
    ∷ []

unfoldable pub from_gl_subpixel_precision_bias_nv : List Sent
from_gl_subpixel_precision_bias_nv =
    call 2133 2
    ∷ call 2134 6
    ∷ call 2135 1
    ∷ call 2136 0
    ∷ call 2137 3
    ∷ call 2138 1
    ∷ call 2139 6
    ∷ call 2140 1
    ∷ call 2141 3
    ∷ call 2142 1
    ∷ call 2143 3
    ∷ call 2144 1
    ∷ call 2145 3
    ∷ call 2146 1
    ∷ call 2147 3
    ∷ call 2148 1
    ∷ call 2149 1
    ∷ call 2150 1
    ∷ []

unfoldable pub from_gl_tex_attach_memory_nv : List Sent
from_gl_tex_attach_memory_nv =
    call 2154 4
    ∷ queue 2155 3
    ∷ queue 2156 3
    ∷ queue 2157 3
    ∷ call 2158 5
    ∷ call 2159 2
    ∷ call 2160 2
    ∷ call 2161 1
    ∷ call 2162 1
    ∷ queue 2163 2
    ∷ []

unfoldable pub from_gl_tex_coord1x_oes : List Sent
from_gl_tex_coord1x_oes = call 2173 1 ∷ call 2174 1 ∷ call 2175 2 ∷ call 2176 1 ∷ queue 2177 4 ∷ []

unfoldable pub plain_k : List Sent
unfolding from_gl_renderbuffer_storage from_gl_reset_histogram
    from_gl_select_perf_monitor_counters_amd from_gl_set_invariant_ext
    from_gl_shader_storage_block_binding from_gl_subpixel_precision_bias_nv
    from_gl_tex_attach_memory_nv from_gl_tex_coord1x_oes
plain_k =
    from_gl_renderbuffer_storage
    ++ (from_gl_reset_histogram
        ++ (from_gl_select_perf_monitor_counters_amd
            ++ (from_gl_set_invariant_ext
                ++ (from_gl_shader_storage_block_binding
                    ++ (from_gl_subpixel_precision_bias_nv
                        ++ (from_gl_tex_attach_memory_nv ++ (from_gl_tex_coord1x_oes)))))))
