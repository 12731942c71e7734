-- ===== src/Mesa/Guest/Plain/PartL.antt =====
-- wrapgl32.c: runs of wrappers that only hand their arguments on, glTexCoord2f to glUniform1d.
-- Each row has the number that mglfunci.h gives the function, and the count of arguments.
use qemu_win.Prelude.{List, [], ◌∷◌, ◌++◌}
use qemu_win.Mesa.Guest.Ops.{Sent, queue, queue_as, call}

unfoldable pub from_gl_tex_coord2f : List Sent
from_gl_tex_coord2f =
    queue 2179 2
    ∷ call 2180 8
    ∷ call 2181 3
    ∷ call 2182 12
    ∷ call 2183 4
    ∷ call 2184 9
    ∷ call 2185 3
    ∷ call 2186 8
    ∷ call 2187 3
    ∷ call 2189 5
    ∷ call 2190 2
    ∷ []

unfoldable pub from_gl_tex_coord2x_oes : List Sent
from_gl_tex_coord2x_oes = call 2197 2 ∷ call 2198 1 ∷ call 2199 3 ∷ call 2200 1 ∷ queue 2201 6 ∷ []

unfoldable pub from_gl_tex_coord3x_oes : List Sent
from_gl_tex_coord3x_oes = call 2211 3 ∷ call 2212 1 ∷ call 2213 4 ∷ call 2214 1 ∷ queue 2215 8 ∷ []

unfoldable pub from_gl_tex_coord4f : List Sent
from_gl_tex_coord4f = queue 2217 4 ∷ call 2218 15 ∷ call 2219 4 ∷ call 2221 8 ∷ call 2222 2 ∷ []

unfoldable pub from_gl_tex_coord4x_oes : List Sent
from_gl_tex_coord4x_oes =
    call 2229 4
    ∷ call 2230 1
    ∷ call 2231 3
    ∷ call 2232 2
    ∷ call 2233 2
    ∷ call 2234 2
    ∷ call 2235 2
    ∷ call 2236 2
    ∷ call 2237 2
    ∷ call 2238 2
    ∷ call 2239 2
    ∷ []

unfoldable pub from_gl_tex_image3_dmultisample : List Sent
from_gl_tex_image3_dmultisample =
    queue 2265 7
    ∷ call 2266 8
    ∷ call 2267 11
    ∷ call 2268 9
    ∷ call 2272 3
    ∷ call 2273 3
    ∷ call 2274 3
    ∷ call 2275 3
    ∷ queue 2269 3
    ∷ []

unfoldable pub from_gl_tex_parameterx_oes : List Sent
from_gl_tex_parameterx_oes =
    call 2277 3
    ∷ call 2278 3
    ∷ call 2279 2
    ∷ queue 2280 4
    ∷ queue 2281 5
    ∷ queue 2282 6
    ∷ queue 2283 6
    ∷ queue 2284 7
    ∷ call 2285 7
    ∷ call 2286 8
    ∷ call 2287 9
    ∷ call 2288 9
    ∷ call 2289 10
    ∷ call 2290 7
    ∷ []

unfoldable pub from_gl_tex_sub_image4_dsgis : List Sent
from_gl_tex_sub_image4_dsgis =
    call 2297 13
    ∷ call 2298 4
    ∷ call 2299 0
    ∷ call 2300 0
    ∷ queue 2301 3
    ∷ queue_as 2302 4 3
    ∷ call 2303 5
    ∷ call 2304 6
    ∷ call 2305 4
    ∷ call 2306 9
    ∷ call 2307 10
    ∷ call 2308 8
    ∷ call 2309 7
    ∷ call 2310 11
    ∷ call 2311 9
    ∷ call 2312 8
    ∷ call 2313 1
    ∷ call 2314 2
    ∷ call 2315 1
    ∷ call 2316 9
    ∷ call 2323 3
    ∷ call 2324 4
    ∷ call 2325 3
    ∷ call 2326 4
    ∷ call 2317 3
    ∷ call 2318 4
    ∷ call 2319 3
    ∷ call 2320 4
    ∷ call 2321 3
    ∷ call 2322 4
    ∷ call 2327 3
    ∷ call 2328 4
    ∷ call 2329 3
    ∷ call 2330 3
    ∷ call 2331 4
    ∷ call 2332 5
    ∷ call 2333 5
    ∷ []

unfoldable pub from_gl_texture_storage2_dext : List Sent
from_gl_texture_storage2_dext =
    call 2334 6
    ∷ call 2335 6
    ∷ call 2336 7
    ∷ call 2337 6
    ∷ call 2338 7
    ∷ call 2339 7
    ∷ call 2340 8
    ∷ call 2341 7
    ∷ call 2342 8
    ∷ call 2343 9
    ∷ call 2344 9
    ∷ call 2345 10
    ∷ call 2346 8
    ∷ call 2347 7
    ∷ call 2348 8
    ∷ call 2349 9
    ∷ call 2350 10
    ∷ call 2351 11
    ∷ call 2352 12
    ∷ queue 2353 8
    ∷ queue 2354 4
    ∷ call 2355 3
    ∷ call 2356 3
    ∷ call 2357 5
    ∷ call 2358 5
    ∷ []

unfoldable pub from_gl_transform_feedback_varyings_nv : List Sent
from_gl_transform_feedback_varyings_nv =
    call 2361 4 ∷ call 2362 4 ∷ queue 2363 6 ∷ queue 2364 3 ∷ call 2365 3 ∷ queue 2366 3 ∷ []

unfoldable pub plain_l : List Sent
unfolding from_gl_tex_coord2f from_gl_tex_coord2x_oes from_gl_tex_coord3x_oes from_gl_tex_coord4f
    from_gl_tex_coord4x_oes from_gl_tex_image3_dmultisample from_gl_tex_parameterx_oes
    from_gl_tex_sub_image4_dsgis from_gl_texture_storage2_dext
    from_gl_transform_feedback_varyings_nv
plain_l =
    from_gl_tex_coord2f
    ++ (from_gl_tex_coord2x_oes
        ++ (from_gl_tex_coord3x_oes
            ++ (from_gl_tex_coord4f
                ++ (from_gl_tex_coord4x_oes
                    ++ (from_gl_tex_image3_dmultisample
                        ++ (from_gl_tex_parameterx_oes
                            ++ (from_gl_tex_sub_image4_dsgis
                                ++ (from_gl_texture_storage2_dext
                                    ++ (from_gl_transform_feedback_varyings_nv)))))))))
