-- ===== src/Mesa/Guest/Plain/PartG.antt =====
-- wrapgl32.c: runs of wrappers that only hand their arguments on, glIndexxOES to glMinmaxEXT.
-- Each row has the number that mglfunci.h gives the function, and the count of arguments.
use qemu_win.Prelude.{List, [], ◌∷◌, ◌++◌}
use qemu_win.Mesa.Guest.Ops.{Sent, queue, call}

unfoldable pub from_gl_indexx_oes : List Sent
from_gl_indexx_oes =
    call 1189 1 ∷ call 1190 1 ∷ queue 1191 0 ∷ call 1192 3 ∷ call 1193 2 ∷ call 1194 2 ∷ []

unfoldable pub from_gl_interpolate_paths_nv : List Sent
from_gl_interpolate_paths_nv =
    call 1196 4
    ∷ call 1197 1
    ∷ call 1198 3
    ∷ call 1199 3
    ∷ call 1200 3
    ∷ call 1201 7
    ∷ call 1202 7
    ∷ call 1203 2
    ∷ call 1204 8
    ∷ call 1205 1
    ∷ []

unfoldable pub from_gl_is_memory_object_ext : List Sent
from_gl_is_memory_object_ext =
    call 1220 1 ∷ call 1221 2 ∷ call 1222 1 ∷ call 1223 2 ∷ call 1224 1 ∷ []

unfoldable pub from_gl_is_texture_handle_resident_arb : List Sent
from_gl_is_texture_handle_resident_arb =
    call 1244 2 ∷ call 1245 2 ∷ call 1246 1 ∷ call 1247 1 ∷ call 1248 2 ∷ []

unfoldable pub from_gl_is_vertex_array_apple : List Sent
from_gl_is_vertex_array_apple =
    call 1250 1
    ∷ call 1251 2
    ∷ call 1253 17
    ∷ call 1254 0
    ∷ call 1255 5
    ∷ call 1252 4
    ∷ call 1256 2
    ∷ queue 1261 2
    ∷ []

unfoldable pub from_gl_lightx_oes : List Sent
from_gl_lightx_oes =
    call 1267 3
    ∷ call 1268 3
    ∷ queue 1269 2
    ∷ queue 1270 1
    ∷ call 1271 1
    ∷ queue 1272 1
    ∷ queue 1273 1
    ∷ queue 1274 1
    ∷ call 1275 7
    ∷ call 1276 3
    ∷ call 1277 3
    ∷ call 1278 3
    ∷ call 1279 3
    ∷ queue 1280 0
    ∷ call 1281 1
    ∷ []

unfoldable pub from_gl_load_transpose_matrixd : List Sent
from_gl_load_transpose_matrixd =
    call 1287 1 ∷ call 1288 1 ∷ call 1289 1 ∷ call 1290 1 ∷ call 1291 1 ∷ []

unfoldable pub from_gl_logic_op : List Sent
from_gl_logic_op =
    queue 1293 1
    ∷ call 1294 1
    ∷ call 1295 2
    ∷ call 1296 2
    ∷ call 1297 2
    ∷ call 1298 3
    ∷ call 1299 3
    ∷ call 1300 1
    ∷ call 1301 2
    ∷ call 1302 2
    ∷ call 1303 2
    ∷ call 1304 2
    ∷ call 1305 2
    ∷ []

unfoldable pub from_gl_map_control_points_nv : List Sent
from_gl_map_control_points_nv =
    call 1315 9
    ∷ queue 1316 5
    ∷ queue 1317 3
    ∷ call 1318 3
    ∷ queue 1319 10
    ∷ queue 1320 6
    ∷ call 1321 5
    ∷ []

unfoldable pub from_gl_map_object_buffer_ati : List Sent
from_gl_map_object_buffer_ati =
    call 1326 1
    ∷ call 1327 3
    ∷ call 1328 3
    ∷ call 1329 5
    ∷ call 1330 9
    ∷ call 1331 7
    ∷ call 1332 15
    ∷ call 1333 11
    ∷ queue 1334 3
    ∷ []

unfoldable pub from_gl_materialx_oes : List Sent
from_gl_materialx_oes =
    call 1338 3
    ∷ call 1339 3
    ∷ call 1340 13
    ∷ call 1341 4
    ∷ call 1342 2
    ∷ call 1343 2
    ∷ call 1344 2
    ∷ call 1345 2
    ∷ call 1346 2
    ∷ call 1349 1
    ∷ call 1350 2
    ∷ call 1351 2
    ∷ call 1352 2
    ∷ call 1347 2
    ∷ call 1348 2
    ∷ queue 1353 1
    ∷ call 1354 2
    ∷ call 1355 2
    ∷ call 1358 2
    ∷ call 1359 2
    ∷ call 1360 2
    ∷ call 1356 2
    ∷ call 1357 2
    ∷ call 1361 13
    ∷ call 1362 1
    ∷ call 1363 1
    ∷ call 1364 9
    ∷ call 1365 5
    ∷ call 1366 7
    ∷ call 1367 4
    ∷ call 1368 7
    ∷ call 1369 4
    ∷ call 1370 1
    ∷ call 1371 1
    ∷ call 1372 1
    ∷ call 1373 1
    ∷ call 1374 1
    ∷ []

unfoldable pub from_gl_memory_object_parameteriv_ext : List Sent
from_gl_memory_object_parameteriv_ext =
    call 1375 3 ∷ call 1378 1 ∷ call 1379 1 ∷ call 1376 3 ∷ call 1377 3 ∷ []

unfoldable pub plain_g : List Sent
unfolding from_gl_indexx_oes from_gl_interpolate_paths_nv from_gl_is_memory_object_ext
    from_gl_is_texture_handle_resident_arb from_gl_is_vertex_array_apple from_gl_lightx_oes
    from_gl_load_transpose_matrixd from_gl_logic_op from_gl_map_control_points_nv
    from_gl_map_object_buffer_ati from_gl_materialx_oes from_gl_memory_object_parameteriv_ext
plain_g =
    from_gl_indexx_oes
    ++ (from_gl_interpolate_paths_nv
        ++ (from_gl_is_memory_object_ext
            ++ (from_gl_is_texture_handle_resident_arb
                ++ (from_gl_is_vertex_array_apple
                    ++ (from_gl_lightx_oes
                        ++ (from_gl_load_transpose_matrixd
                            ++ (from_gl_logic_op
                                ++ (from_gl_map_control_points_nv
                                    ++ (from_gl_map_object_buffer_ati
                                        ++ (from_gl_materialx_oes
                                            ++ (from_gl_memory_object_parameteriv_ext)))))))))))
