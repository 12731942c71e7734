-- ===== src/Mesa/Guest/Plain/PartH.antt =====
-- wrapgl32.c: runs of wrappers that only hand their arguments on, glMultMatrixxOES to glNormal3b.
-- Each row has the number that mglfunci.h gives the function, and the count of arguments.
use qemu_win.Prelude.{List, [], ◌∷◌, ◌++◌}
use qemu_win.Mesa.Guest.Ops.{Sent, queue, call}

unfoldable pub from_gl_mult_matrixx_oes : List Sent
from_gl_mult_matrixx_oes =
    call 1537 1
    ∷ call 1538 1
    ∷ call 1539 1
    ∷ call 1540 1
    ∷ call 1541 1
    ∷ call 1542 1
    ∷ call 1391 4
    ∷ call 1392 4
    ∷ call 1393 4
    ∷ call 1394 4
    ∷ call 1395 6
    ∷ call 1396 5
    ∷ call 1397 5
    ∷ call 1398 5
    ∷ call 1399 4
    ∷ call 1400 5
    ∷ call 1401 6
    ∷ call 1402 5
    ∷ call 1403 5
    ∷ call 1404 5
    ∷ call 1405 7
    ∷ call 1406 6
    ∷ call 1407 6
    ∷ call 1408 6
    ∷ call 1409 4
    ∷ call 1410 3
    ∷ call 1411 6
    ∷ call 1412 5
    ∷ call 1413 6
    ∷ call 1414 4
    ∷ call 1415 2
    ∷ call 1416 2
    ∷ queue 1417 3
    ∷ queue 1418 3
    ∷ []

unfoldable pub from_gl_multi_tex_coord1x_oes : List Sent
from_gl_multi_tex_coord1x_oes =
    call 1435 2 ∷ call 1436 2 ∷ call 1437 3 ∷ call 1438 2 ∷ queue 1439 5 ∷ queue 1440 5 ∷ []

unfoldable pub from_gl_multi_tex_coord2x_oes : List Sent
from_gl_multi_tex_coord2x_oes =
    call 1457 3 ∷ call 1458 2 ∷ call 1459 4 ∷ call 1460 2 ∷ queue 1461 7 ∷ queue 1462 7 ∷ []

unfoldable pub from_gl_multi_tex_coord3x_oes : List Sent
from_gl_multi_tex_coord3x_oes =
    call 1479 4 ∷ call 1480 2 ∷ call 1481 5 ∷ call 1482 2 ∷ queue 1483 9 ∷ queue 1484 9 ∷ []

unfoldable pub from_gl_multi_tex_coord4x_oes : List Sent
from_gl_multi_tex_coord4x_oes =
    call 1501 5
    ∷ call 1502 2
    ∷ call 1503 3
    ∷ call 1504 3
    ∷ call 1505 3
    ∷ call 1506 3
    ∷ call 1507 3
    ∷ call 1508 3
    ∷ call 1509 3
    ∷ call 1510 3
    ∷ call 1511 5
    ∷ call 1512 4
    ∷ call 1513 4
    ∷ call 1514 4
    ∷ call 1515 4
    ∷ call 1516 5
    ∷ call 1517 4
    ∷ call 1518 4
    ∷ call 1519 4
    ∷ call 1520 4
    ∷ call 1521 4
    ∷ call 1522 9
    ∷ call 1523 10
    ∷ call 1524 11
    ∷ call 1528 4
    ∷ call 1529 4
    ∷ call 1525 4
    ∷ call 1526 4
    ∷ call 1527 4
    ∷ call 1530 4
    ∷ call 1531 3
    ∷ call 1532 8
    ∷ call 1533 10
    ∷ call 1534 12
    ∷ call 1380 0
    ∷ call 1381 12
    ∷ call 1382 5
    ∷ []

unfoldable pub from_gl_multicast_copy_buffer_sub_data_nv : List Sent
from_gl_multicast_copy_buffer_sub_data_nv =
    call 1383 7
    ∷ call 1384 17
    ∷ call 1385 5
    ∷ call 1386 4
    ∷ call 1387 4
    ∷ call 1388 4
    ∷ call 1389 4
    ∷ call 1390 2
    ∷ call 1543 4
    ∷ []

unfoldable pub from_gl_named_copy_buffer_sub_data_ext : List Sent
from_gl_named_copy_buffer_sub_data_ext =
    call 1554 5
    ∷ call 1555 2
    ∷ call 1556 3
    ∷ queue 1557 3
    ∷ queue 1558 3
    ∷ call 1559 2
    ∷ call 1560 4
    ∷ call 1561 4
    ∷ call 1562 4
    ∷ call 1563 4
    ∷ call 1564 4
    ∷ call 1566 5
    ∷ call 1567 5
    ∷ call 1568 6
    ∷ call 1565 4
    ∷ call 1569 4
    ∷ call 1570 5
    ∷ call 1571 5
    ∷ call 1572 5
    ∷ call 1573 11
    ∷ call 1574 4
    ∷ call 1575 7
    ∷ call 1576 4
    ∷ call 1577 7
    ∷ call 1578 4
    ∷ call 1579 7
    ∷ call 1580 4
    ∷ call 1581 5
    ∷ call 1582 5
    ∷ call 1583 5
    ∷ call 1584 5
    ∷ call 1585 4
    ∷ call 1586 4
    ∷ call 1587 5
    ∷ call 1588 6
    ∷ call 1589 6
    ∷ call 1590 5
    ∷ []

unfoldable pub from_gl_named_string_arb : List Sent
from_gl_named_string_arb = call 1591 5 ∷ queue 1592 2 ∷ call 1593 3 ∷ queue 1594 3 ∷ []

unfoldable pub plain_h : List Sent
unfolding from_gl_mult_matrixx_oes from_gl_multi_tex_coord1x_oes from_gl_multi_tex_coord2x_oes
    from_gl_multi_tex_coord3x_oes from_gl_multi_tex_coord4x_oes
    from_gl_multicast_copy_buffer_sub_data_nv from_gl_named_copy_buffer_sub_data_ext
    from_gl_named_string_arb
plain_h =
    from_gl_mult_matrixx_oes
    ++ (from_gl_multi_tex_coord1x_oes
        ++ (from_gl_multi_tex_coord2x_oes
            ++ (from_gl_multi_tex_coord3x_oes
                ++ (from_gl_multi_tex_coord4x_oes
                    ++ (from_gl_multicast_copy_buffer_sub_data_nv
                        ++ (from_gl_named_copy_buffer_sub_data_ext
                            ++ (from_gl_named_string_arb)))))))
