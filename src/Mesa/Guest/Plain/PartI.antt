-- ===== src/Mesa/Guest/Plain/PartI.antt =====
-- wrapgl32.c: runs of wrappers that only hand their arguments on, glNormal3xOES to glProgramUniform2i64vNV.
-- Each row has the number that mglfunci.h gives the function, and the count of arguments.
use qemu_win.Prelude.{List, [], ◌∷◌, ◌++◌}
use qemu_win.Mesa.Guest.Ops.{Sent, queue, call}

unfoldable pub from_gl_normal3x_oes : List Sent
from_gl_normal3x_oes = call 1608 3 ∷ call 1609 1 ∷ call 1610 2 ∷ call 1611 2 ∷ call 1612 2 ∷ []

unfoldable pub from_gl_normal_pointer_list_ibm : List Sent
from_gl_normal_pointer_list_ibm =
    call 1615 4
    ∷ call 1616 2
    ∷ call 1617 4
    ∷ call 1618 2
    ∷ call 1619 7
    ∷ call 1620 2
    ∷ call 1621 4
    ∷ call 1622 2
    ∷ call 1623 4
    ∷ call 1624 2
    ∷ call 1625 4
    ∷ call 1626 2
    ∷ call 1627 4
    ∷ call 1628 3
    ∷ call 1629 3
    ∷ call 1630 3
    ∷ queue 1631 12
    ∷ call 1632 6
    ∷ call 1633 6
    ∷ call 1684 2
    ∷ call 1685 2
    ∷ queue 1634 3
    ∷ queue 1635 1
    ∷ call 1636 1
    ∷ call 1637 2
    ∷ call 1638 2
    ∷ call 1639 4
    ∷ call 1640 6
    ∷ call 1641 4
    ∷ call 1642 1
    ∷ call 1643 3
    ∷ call 1644 1
    ∷ call 1645 8
    ∷ call 1646 6
    ∷ call 1647 9
    ∷ call 1648 10
    ∷ call 1649 9
    ∷ []

unfoldable pub from_gl_path_parameterf_nv : List Sent
from_gl_path_parameterf_nv =
    call 1650 3
    ∷ call 1651 3
    ∷ call 1652 3
    ∷ call 1653 3
    ∷ call 1654 2
    ∷ call 1655 3
    ∷ call 1656 4
    ∷ call 1657 8
    ∷ call 1658 5
    ∷ call 1659 4
    ∷ queue 1660 0
    ∷ call 1661 0
    ∷ call 1662 3
    ∷ []

unfoldable pub from_gl_pixel_storex : List Sent
from_gl_pixel_storex =
    call 1669 2
    ∷ call 1670 2
    ∷ call 1671 2
    ∷ call 1672 2
    ∷ call 1673 2
    ∷ call 1674 1
    ∷ queue 1675 2
    ∷ queue 1676 2
    ∷ call 1677 2
    ∷ call 1678 3
    ∷ call 1679 3
    ∷ call 1680 3
    ∷ call 1681 3
    ∷ queue 1682 2
    ∷ call 1683 2
    ∷ call 1686 8
    ∷ queue 1687 2
    ∷ queue 1688 2
    ∷ queue 1689 2
    ∷ call 1690 2
    ∷ []

unfoldable pub from_gl_point_parameteriv_nv : List Sent
from_gl_point_parameteriv_nv =
    call 1698 2
    ∷ call 1699 2
    ∷ queue 1700 1
    ∷ call 1701 1
    ∷ call 1702 1
    ∷ call 1703 1
    ∷ queue 1704 2
    ∷ queue 1705 2
    ∷ queue 1706 3
    ∷ queue 1707 3
    ∷ queue 1708 2
    ∷ call 1709 2
    ∷ []

unfoldable pub from_gl_pop_attrib : List Sent
from_gl_pop_attrib =
    queue 1711 0
    ∷ queue 1712 0
    ∷ call 1713 0
    ∷ call 1714 0
    ∷ queue 1715 0
    ∷ queue 1716 0
    ∷ call 1717 14
    ∷ call 1718 12
    ∷ call 1719 8
    ∷ call 1720 1
    ∷ call 1721 1
    ∷ call 1722 0
    ∷ []

unfoldable pub from_gl_prioritize_texturesx_oes : List Sent
from_gl_prioritize_texturesx_oes =
    call 1725 3 ∷ call 1726 4 ∷ call 1728 5 ∷ call 1729 5 ∷ call 1727 5 ∷ queue 1730 10 ∷ []

unfoldable pub from_gl_program_subroutine_parametersuiv_nv : List Sent
from_gl_program_subroutine_parametersuiv_nv =
    call 1767 3
    ∷ call 1768 4
    ∷ call 1769 4
    ∷ call 1770 4
    ∷ call 1771 4
    ∷ call 1772 3
    ∷ call 1773 3
    ∷ call 1774 4
    ∷ call 1775 4
    ∷ call 1777 4
    ∷ call 1778 4
    ∷ call 1779 4
    ∷ call 1780 4
    ∷ call 1776 3
    ∷ call 1781 3
    ∷ call 1782 4
    ∷ call 1783 4
    ∷ call 1785 4
    ∷ call 1786 4
    ∷ call 1787 4
    ∷ call 1788 4
    ∷ call 1784 3
    ∷ call 1789 3
    ∷ call 1790 4
    ∷ call 1791 4
    ∷ call 1792 6
    ∷ call 1793 6
    ∷ call 1794 4
    ∷ call 1795 4
    ∷ call 1796 4
    ∷ call 1797 4
    ∷ call 1798 4
    ∷ call 1799 4
    ∷ call 1801 6
    ∷ call 1802 6
    ∷ call 1803 4
    ∷ call 1804 4
    ∷ []

unfoldable pub plain_i : List Sent
unfolding from_gl_normal3x_oes from_gl_normal_pointer_list_ibm from_gl_path_parameterf_nv
    from_gl_pixel_storex from_gl_point_parameteriv_nv from_gl_pop_attrib
    from_gl_prioritize_texturesx_oes from_gl_program_subroutine_parametersuiv_nv
plain_i =
    from_gl_normal3x_oes
    ++ (from_gl_normal_pointer_list_ibm
        ++ (from_gl_path_parameterf_nv
            ++ (from_gl_pixel_storex
                ++ (from_gl_point_parameteriv_nv
                    ++ (from_gl_pop_attrib
                        ++ (from_gl_prioritize_texturesx_oes
                            ++ (from_gl_program_subroutine_parametersuiv_nv)))))))
