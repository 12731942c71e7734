-- ===== src/Mesa/Guest/Plain/PartJ.antt =====
-- wrapgl32.c: runs of wrappers that only hand their arguments on, glProgramUniform2i to glRenderGpuMaskNV.
-- Each row has the number that mglfunci.h gives the function, and the count of arguments.
use qemu_win.Prelude.{List, [], ◌∷◌, ◌++◌}
use qemu_win.Mesa.Guest.Ops.{Sent, queue, call}

unfoldable pub from_gl_program_uniform2i : List Sent
from_gl_program_uniform2i =
    call 1800 4
    ∷ call 1805 4
    ∷ call 1806 4
    ∷ call 1807 4
    ∷ call 1809 6
    ∷ call 1810 6
    ∷ call 1811 4
    ∷ call 1812 4
    ∷ call 1808 4
    ∷ call 1813 4
    ∷ call 1814 4
    ∷ call 1815 4
    ∷ call 1816 8
    ∷ call 1817 8
    ∷ call 1818 4
    ∷ call 1819 4
    ∷ call 1820 5
    ∷ call 1821 5
    ∷ call 1822 4
    ∷ call 1823 4
    ∷ call 1825 8
    ∷ call 1826 8
    ∷ call 1827 4
    ∷ call 1828 4
    ∷ call 1824 5
    ∷ call 1829 5
    ∷ call 1830 4
    ∷ call 1831 4
    ∷ call 1833 8
    ∷ call 1834 8
    ∷ call 1835 4
    ∷ call 1836 4
    ∷ call 1832 5
    ∷ call 1837 5
    ∷ call 1838 4
    ∷ call 1839 4
    ∷ call 1840 10
    ∷ []

unfoldable pub from_gl_program_uniform4d_ext : List Sent
from_gl_program_uniform4d_ext =
    call 1841 10
    ∷ call 1842 4
    ∷ call 1843 4
    ∷ call 1844 6
    ∷ call 1845 6
    ∷ call 1846 4
    ∷ call 1847 4
    ∷ call 1849 10
    ∷ call 1850 10
    ∷ call 1851 4
    ∷ call 1852 4
    ∷ call 1848 6
    ∷ call 1853 6
    ∷ call 1854 4
    ∷ call 1855 4
    ∷ call 1857 10
    ∷ call 1858 10
    ∷ call 1859 4
    ∷ call 1860 4
    ∷ call 1856 6
    ∷ call 1861 6
    ∷ call 1862 4
    ∷ call 1863 4
    ∷ call 1864 4
    ∷ call 1865 4
    ∷ call 1866 4
    ∷ call 1867 4
    ∷ call 1868 5
    ∷ call 1869 5
    ∷ call 1870 5
    ∷ call 1871 5
    ∷ call 1872 5
    ∷ call 1873 5
    ∷ call 1874 5
    ∷ call 1875 5
    ∷ call 1876 5
    ∷ call 1877 5
    ∷ []

unfoldable pub from_gl_program_uniform_matrix2x4fv : List Sent
from_gl_program_uniform_matrix2x4fv =
    call 1878 5
    ∷ call 1879 5
    ∷ call 1880 5
    ∷ call 1881 5
    ∷ call 1882 5
    ∷ call 1883 5
    ∷ call 1884 5
    ∷ call 1885 5
    ∷ call 1886 5
    ∷ call 1887 5
    ∷ call 1888 5
    ∷ call 1889 5
    ∷ call 1890 5
    ∷ call 1891 5
    ∷ call 1892 5
    ∷ call 1893 5
    ∷ call 1894 5
    ∷ call 1895 5
    ∷ call 1896 5
    ∷ call 1897 5
    ∷ call 1898 5
    ∷ call 1899 5
    ∷ call 1900 5
    ∷ call 1901 5
    ∷ call 1902 5
    ∷ call 1903 5
    ∷ call 1904 4
    ∷ call 1905 4
    ∷ call 1906 2
    ∷ queue 1907 1
    ∷ queue 1908 1
    ∷ queue 1909 1
    ∷ queue 1910 1
    ∷ queue 1911 1
    ∷ call 1912 4
    ∷ call 1913 2
    ∷ queue 1914 0
    ∷ []

unfoldable pub from_gl_push_name : List Sent
from_gl_push_name =
    queue 1915 1
    ∷ call 1916 2
    ∷ call 1917 2
    ∷ call 1918 4
    ∷ call 1919 4
    ∷ call 1920 2
    ∷ queue 1921 4
    ∷ []

unfoldable pub from_gl_raster_pos4x_oes : List Sent
from_gl_raster_pos4x_oes = call 1949 4 ∷ call 1950 1 ∷ call 1951 2 ∷ queue 1952 1 ∷ call 1953 1 ∷ []

unfoldable pub from_gl_rectx_oes : List Sent
from_gl_rectx_oes =
    call 1965 4 ∷ call 1966 2 ∷ call 1967 1 ∷ call 1968 3 ∷ call 1969 0 ∷ call 1976 1 ∷ []

unfoldable pub plain_j : List Sent
unfolding from_gl_program_uniform2i from_gl_program_uniform4d_ext
    from_gl_program_uniform_matrix2x4fv from_gl_push_name from_gl_raster_pos4x_oes from_gl_rectx_oes
plain_j =
    from_gl_program_uniform2i
    ++ (from_gl_program_uniform4d_ext
        ++ (from_gl_program_uniform_matrix2x4fv
            ++ (from_gl_push_name ++ (from_gl_raster_pos4x_oes ++ (from_gl_rectx_oes)))))
