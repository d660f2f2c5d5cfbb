-- ===== src/StringOps/Tests.antt =====
-- Calls of string.c on a small memory, and the theorems at them.
use compiling_to_assembly.Prelude.{
  ◌+◌, ◌-◌, ◌≡◌, ◌↔◌, refl, some, arith, ◌==◌, if◌then◌else◌, pos, negsuc,
}
use compiling_to_assembly.StringOps.{
  Memory, stosl, store_word, splat, stosb, memset, copy_down, memmove, memcmp, strncmp, strlen,
}
use compiling_to_assembly.StringOps.Copy.{within, memmove_lem}
use compiling_to_assembly.StringOps.Compare.{SameString, strncmp_iff}
use compiling_to_assembly.StringOps.Strings.{has_nul, strlen_lem}

-- "abc" at 100, and 9s elsewhere
abbrev text : Memory
text a =
    if a == 100
    then 97
    else if a == 101
    then 98
    else if a == 102
    then 99
    else if a == 103
    then 0
    else 9

-- An overlapping move up by one, and comparisons of "abc" with itself and with "bc".
calls :
    (memmove text 101 100 3 103 ≡ 99)
    × (strncmp text 100 100 9 ≡ pos 0)
    × (strncmp text 100 101 9 ≡ negsuc 0)
    × (memcmp text 100 101 2 ≡ negsuc 0)
    × (memset text 8 0x101 8 11 ≡ 1)
    × (memset text 9 0x102 3 11 ≡ 2)
unfolding memmove copy_down strncmp memcmp memset stosl store_word splat stosb
calls = (refl, refl, refl, refl, refl, refl)

memmove_lem_example :
    memmove text 101 100 3 102 ≡ (if within 101 3 102 then text (100 + (102 - 101)) else text 102)
memmove_lem_example = memmove_lem text 101 100 3 102

strncmp_iff_example : (strncmp text 100 100 9 ≡ pos 0) ↔ SameString text 100 100 9
strncmp_iff_example = strncmp_iff text 100 100 9

strlen_lem_example : strlen 10 text 100 ≡ some 3
unfolding has_nul
strlen_lem_example = strlen_lem 10 text 100 3 (omega arith) refl refl
