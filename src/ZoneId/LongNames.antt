-- ===== src/ZoneId/LongNames.antt =====
-- src/common/zone_id.c, the cases of `zone_long_name_by_id`, in the order of the code.
mod Part1
mod Part2
mod Part3
mod Part4
use Prim.Native.Nat.{ℕ}
use Prim.Native.String.{String}
use mathlib.Core.List.{List, ◌++◌}
use Part1.{long_names_part1}
use Part2.{long_names_part2}
use Part3.{long_names_part3}
use Part4.{long_names_part4}

unfoldable pub long_names : List (ℕ × String)
unfolding long_names_part1 long_names_part2 long_names_part3 long_names_part4
long_names = long_names_part1 ++ long_names_part2 ++ long_names_part3 ++ long_names_part4
