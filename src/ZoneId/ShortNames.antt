-- ===== src/ZoneId/ShortNames.antt =====
-- src/common/zone_id.c, the cases of `zone_short_name_by_id`, in the order of the code.
mod Part1
mod Part2
mod Part3
mod Part4
use Prim.Native.Nat.{ℕ}
use Prim.Native.String.{String}
use mathlib.Core.List.{List, ◌++◌}
use Part1.{short_names_part1}
use Part2.{short_names_part2}
use Part3.{short_names_part3}
use Part4.{short_names_part4}

unfoldable pub short_names : List (ℕ × String)
unfolding short_names_part1 short_names_part2 short_names_part3 short_names_part4
short_names = short_names_part1 ++ short_names_part2 ++ short_names_part3 ++ short_names_part4
