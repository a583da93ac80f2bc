-- ===== src/ZoneId/Adds.antt =====
-- src/common/zone_id.c, the rows `add(id, name)` of `zone_short_name_map_create`, in the order of the code.
mod Part1
mod Part2
mod Part3
mod Part4
use Prim.Native.Nat.{ℕ}
use Prim.Native.String.{String}
use mathlib.Core.List.{List, ◌++◌}
use Part1.{added_part1}
use Part2.{added_part2}
use Part3.{added_part3}
use Part4.{added_part4}

unfoldable pub added : List (ℕ × String)
unfolding added_part1 added_part2 added_part3 added_part4
added = added_part1 ++ added_part2 ++ added_part3 ++ added_part4
