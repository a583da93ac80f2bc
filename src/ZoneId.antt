-- ===== src/ZoneId.antt =====
-- src/common/zone_id.c: the numbers of the zones, their short and their long names.
-- A hash table is an association list here; its functions are those of
-- src/common/container/eqp_hash_table.c, of which `set` leaves the value of a key that is there.
mod Adds
mod ShortNames
mod LongNames
pub mod Laws
mod Tests
use Prim.Native.String.{String}
use text.Mathlib.Text
use eqp.Common.{ℕ, Bool, Option, none, some, List, [], ◌∷◌, ◌==◌, if◌then◌else◌}
unfoldable pub use Adds.{added}
unfoldable pub use ShortNames.{short_names}
unfoldable pub use LongNames.{long_names}

-- `ZoneShortNameMap`, the latest entry last.
abbrev pub ZoneShortNameMap : Type 0
ZoneShortNameMap = List (String × ℕ)

-- `hash_table_get_by_cstr`
unfoldable pub get_by_cstr : ZoneShortNameMap → String → Option ℕ
get_by_cstr [] key = none
get_by_cstr ((k, v) ∷ m) key =
    let rest = get_by_cstr m key in if Text.◌==◌ k key then some v else rest

-- `hash_table_set_by_cstr`
unfoldable pub set_by_cstr : ZoneShortNameMap → String → ℕ → ZoneShortNameMap
set_by_cstr [] key value = (key, value) ∷ []
set_by_cstr ((k, v) ∷ m) key value =
    let rest = set_by_cstr m key value in if Text.◌==◌ k key then (k, v) ∷ m else (k, v) ∷ rest

unfoldable pub add_all : List (ℕ × String) → ZoneShortNameMap → ZoneShortNameMap
unfolding set_by_cstr
add_all [] m = m
add_all ((id, name) ∷ rows) m = add_all rows (set_by_cstr m name id)

unfoldable pub zone_short_name_map_create : ZoneShortNameMap
unfolding add_all added
zone_short_name_map_create = add_all added []

unfoldable pub zone_id_by_short_name : ZoneShortNameMap → String → ℕ
unfolding get_by_cstr
zone_id_by_short_name map short_name = elim (get_by_cstr map short_name) [ none ↦ 0 | some id ↦ id ]

-- `switch`: the first case of the number, or the default.
abbrev pub switch : ℕ → List (ℕ × String) → String → String
switch id [] default = default
switch id ((case, name) ∷ cases) default =
    let rest = switch id cases default in if id == case then name else rest

-- The label `default` stands at the first case.
unfoldable pub zone_short_name_by_id : ℕ → String
zone_short_name_by_id id = switch id short_names "qeynos"

unfoldable pub zone_long_name_by_id : ℕ → String
zone_long_name_by_id id = switch id long_names "South Qeynos"
