-- ===== src/ZoneId/Tests.antt =====
-- Two zones, one of them unknown.
use eqp.Common.{◌≡◌, refl, ◌⊎◌}
use eqp.ZoneId.{
  zone_short_name_map_create, zone_id_by_short_name, zone_short_name_by_id, zone_long_name_by_id,
  short_names, long_names,
}
use eqp.ZoneId.Laws.{zone_id-short_name, short_name-zone_id}

zone_id_example : zone_id_by_short_name zone_short_name_map_create (zone_short_name_by_id 54) ≡ 54
unfolding short_names
zone_id_example = zone_id-short_name 54

short_name_example :
    (zone_id_by_short_name zone_short_name_map_create "gfaydark" ≡ 0)
    ⊎ (zone_short_name_by_id (zone_id_by_short_name zone_short_name_map_create "gfaydark")
        ≡ "gfaydark")
short_name_example = short_name-zone_id "gfaydark"

long_name-unknown : zone_long_name_by_id 1000 ≡ "South Qeynos"
unfolding zone_long_name_by_id long_names
long_name-unknown = refl
