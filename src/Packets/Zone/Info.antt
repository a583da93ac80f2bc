-- ===== src/Packets/Zone/Info.antt =====
-- `client_trilogy_make_op_zone_info`.
use eqp.Common.{ℕ, List, [], ◌∷◌}
use eqp.Aligned.Defs.{Outcome}
use eqp.Packets.Plain.{Plain, uint8, uint16, uint32, skip, chars, fill, write_plains}
use eqp.Packets.Struct.{Steps, sizeof, sizeof_field, writes, zero_all}
use eqp.Packets.Structs.Zone.{zone_info}

-- `struct FogStats`
pub record FogStats : Type 0 where
  pub red : ℕ
  pub green : ℕ
  pub blue : ℕ
  pub min_clipping_distance : ℕ
  pub max_clipping_distance : ℕ

-- `struct Loc`
pub record Loc : Type 0 where
  pub x : ℕ
  pub y : ℕ
  pub z : ℕ
  pub heading : ℕ

-- Of `struct Zone`; the four entries of `fogStats` by their index.
pub record Zone : Type 0 where
  pub short_name : List ℕ
  pub long_name : List ℕ
  pub zone_type : ℕ
  pub fog_stats : ℕ → FogStats
  pub gravity : ℕ
  pub sky_type : ℕ
  pub safe_spot : Loc
  pub min_z : ℕ
  pub min_clipping_distance : ℕ
  pub max_clipping_distance : ℕ

abbrev four : (ℕ → Plain) → List Plain
four f = f 0 ∷ f 1 ∷ f 2 ∷ f 3 ∷ []

-- The constant 0.75f is 0x3f400000.
unfoldable pub zone_info_steps : Zone → Steps
zone_info_steps z =
    ("characterName", skip (sizeof_field zone_info "characterName") ∷ [])
    ∷ ("zoneShortName", chars (sizeof_field zone_info "zoneShortName") z.short_name ∷ [])
    ∷ ("zoneLongName", chars (sizeof_field zone_info "zoneLongName") z.long_name ∷ [])
    ∷ ("zoneType", uint8 z.zone_type ∷ [])
    ∷ ("fogRed", four (λ i. uint8 (z.fog_stats i).red))
    ∷ ("fogGreen", four (λ i. uint8 (z.fog_stats i).green))
    ∷ ("fogBlue", four (λ i. uint8 (z.fog_stats i).blue))
    ∷ ("unknownA", skip (sizeof_field zone_info "unknownA") ∷ [])
    ∷ ("fogMinClippingDistance", four (λ i. uint32 (z.fog_stats i).min_clipping_distance))
    ∷ ("fogMaxClippingDistance", four (λ i. uint32 (z.fog_stats i).max_clipping_distance))
    ∷ ("gravity", uint32 z.gravity ∷ [])
    ∷ (
      "unknownB",
      uint8 0x20
          ∷ fill 0x0a 4
          ∷ uint8 0x18
          ∷ uint8 0x06
          ∷ uint8 0x02
          ∷ uint8 0x0a
          ∷ skip 8
          ∷ fill 0xff 32
          ∷ skip 1
          ∷ [],
    )
    ∷ ("skyType", uint16 z.sky_type ∷ [])
    ∷ ("unknownC", uint8 0x04 ∷ skip 1 ∷ uint8 0x02 ∷ skip 5 ∷ [])
    ∷ ("unknownD", uint32 0x3f400000 ∷ [])
    ∷ ("safeSpotX", uint32 z.safe_spot.x ∷ [])
    ∷ ("safeSpotY", uint32 z.safe_spot.y ∷ [])
    ∷ ("safeSpotZ", uint32 z.safe_spot.z ∷ [])
    ∷ ("safeSpotHeading", uint32 z.safe_spot.heading ∷ [])
    ∷ ("minZ", uint32 z.min_z ∷ [])
    ∷ ("minClippingDistance", uint32 z.min_clipping_distance ∷ [])
    ∷ ("maxClippingDistance", uint32 z.max_clipping_distance ∷ [])
    ∷ []

unfoldable pub make_op_zone_info : Zone → List ℕ → Outcome (Unit {0})
make_op_zone_info z fresh =
    write_plains (writes (zone_info_steps z)) (zero_all (sizeof zone_info) fresh)
