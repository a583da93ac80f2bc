-- ===== src/Packets/Profile/Middle.antt =====
-- Spells, the place, coins, skills and settings of a character.
use eqp.Common.{ℕ, List, [], ◌∷◌, ◌==◌, leb, if◌then◌else◌}
use eqp.Packets.Plain.{uint8, uint16, uint32, skip, chars, buffer, fill}
use eqp.Packets.Parts.{Part, plain, fill_ahead, spells}
use eqp.Packets.Struct.{sizeof_field}
use eqp.Packets.Zone.Mobs.{of_bool}
use eqp.Packets.Profile.Head.{Profile, Groups, gap, player_profile, each_from}

-- With no spells known the loop does nothing.
unfoldable pub spell_groups : Profile → Groups
spell_groups p =
    (
      "spellbook",
      fill_ahead 0xff (sizeof_field player_profile "spellbook")
          ∷ spells 256 p.known_spells
          ∷ gap "spellbook",
    )
    ∷ (
      "memmedSpellIds",
      each_from 8 0 (λ i.
          plain (uint16 (if p.memorized_spell i == 0 then 0xffff else p.memorized_spell i)) ∷ []),
    )
    ∷ ("unknownD", plain (skip 2) ∷ [])
    ∷ ("y", plain (uint32 p.place.y) ∷ [])
    ∷ ("x", plain (uint32 p.place.x) ∷ [])
    ∷ ("z", plain (uint32 p.place.z) ∷ [])
    ∷ ("heading", plain (uint32 p.place.heading) ∷ [])
    ∷ (
      "zoneShortName",
      plain (chars (sizeof_field player_profile "zoneShortName") p.place.zone_short_name) ∷ [],
    )
    ∷ ("unknownEDefault100", plain (uint32 100) ∷ [])
    ∷ ("coins", plain (buffer p.coins) ∷ [])
    ∷ ("coinsBank", plain (buffer p.coins_bank) ∷ [])
    ∷ ("coinsCursor", plain (buffer p.coins_cursor) ∷ [])
    ∷ ("skills", each_from 74 0 (λ i. plain (uint8 (p.skill i)) ∷ []))
    ∷ []

-- `unknownF`
abbrev magic : List Part
magic =
    plain (fill 0xff 27)
    ∷ plain (skip 1)
    ∷ plain (uint32 0xffffffff)
    ∷ plain (skip 1)
    ∷ plain (fill 0xff 3)
    ∷ plain (skip 1)
    ∷ plain (uint8 0xff)
    ∷ plain (skip 1)
    ∷ plain (fill 0xff 12)
    ∷ plain (skip 2)
    ∷ plain (uint8 0xff)
    ∷ plain (skip 2)
    ∷ plain (uint8 0x80)
    ∷ plain (uint8 0xbf)
    ∷ plain (skip 2)
    ∷ plain (uint16 0x4040)
    ∷ plain (skip 2)
    ∷ plain (uint8 0x20)
    ∷ plain (uint8 0x40)
    ∷ plain (skip 2)
    ∷ plain (uint8 0xb0)
    ∷ plain (uint8 0x40)
    ∷ plain (skip 92)
    ∷ []

unfoldable pub setting_groups : ℕ → Profile → Groups
setting_groups time p =
    ("unknownF", magic)
    ∷ ("autoSplit", plain (uint32 (of_bool p.is_auto_split_enabled)) ∷ [])
    ∷ ("pvpEnabled", plain (uint32 (of_bool p.is_pvp)) ∷ [])
    ∷ ("unknownG", gap "unknownG")
    ∷ ("isGM", plain (uint32 (of_bool p.is_gm)) ∷ [])
    ∷ ("unknownH", gap "unknownH")
    ∷ ("disciplinesReady", plain (uint32 (of_bool (leb p.discipline_timestamp time))) ∷ [])
    ∷ ("unknownI", gap "unknownI")
    ∷ ("hunger", plain (uint32 p.hunger_level) ∷ [])
    ∷ ("thirst", plain (uint32 p.thirst_level) ∷ [])
    ∷ ("unknownJ", gap "unknownJ")
    ∷ (
      "bindZoneShortName",
      each_from 5 0 (λ i. plain (chars 20 (p.bind_point i).zone_short_name) ∷ []),
    )
    ∷ []
