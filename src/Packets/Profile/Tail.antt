-- ===== src/Packets/Profile/Tail.antt =====
-- The last fields of a player's profile, and the whole.
use eqp.Common.{ℕ, ◌-◌, List, [], ◌∷◌, ◌++◌, ◌==◌, ltb, if◌then◌else◌}
use eqp.Aligned.Defs.{Outcome}
use eqp.Packets.Plain.{uint8, uint16, uint32, skip, fill}
use eqp.Packets.Parts.{Part, plain, write_parts}
use eqp.Packets.Struct.{sizeof, zero_all}
use eqp.Packets.Profile.Head.{
  Profile, Groups, gap, player_profile, each_from, head_groups, parts_of,
}
use eqp.Packets.Profile.Items.{item_groups}
use eqp.Packets.Profile.Middle.{spell_groups, setting_groups}
use eqp.Packets.Profile.Bank.{bank_groups, bind_groups, bank_id_groups}

unfoldable pub tail_groups : ℕ → Profile → Groups
tail_groups time p =
    ("deity", plain (uint16 p.deity) ∷ [])
    ∷ ("guildId", plain (uint16 (if p.guild_id == 0 then 0xffff else p.guild_id)) ∷ [])
    ∷ ("unixTimeB", plain (uint32 time) ∷ [])
    ∷ ("unknownQ", gap "unknownQ")
    ∷ ("unknownRDefault7f7f", plain (uint16 0x7f7f) ∷ [])
    ∷ ("fatiguePercent", plain (uint8 0) ∷ [])
    ∷ ("unknownS", gap "unknownS")
    ∷ ("unknownTDefault1", plain (uint8 1) ∷ [])
    ∷ ("anon", plain (uint16 p.anon_setting) ∷ [])
    ∷ ("guildRank", plain (uint8 (if p.guild_id == 0 then 0xff else p.guild_rank)) ∷ [])
    ∷ ("drunkeness", plain (uint8 p.drunkeness) ∷ [])
    ∷ ("showEqLoadScreen", gap "showEqLoadScreen")
    ∷ ("unknownU", gap "unknownU")
    ∷ (
      "spellGemRefreshMilliseconds",
      each_from 8 0 (λ i.
          plain
            (uint32 (if ltb (p.recast_timestamp i) time then 0 else p.recast_timestamp i - time))
          ∷ []),
    )
    ∷ ("unknownV", gap "unknownV")
    ∷ (
      "harmtouchRefreshMilliseconds",
      plain (uint32 (if ltb p.harmtouch_timestamp time then 0 else p.harmtouch_timestamp - time))
          ∷ [],
    )
    ∷ ("groupMember", each_from 5 0 (λ i. plain (skip 48) ∷ []))
    ∷ []

-- The beginning of `unknownW`; the rest is left as it is.
unfoldable pub end_parts : List Part
end_parts =
    plain (skip 70)
    ∷ plain (uint16 0xffff)
    ∷ plain (skip 6)
    ∷ plain (fill 0xff 6)
    ∷ plain (skip 176)
    ∷ plain (uint16 0xffff)
    ∷ plain (skip 2)
    ∷ []

unfoldable pub profile_groups : (last time : ℕ) → Profile → Groups
profile_groups last time p =
    head_groups p
    ++ item_groups p
    ++ spell_groups p
    ++ setting_groups time p
    ++ bank_groups last p
    ++ bind_groups p
    ++ bank_id_groups last p
    ++ tail_groups time p

-- Up to the checksum.
unfoldable pub write_player_profile : (last time : ℕ) → Profile → List ℕ → Outcome (Unit {0})
write_player_profile last time p fresh =
    write_parts (parts_of (profile_groups last time p) ++ end_parts)
      (zero_all (sizeof player_profile) fresh)
