-- ===== src/Packets/Profile/Items.antt =====
-- The items that a character has on it and in its bags, and its buffs.
use eqp.Common.{ℕ, zero, suc, List, [], ◌∷◌}
use eqp.Packets.Plain.{Plain, uint16, skip}
use eqp.Packets.Parts.{Part, plain, fill_ahead, ahead, ids, charges}
use eqp.Packets.Struct.{sizeof_field}
use eqp.Packets.Profile.Head.{Profile, Groups, gap, player_profile}

-- `Trilogy_PPItem`s, or buffs, that are none.
abbrev pub blanks : ℕ → List Plain
blanks zero = []
blanks (suc n) = skip 4 ∷ uint16 0xffff ∷ skip 4 ∷ blanks n

abbrev pub blank_parts : ℕ → List Part
blank_parts zero = []
blank_parts (suc n) = plain (skip 4) ∷ plain (uint16 0xffff) ∷ plain (skip 4) ∷ blank_parts n

-- From `InvSlot_Ear1` to `InvSlot_Cursor`, and the bags.
unfoldable pub item_groups : Profile → Groups
item_groups p =
    (
      "mainInventoryItemIds",
      fill_ahead 0xff (sizeof_field player_profile "mainInventoryItemIds")
          ∷ ids 1 30 p.slots
          ∷ gap "mainInventoryItemIds",
    )
    ∷ ("mainInventoryInternalUnused", gap "mainInventoryInternalUnused")
    ∷ (
      "mainInventoryItemProperties",
      ahead (blanks 30) ∷ charges 1 30 p.slots ∷ gap "mainInventoryItemProperties",
    )
    ∷ ("buffs", blank_parts 15)
    ∷ (
      "baggedItemIds",
      fill_ahead 0xff (sizeof_field player_profile "baggedItemIds")
          ∷ ids 251 340 p.slots
          ∷ gap "baggedItemIds",
    )
    ∷ (
      "baggedItemProperties",
      ahead (blanks 90) ∷ charges 251 340 p.slots ∷ gap "baggedItemProperties",
    )
    ∷ []
