-- ===== src/Packets/Profile/Bank.antt =====
-- The bank, and the places that a character is bound to.
use eqp.Common.{ℕ, ◌+◌, [], ◌∷◌}
use eqp.Packets.Plain.{uint32, skip}
use eqp.Packets.Parts.{plain, fill_ahead, ahead, ids, charges}
use eqp.Packets.Struct.{sizeof_field}
use eqp.Packets.Profile.Head.{Profile, Groups, gap, player_profile, each_from}
use eqp.Packets.Profile.Items.{blanks}

-- `last` is `InvSlot_BankBagSlotsEnd`, 2111 in src/zone_cluster/mob/inventory.h.
unfoldable pub bank_groups : (last : ℕ) → Profile → Groups
bank_groups last p =
    (
      "bankInventoryItemProperties",
      ahead (blanks 8) ∷ charges 2000 2007 p.slots ∷ gap "bankInventoryItemProperties",
    )
    ∷ (
      "bankBaggedItemProperties",
      ahead (blanks 80) ∷ charges 2031 last p.slots ∷ gap "bankBaggedItemProperties",
    )
    ∷ (
      "unknownK",
      plain (skip (sizeof_field player_profile "unknownK" + sizeof_field player_profile "unknownL"))
          ∷ [],
    )
    ∷ []

unfoldable pub bind_groups : Profile → Groups
bind_groups p =
    ("bindLocY", each_from 5 0 (λ i. plain (uint32 (p.bind_point i).y) ∷ []))
    ∷ ("bindLocX", each_from 5 0 (λ i. plain (uint32 (p.bind_point i).x) ∷ []))
    ∷ ("bindLocZ", each_from 5 0 (λ i. plain (uint32 (p.bind_point i).z) ∷ []))
    ∷ ("bindLocHeading", each_from 5 0 (λ i. plain (uint32 (p.bind_point i).heading) ∷ []))
    ∷ ("bankInventoryInternalUnused", gap "bankInventoryInternalUnused")
    ∷ ("unknownM", gap "unknownM")
    ∷ ("unixTimeA", plain (uint32 p.creation_timestamp) ∷ [])
    ∷ ("unknownN", gap "unknownN")
    ∷ ("unknownODefault1", plain (uint32 1) ∷ [])
    ∷ ("unknownP", gap "unknownP")
    ∷ []

unfoldable pub bank_id_groups : (last : ℕ) → Profile → Groups
bank_id_groups last p =
    (
      "bankInventoryItemIds",
      fill_ahead 0xff (sizeof_field player_profile "bankInventoryItemIds")
          ∷ ids 2000 2007 p.slots
          ∷ gap "bankInventoryItemIds",
    )
    ∷ (
      "bankBaggedItemIds",
      fill_ahead 0xff (sizeof_field player_profile "bankBaggedItemIds")
          ∷ ids 2031 last p.slots
          ∷ gap "bankBaggedItemIds",
    )
    ∷ []
