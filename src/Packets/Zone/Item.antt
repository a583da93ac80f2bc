-- ===== src/Packets/Zone/Item.antt =====
-- `client_trilogy_make_item_packet`.
use eqp.Common.{ℕ, ◌-◌, ◌*◌, Bool, true, false, List, [], ◌∷◌, if◌then◌else◌}
use eqp.Aligned.Defs.{Outcome}
use eqp.Packets.Plain.{uint8, uint16, uint32, zeroes, chars, write_plains}
use eqp.Packets.Struct.{Steps, sizeof, sizeof_field, writes, start}
use eqp.Packets.Structs.Item.{item, item_basic}
use eqp.Packets.Zone.Mobs.{of_bool}

-- What the packet reads of an `Item` and its `ItemPrototype`. `model_text` is "IT%u" of the model.
pub record ItemView : Type 0 where
  pub name : List ℕ
  pub lore_text : List ℕ
  pub model_text : List ℕ
  pub is_lore : Bool
  pub is_permanent : Bool
  pub is_droppable : Bool
  pub is_stackable : Bool
  pub is_magic : Bool
  pub weight : ℕ
  pub size : ℕ
  pub item_id : ℕ
  pub icon_id : ℕ
  pub slot_bitfield : ℕ
  pub cost : ℕ
  -- STR, STA, CHA, DEX, INT, AGI, WIS, MR, FR, CR, DR, PR, hp, mana and AC by their index
  pub stat : ℕ → ℕ
  pub light : ℕ
  pub delay : ℕ
  pub damage : ℕ
  pub range : ℕ
  pub item_type_id : ℕ
  pub material : ℕ
  pub tint : ℕ
  pub spell_id : ℕ
  pub class_bitfield : ℕ
  pub race_bitfield : ℕ
  pub casting_time : ℕ
  pub charges : ℕ

-- From the place of the union on.
unfoldable pub item_basic_steps : ItemView → Steps
item_basic_steps v =
    ("basic.STR", uint8 (v.stat 0) ∷ [])
    ∷ ("basic.STA", uint8 (v.stat 1) ∷ [])
    ∷ ("basic.CHA", uint8 (v.stat 2) ∷ [])
    ∷ ("basic.DEX", uint8 (v.stat 3) ∷ [])
    ∷ ("basic.INT", uint8 (v.stat 4) ∷ [])
    ∷ ("basic.AGI", uint8 (v.stat 5) ∷ [])
    ∷ ("basic.WIS", uint8 (v.stat 6) ∷ [])
    ∷ ("basic.MR", uint8 (v.stat 7) ∷ [])
    ∷ ("basic.FR", uint8 (v.stat 8) ∷ [])
    ∷ ("basic.CR", uint8 (v.stat 9) ∷ [])
    ∷ ("basic.DR", uint8 (v.stat 10) ∷ [])
    ∷ ("basic.PR", uint8 (v.stat 11) ∷ [])
    ∷ ("basic.hp", uint8 (v.stat 12) ∷ [])
    ∷ ("basic.mana", uint8 (v.stat 13) ∷ [])
    ∷ ("basic.AC", uint8 (v.stat 14) ∷ [])
    ∷ ("basic.isStackable", uint8 (if v.is_stackable then 1 else 0) ∷ [])
    ∷ ("basic.isTestItem", uint8 0 ∷ [])
    ∷ ("basic.light", uint8 v.light ∷ [])
    ∷ ("basic.delay", uint8 v.delay ∷ [])
    ∷ ("basic.damage", uint8 v.damage ∷ [])
    ∷ ("basic.clickyType", uint8 0 ∷ [])
    ∷ ("basic.range", uint8 v.range ∷ [])
    ∷ ("basic.skill", uint8 v.item_type_id ∷ [])
    ∷ ("basic.isMagic", uint8 (of_bool v.is_magic) ∷ [])
    ∷ ("basic.clickableLevel", uint8 0 ∷ [])
    ∷ ("basic.material", uint8 v.material ∷ [])
    ∷ ("basic.unknownA", zeroes (sizeof_field item_basic "basic.unknownA") ∷ [])
    ∷ ("basic.tint", uint32 v.tint ∷ [])
    ∷ ("basic.unknownB", zeroes (sizeof_field item_basic "basic.unknownB") ∷ [])
    ∷ ("basic.spellId", uint16 v.spell_id ∷ [])
    ∷ ("basic.classesBitfield", uint32 v.class_bitfield ∷ [])
    ∷ ("basic.racesBitfield", uint32 v.race_bitfield ∷ [])
    ∷ ("basic.consumableType", uint8 3 ∷ [])
    ∷ ("basic.procLevel", uint8 0 ∷ [])
    ∷ ("basic.charges", uint8 v.charges ∷ [])
    ∷ ("basic.effectType", uint8 0 ∷ [])
    ∷ ("basic.clickySpellId", uint16 v.spell_id ∷ [])
    ∷ ("basic.unknownC", zeroes (sizeof_field item_basic "basic.unknownC") ∷ [])
    ∷ ("basic.castingTime", uint32 v.casting_time ∷ [])
    ∷ ("basic.unknownD", zeroes (sizeof_field item_basic "basic.unknownD") ∷ [])
    ∷ ("basic.recommendedLevel", uint8 0 ∷ [])
    ∷ ("basic.unknownE", zeroes (sizeof_field item_basic "basic.unknownE") ∷ [])
    ∷ ("basic.deityBitfield", uint32 0 ∷ [])
    ∷ []

unfoldable pub item_steps : ItemView → ℕ → Steps
item_steps v slot_id =
    ("name", chars (sizeof_field item "name") v.name ∷ [])
    ∷ (
      "lore",
      elim v.is_lore [
        | true ↦ uint8 b'*' ∷ chars (sizeof_field item "lore" - 1) v.lore_text ∷ []
        | false ↦ chars (sizeof_field item "lore" - 0) v.lore_text ∷ []
      ],
    )
    ∷ ("model", chars (sizeof_field item "model") v.model_text ∷ [])
    ∷ ("typeFlag", uint16 0x3336 ∷ [])
    ∷ ("unknownA", zeroes (sizeof_field item "unknownA") ∷ [])
    ∷ ("weight", uint8 v.weight ∷ [])
    ∷ ("isPermanent", uint8 (if v.is_permanent then 255 else 0) ∷ [])
    ∷ ("isDroppable", uint8 (of_bool v.is_droppable) ∷ [])
    ∷ ("size", uint8 v.size ∷ [])
    ∷ ("itemType", uint8 0 ∷ [])
    ∷ ("itemId", uint16 v.item_id ∷ [])
    ∷ ("icon", uint16 v.icon_id ∷ [])
    ∷ ("currentSlot", uint16 slot_id ∷ [])
    ∷ ("slotsBitfield", uint32 (v.slot_bitfield * 2) ∷ [])
    ∷ ("cost", uint32 v.cost ∷ [])
    ∷ ("unknownB", zeroes (sizeof_field item "unknownB") ∷ [])
    ∷ ("instanceId", uint32 0 ∷ [])
    ∷ ("isDroppableRoleplayServer", uint8 (of_bool v.is_droppable) ∷ [])
    ∷ ("unknownC", zeroes (sizeof_field item "unknownC") ∷ [])
    ∷ item_basic_steps v

-- The union at the end of `Trilogy_Item` is as long as its member for basic items.
unfoldable pub make_item_packet : ItemView → ℕ → List ℕ → Outcome (Unit {0})
make_item_packet v slot_id fresh =
    write_plains (writes (item_steps v slot_id)) (start (sizeof item) fresh)
