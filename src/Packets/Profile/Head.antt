-- ===== src/Packets/Profile/Head.antt =====
-- The first fields of a player's profile, in the order of src/common/player_profile.h.
use Prim.Native.String.{String}
use eqp.Common.{ℕ, zero, suc, ◌+◌, Bool, Option, none, some, List, [], ◌∷◌, ◌++◌}
use eqp.Packets.Plain.{uint8, uint16, uint32, skip, chars}
use eqp.Packets.Parts.{Part, plain, Slot, moves}
use eqp.Packets.Struct.{Fields, Steps, sizeof_field}
use eqp.Packets.Structs.PlayerProfile.{player_profile_fields}

-- Where a character is, or was bound.
pub record Place : Type 0 where
  pub zone_short_name : List ℕ
  pub x : ℕ
  pub y : ℕ
  pub z : ℕ
  pub heading : ℕ

-- Of `struct Client` what the profile has. A list by index is a function.
pub record Profile : Type 0 where
  pub name : List ℕ
  pub surname : Option (List ℕ)
  pub gender : ℕ
  pub race : ℕ
  pub class_ : ℕ
  pub level : ℕ
  pub experience : ℕ
  pub training_points : ℕ
  pub current_mana : ℕ
  pub face : ℕ
  pub current_hp : ℕ
  -- STR, STA, CHA, DEX, INT, AGI, WIS
  pub stat : ℕ → ℕ
  pub language : ℕ → ℕ
  pub slots : List Slot
  -- place and spell
  pub known_spells : List (ℕ × ℕ)
  pub memorized_spell : ℕ → ℕ
  pub recast_timestamp : ℕ → ℕ
  pub place : Place
  -- the 16 bytes of a `Coin`
  pub coins : List ℕ
  pub coins_bank : List ℕ
  pub coins_cursor : List ℕ
  pub skill : ℕ → ℕ
  pub is_auto_split_enabled : Bool
  pub is_pvp : Bool
  pub is_gm : Bool
  pub discipline_timestamp : ℕ
  pub hunger_level : ℕ
  pub thirst_level : ℕ
  pub bind_point : ℕ → Place
  pub creation_timestamp : ℕ
  pub deity : ℕ
  pub guild_id : ℕ
  pub guild_rank : ℕ
  pub anon_setting : ℕ
  pub drunkeness : ℕ
  pub harmtouch_timestamp : ℕ

-- The parts of a body, grouped by the field that each group begins with, and the check of them.
abbrev pub Groups : Type 0
Groups = List (String × List Part)

abbrev pub parts_of : Groups → List Part
parts_of [] = []
parts_of ((name, ps) ∷ gs) = ps ++ parts_of gs

abbrev pub shape : Groups → Steps
shape [] = []
shape ((name, ps) ∷ gs) = (name, moves ps) ∷ shape gs

-- `Trilogy_PlayerProfile`
abbrev pub player_profile : Fields
player_profile = ("crc", 4) ∷ player_profile_fields

abbrev pub gap : String → List Part
gap field = plain (skip (sizeof_field player_profile field)) ∷ []

-- A run of calls for `i`, `i + 1` and so on.
abbrev pub each_from : (n i : ℕ) → (ℕ → List Part) → List Part
each_from zero i f = []
each_from (suc n) i f = f i ++ each_from n (i + 1) f

abbrev surname_parts : Option (List ℕ) → List Part
surname_parts none = gap "surname"
surname_parts (some text) = plain (chars (sizeof_field player_profile "surname") text) ∷ []

unfoldable pub head_groups : Profile → Groups
head_groups p =
    ("crc", plain (skip 4) ∷ [])
    ∷ ("name", plain (chars (sizeof_field player_profile "name") p.name) ∷ [])
    ∷ ("surname", surname_parts p.surname)
    ∷ ("gender", plain (uint16 p.gender) ∷ [])
    ∷ ("race", plain (uint16 p.race) ∷ [])
    ∷ ("class", plain (uint16 p.class_) ∷ [])
    ∷ ("level", plain (uint32 p.level) ∷ [])
    ∷ ("experience", plain (uint32 p.experience) ∷ [])
    ∷ ("trainingPoints", plain (uint16 p.training_points) ∷ [])
    ∷ ("currentMana", plain (uint16 p.current_mana) ∷ [])
    ∷ ("face", plain (uint8 p.face) ∷ [])
    ∷ ("unknownA", gap "unknownA")
    ∷ ("currentHp", plain (uint16 p.current_hp) ∷ [])
    ∷ ("unknownB", gap "unknownB")
    ∷ ("STR", plain (uint8 (p.stat 0)) ∷ [])
    ∷ ("STA", plain (uint8 (p.stat 1)) ∷ [])
    ∷ ("CHA", plain (uint8 (p.stat 2)) ∷ [])
    ∷ ("DEX", plain (uint8 (p.stat 3)) ∷ [])
    ∷ ("INT", plain (uint8 (p.stat 4)) ∷ [])
    ∷ ("AGI", plain (uint8 (p.stat 5)) ∷ [])
    ∷ ("WIS", plain (uint8 (p.stat 6)) ∷ [])
    ∷ ("languages", each_from 24 0 (λ i. plain (uint8 (p.language i)) ∷ []))
    ∷ ("unknownC", gap "unknownC")
    ∷ []
