-- ===== src/Mob/Skills.antt =====
-- src/zone_cluster/mob/skills.c: what a character starts with, what a class or race cannot learn,
-- and the values that come from the database.
-- The two arrays of the structure stand one behind the other in memory: a write past the skills
-- lands in the languages, and one past both is the result `none`.
pub mod SkillId
pub mod Laws
mod Tests
use SkillId
use eqp.Common.{
  ℕ, ◌+◌, ◌-◌, ◌%◌, Bool, not, ◌&&◌, ◌||◌, Option, none, some, List, [], ◌∷◌, length, set,
  replicate, ltb, leb, ◌==◌, if◌then◌else◌,
}

pub record Skills : Type 0 where
  pub skill : List ℕ
  pub language : List ℕ

abbrev pub cant_learn : ℕ
cant_learn = 0xff

abbrev pub havent_trained_yet : ℕ
havent_trained_yet = 0xfe

-- `Lang_COUNT` and `Lang_CommonTongue`.
abbrev pub lang_count : ℕ
lang_count = 24

abbrev pub common_tongue : ℕ
common_tongue = 0

-- `EQP_DB_LANGUAGE_SKILL_OFFSET`.
abbrev pub language_skill_offset : ℕ
language_skill_offset = 100

-- Of `ClassId` and `RaceId` (src/common/enums.h) those that the code tests.
abbrev pub class_monk : ℕ
class_monk = 7

abbrev pub class_rogue : ℕ
class_rogue = 9

abbrev pub class_shaman : ℕ
class_shaman = 10

abbrev pub class_necromancer : ℕ
class_necromancer = 11

abbrev pub class_enchanter : ℕ
class_enchanter = 14

abbrev pub class_beastlord : ℕ
class_beastlord = 15

abbrev pub race_gnome : ℕ
race_gnome = 12

abbrev pub race_iksar : ℕ
race_iksar = 124

-- A run of assignments `skill[id] = v`.
unfoldable pub assign_all : ℕ → List ℕ → List ℕ → List ℕ
assign_all v [] xs = xs
assign_all v (id ∷ ids) xs = assign_all v ids (set xs id v)

-- `skillsThatDefaultToZeroUniversally`.
abbrev pub default_to_zero : List ℕ
default_to_zero =
    SkillId.one_hand_blunt ∷ SkillId.bind_wound ∷ SkillId.defense ∷ SkillId.hand_to_hand
    ∷ SkillId.offense ∷ SkillId.sense_heading ∷ SkillId.swimming ∷ SkillId.throwing
    ∷ SkillId.fishing ∷ SkillId.baking ∷ SkillId.tailoring ∷ SkillId.blacksmithing
    ∷ SkillId.fletching ∷ SkillId.brewing ∷ SkillId.alcohol_tolerance ∷ SkillId.begging
    ∷ SkillId.jewelry_making ∷ SkillId.pottery ∷ []

unfoldable pub preinit : Skills → Skills
unfolding assign_all
preinit s = record {
  skill = assign_all 0 default_to_zero (replicate (length s.skill) havent_trained_yet);
  language = set s.language common_tongue 100;
}

abbrev pub monk_only : List ℕ
monk_only =
    SkillId.dragon_punch ∷ SkillId.eagle_strike ∷ SkillId.feign_death ∷ SkillId.flying_kick
    ∷ SkillId.round_kick ∷ SkillId.tiger_claw ∷ []

abbrev pub rogue_only : List ℕ
rogue_only =
    SkillId.apply_poison ∷ SkillId.backstab ∷ SkillId.disarm_traps ∷ SkillId.pick_lock
    ∷ SkillId.pick_pockets ∷ SkillId.make_poison ∷ []

-- `if (test) skill[id] = SKILL_CANT_LEARN;` for each of the identifiers.
unfoldable pub bar : Bool → List ℕ → List ℕ → List ℕ
bar test ids xs = if test then assign_all cant_learn ids xs else xs

-- The restrictions by class and race, in the order of the code.
unfoldable pub bar_all : ℕ → ℕ → List ℕ → List ℕ
bar_all class race xs =
    let x1 = bar (not (class == class_monk)) monk_only xs in
    let x2 = bar (not (class == class_rogue)) rogue_only x1 in
    let x3 =
      bar (not (class == class_monk) && not (class == class_beastlord)) (SkillId.block ∷ []) x2 in
    let x4 =
      bar (ltb class class_necromancer || ltb class_enchanter class) (SkillId.research ∷ []) x3 in
    let x5 = bar (not (class == class_shaman)) (SkillId.alchemy ∷ []) x4 in
    bar (not (race == race_gnome)) (SkillId.tinkering ∷ []) x5

-- The level is not used.
unfoldable pub init : ℕ → ℕ → ℕ → Skills → Skills
init class level race s =
    let barred = bar_all class race s.skill in
    record s { skill = if race == race_iksar then set barred SkillId.swimming 100 else barred }

-- `skills->skill[id] = value`, with the languages behind the skills.
unfoldable pub write_skill : Skills → ℕ → ℕ → Option Skills
write_skill s id value =
    let beyond = id - length s.skill in
    if ltb id (length s.skill)
    then some (record s { skill = set s.skill id (value % 256) })
    else if ltb beyond (length s.language)
    then some (record s { language = set s.language beyond (value % 256) })
    else none

-- After a language has been set the code goes on to the last line, which sets a skill too.
unfoldable pub set_from_db : Skills → ℕ → ℕ → Option Skills
unfolding write_skill
set_from_db s id value =
    let lang = id - language_skill_offset in
    if leb language_skill_offset id
    then if leb lang_count lang
      then some s
      else write_skill (record s { language = set s.language lang (value % 256) }) lang value
    else write_skill s id value
