-- ===== src/Mob/Skills/Laws.antt =====
-- Which skill has which value after the two initialisations, and what a value from the database
-- changes.
use eqp.Common.{
  ℕ, ◌<◌, ◌≡◌, refl, ◌∙◌, ap, Bool, true, false, not, ◌&&◌, ◌||◌, List, [], ◌∷◌, length, set,
  get_or, get_or-set, get_or-replicate, length-set, length-replicate, replicate, ◌==◌, leb,
  if◌then◌else◌, arith,
}
use eqp.Mob.Skills.SkillId
use eqp.Mob.Skills.{
  Skills, cant_learn, havent_trained_yet, lang_count, assign_all, default_to_zero, preinit,
  monk_only, rogue_only, bar, init, class_monk, class_rogue, class_shaman, class_necromancer,
  class_enchanter, class_beastlord, race_gnome, race_iksar, bar_all,
}

-- The structure has its declared sizes.
pub record IsSized (s : Skills) : Type 0 where
  pub skills : length s.skill ≡ SkillId.count
  pub languages : length s.language ≡ lang_count

abbrev pub mem : ℕ → List ℕ → Bool
mem i [] = false
mem i (id ∷ ids) = id == i || mem i ids

length-assign_all : (v : ℕ) (ids xs : List ℕ) → length (assign_all v ids xs) ≡ length xs
unfolding assign_all
length-assign_all v [] xs = refl
length-assign_all v (id ∷ ids) xs = length-assign_all v ids (set xs id v) ∙ length-set xs id v

abbrev AllLt : ℕ → List ℕ → Type 0
AllLt n [] = Unit
AllLt n (id ∷ ids) = (id < n) × AllLt n ids

get_or-assign_all :
    (v : ℕ) (ids xs : List ℕ) (i : ℕ)
    → AllLt (length xs) ids
    → get_or (assign_all v ids xs) i 0 ≡ (if mem i ids then v else get_or xs i 0)
unfolding assign_all
get_or-assign_all v [] xs i h = refl
get_or-assign_all v (id ∷ ids) xs i h =
    let same = length-set xs id v in
    let inside : AllLt (length (set xs id v)) ids = rw same h.1 in
    ground (arith, get_or-assign_all v ids (set xs id v) i inside, get_or-set xs id i v 0 h.0)

length-bar : (test : Bool) (ids xs : List ℕ) → length (bar test ids xs) ≡ length xs
unfolding bar
length-bar true ids xs = length-assign_all cant_learn ids xs
length-bar false ids xs = refl

get_or-bar :
    (test : Bool) (ids xs : List ℕ) (i : ℕ)
    → AllLt (length xs) ids
    → get_or (bar test ids xs) i 0 ≡ (if test && mem i ids then cant_learn else get_or xs i 0)
unfolding bar
get_or-bar true ids xs i h = get_or-assign_all cant_learn ids xs i h
get_or-bar false ids xs i h = refl

-- Before the class is known a skill is either untrained or among those that everybody starts with at
-- zero; the common tongue is known in full, and the other languages are as before.
pub preinit_lem :
    (s : Skills) (i : ℕ)
    → IsSized s
    → i < SkillId.count
    → (get_or (preinit s).skill i 0 ≡ (if mem i default_to_zero then 0 else havent_trained_yet))
      × (get_or (preinit s).language i 0 ≡ (if 0 == i then 100 else get_or s.language i 0))
unfolding preinit
preinit_lem s i v h = (
  (let sized : length (replicate (length s.skill) havent_trained_yet) ≡ SkillId.count =
        length-replicate _ havent_trained_yet ∙ v.skills in
      get_or-assign_all 0 default_to_zero (replicate (length s.skill) havent_trained_yet) i
        (rw sized (omega arith))
      ∙ ap (λ t. if mem i default_to_zero then 0 else t)
          (get_or-replicate (length s.skill) i havent_trained_yet 0 (omega (arith, v.skills)))),
  get_or-set s.language 0 i 100 0 (omega (arith, v.languages)),
)

-- A skill among `ids` is open to those who pass the test.
abbrev pub open_to : Bool → List ℕ → ℕ → Bool
open_to test ids i = not (mem i ids) || test

-- Who can learn what: every restriction that names the skill is met.
abbrev pub can_learn : ℕ → ℕ → ℕ → Bool
can_learn class race i =
    open_to (race == race_gnome) (SkillId.tinkering ∷ []) i
    && (open_to (class == class_shaman) (SkillId.alchemy ∷ []) i
        && (open_to (leb class_necromancer class && leb class class_enchanter)
              (SkillId.research ∷ []) i
            && (open_to (class == class_monk || class == class_beastlord) (SkillId.block ∷ []) i
                && (open_to (class == class_rogue) rogue_only i
                    && open_to (class == class_monk) monk_only i))))

bar_step :
    (test pass c : Bool) (ids xs : List ℕ) (i y : ℕ)
    → AllLt (length xs) ids
    → test ≡ not pass
    → get_or xs i 0 ≡ (if c then y else cant_learn)
    → get_or (bar test ids xs) i 0 ≡ (if open_to pass ids i && c then y else cant_learn)
bar_step test pass c ids xs i y h e k = rw (get_or-bar test ids xs i h, k, e) (ground arith)

length-bar_all : (class race : ℕ) (xs : List ℕ) → length (bar_all class race xs) ≡ length xs
unfolding bar_all
length-bar_all class race xs = simp length-bar

get_or-bar_all :
    (class race : ℕ) (xs : List ℕ) (i : ℕ)
    → length xs ≡ SkillId.count
    → get_or (bar_all class race xs) i 0
      ≡ (if can_learn class race i then get_or xs i 0 else cant_learn)
unfolding bar_all
get_or-bar_all class race xs i v =
    let y = get_or xs i 0 in
    bar_step _ (race == race_gnome) _ _ _ i y (simp (length-bar, v) (omega arith)) refl (
      bar_step _ (class == class_shaman) _ _ _ i y (simp (length-bar, v) (omega arith)) refl (
        bar_step _ (leb class_necromancer class && leb class class_enchanter) _ _ _ i y
          (simp (length-bar, v) (omega arith)) (ground arith)
          (bar_step _ (class == class_monk || class == class_beastlord) _ _ _ i y
            (simp (length-bar, v) (omega arith)) (ground arith)
            (bar_step _ (class == class_rogue) _ _ _ i y (simp (length-bar, v) (omega arith)) refl (
              get_or-bar (not (class == class_monk)) monk_only xs i (simp v (omega arith))
              ∙ ground arith)))))

-- A skill that the class or race cannot learn is marked so, an Iksar swims at 100 whatever it is,
-- and every other skill keeps its value.
pub init_lem :
    (class level race : ℕ) (s : Skills) (i : ℕ)
    → IsSized s
    → get_or (init class level race s).skill i 0 ≡ (
        if race == race_iksar && SkillId.swimming == i
        then 100
        else if can_learn class race i
        then get_or s.skill i 0
        else cant_learn)
unfolding init
init_lem class level race s i v =
    let barred = bar_all class race s.skill in
    let inside : SkillId.swimming < length barred = rw (length-bar_all, v.skills) (omega arith) in
    rw (← get_or-bar_all class race s.skill i v.skills)
      (ground (arith, get_or-set barred SkillId.swimming i 100 0 inside))
