-- ===== src/CharSelect/Params.antt =====
-- Which characters may be created: `cs_client_trilogy_char_creation_params_are_valid` of
-- src/char_select/char_select_client_trilogy.c.
pub mod Matrix
pub mod Laws
use Prim.Native.Nat.{bit_and}
use eqp.Common.{
  ℕ, zero, suc, ◌+◌, ◌-◌, ◌%◌, ◌^◌, Bool, true, false, Option, none, some, List, [], ◌∷◌, ltb, leb,
  ◌==◌, ◌||◌, if◌then◌else◌, get_or,
}

-- One bit for every class.
abbrev pub classes_by_race : List ℕ
classes_by_race =
    0x3dff ∷ 0x0301 ∷ 0x3c16 ∷ 0x01a9 ∷ 0x3806 ∷ 0x3d13 ∷ 0x01ad ∷ 0x0107 ∷ 0x0211 ∷ 0x0211 ∷ 0x012f
    ∷ 0x3d17 ∷ 0x0651 ∷ []

-- STR, STA, CHA, DEX, INT, AGI, WIS
abbrev pub base_stats_by_race : List (List ℕ)
base_stats_by_race =
    (75 ∷ 75 ∷ 75 ∷ 75 ∷ 75 ∷ 75 ∷ 75 ∷ [])
    ∷ (103 ∷ 95 ∷ 55 ∷ 70 ∷ 60 ∷ 82 ∷ 70 ∷ [])
    ∷ (60 ∷ 70 ∷ 70 ∷ 70 ∷ 107 ∷ 70 ∷ 83 ∷ [])
    ∷ (65 ∷ 65 ∷ 75 ∷ 80 ∷ 75 ∷ 95 ∷ 80 ∷ [])
    ∷ (55 ∷ 65 ∷ 80 ∷ 70 ∷ 92 ∷ 85 ∷ 95 ∷ [])
    ∷ (60 ∷ 65 ∷ 60 ∷ 75 ∷ 99 ∷ 90 ∷ 83 ∷ [])
    ∷ (70 ∷ 70 ∷ 75 ∷ 85 ∷ 75 ∷ 90 ∷ 60 ∷ [])
    ∷ (90 ∷ 90 ∷ 45 ∷ 90 ∷ 60 ∷ 70 ∷ 83 ∷ [])
    ∷ (108 ∷ 109 ∷ 40 ∷ 75 ∷ 52 ∷ 83 ∷ 60 ∷ [])
    ∷ (130 ∷ 122 ∷ 37 ∷ 70 ∷ 60 ∷ 70 ∷ 67 ∷ [])
    ∷ (70 ∷ 75 ∷ 50 ∷ 90 ∷ 67 ∷ 95 ∷ 80 ∷ [])
    ∷ (60 ∷ 70 ∷ 60 ∷ 85 ∷ 98 ∷ 85 ∷ 67 ∷ [])
    ∷ (70 ∷ 70 ∷ 55 ∷ 85 ∷ 75 ∷ 90 ∷ 80 ∷ [])
    ∷ []

abbrev pub stat_bonuses_by_class : List (List ℕ)
stat_bonuses_by_class =
    (10 ∷ 10 ∷ 0 ∷ 0 ∷ 0 ∷ 5 ∷ 0 ∷ [])
    ∷ (5 ∷ 5 ∷ 0 ∷ 0 ∷ 0 ∷ 0 ∷ 10 ∷ [])
    ∷ (10 ∷ 5 ∷ 10 ∷ 0 ∷ 0 ∷ 0 ∷ 5 ∷ [])
    ∷ (5 ∷ 10 ∷ 0 ∷ 0 ∷ 0 ∷ 10 ∷ 5 ∷ [])
    ∷ (10 ∷ 5 ∷ 5 ∷ 0 ∷ 10 ∷ 0 ∷ 0 ∷ [])
    ∷ (0 ∷ 10 ∷ 0 ∷ 0 ∷ 0 ∷ 0 ∷ 10 ∷ [])
    ∷ (5 ∷ 5 ∷ 0 ∷ 10 ∷ 0 ∷ 10 ∷ 0 ∷ [])
    ∷ (5 ∷ 0 ∷ 10 ∷ 10 ∷ 0 ∷ 0 ∷ 0 ∷ [])
    ∷ (0 ∷ 0 ∷ 0 ∷ 10 ∷ 0 ∷ 10 ∷ 0 ∷ [])
    ∷ (0 ∷ 5 ∷ 5 ∷ 0 ∷ 0 ∷ 0 ∷ 10 ∷ [])
    ∷ (0 ∷ 0 ∷ 0 ∷ 10 ∷ 10 ∷ 0 ∷ 0 ∷ [])
    ∷ (0 ∷ 10 ∷ 0 ∷ 0 ∷ 10 ∷ 0 ∷ 0 ∷ [])
    ∷ (0 ∷ 10 ∷ 0 ∷ 0 ∷ 10 ∷ 0 ∷ 0 ∷ [])
    ∷ (0 ∷ 0 ∷ 10 ∷ 0 ∷ 10 ∷ 0 ∷ 0 ∷ [])
    ∷ []

abbrev pub spendable_stat_points_by_class : List ℕ
spendable_stat_points_by_class =
    25 ∷ 30 ∷ 20 ∷ 20 ∷ 20 ∷ 30 ∷ 20 ∷ 25 ∷ 30 ∷ 30 ∷ 30 ∷ 30 ∷ 30 ∷ 30 ∷ []

-- The index of a number from 1 on, in `uint32_t`.
abbrev pub index : ℕ → ℕ
index n = (n + 2 ^ 32 - 1) % 2 ^ 32

-- "Iksar index correction"
abbrev pub race_index : ℕ → ℕ
race_index race = let r = index race in if ltb 12 r then 12 else r

-- The loop over the stats, with the totals; `none` is the return in its middle.
unfoldable pub check_stats :
    (most expected total : ℕ) → (base bonus stats : List ℕ) → Option (ℕ × ℕ)
check_stats most expected total (b ∷ bs) (c ∷ cs) (v ∷ vs) =
    let rest = check_stats most ((expected + (b + c)) % 2 ^ 32) ((total + v) % 2 ^ 32) bs cs vs in
    if ltb (b + c + most) v then none else rest
check_stats most expected total _ _ _ = some (expected, total)

-- The end of the function: the overall total.
abbrev pub in_budget : Option (ℕ × ℕ) → Bool
in_budget none = false
in_budget (some (expected, total)) = if ltb expected total then false else true

unfoldable pub params_are_valid : (race class_ : ℕ) → (stats : List ℕ) → Bool
params_are_valid race class_ stats =
    let c = index class_ in
    let r = race_index race in
    if leb 14 c || bit_and (get_or classes_by_race r 0) (2 ^ c) == 0
    then false
    else let spendable = get_or spendable_stat_points_by_class c 0 in
      let most = if ltb 25 spendable then 25 else spendable in
      in_budget (
        check_stats most spendable 0 (get_or base_stats_by_race r [])
          (get_or stat_bonuses_by_class c []) stats)
