-- ===== src/CharSelect/Params/Laws.antt =====
-- What is accepted: `cs_client_trilogy_char_creation_params_are_valid` of
-- src/char_select/char_select_client_trilogy.c.
use Prim.Native.Nat.{bit_and}
use eqp.Common.{
  ℕ, zero, suc, ◌+◌, ◌*◌, ◌%◌, replicate, ◌^◌, ◌≤◌, ◌<◌, ◌≡◌, refl, ap, sym, ◌∙◌, Bool, true, false,
  not, ◌&&◌, Option, some, none, AreBelow, List, [], ◌∷◌, length, ltb, leb, ◌==◌, if◌then◌else◌,
  get_or, arith, both-true, Bool-cases, inl, inr,
}
use eqp.CharSelect.Params.{
  classes_by_race, base_stats_by_race, stat_bonuses_by_class, spendable_stat_points_by_class,
  race_index, index, check_stats, params_are_valid, in_budget,
}
use eqp.CharSelect.Params.Matrix.{matrix}

-- A test of all numbers below a bound.
abbrev all_below : ℕ → (ℕ → Bool) → Bool
all_below zero p = true
all_below (suc n) p = p n && all_below n p

all_below_lem : (n : ℕ) (p : ℕ → Bool) (i : ℕ) → all_below n p ≡ true → i < n → p i ≡ true
all_below_lem zero p i h k = absurd (omega arith)
all_below_lem (suc n) p i h k =
    let (here, rest) = both-true (p n) (all_below n p) h in
    elim (Bool-cases (i == n)) [
      | inl same ↦ let e : i ≡ n = ground arith in ap p e ∙ here
      | inr other ↦ all_below_lem n p i rest (ground arith)
    ]

abbrev same : Bool → Bool → Bool
same true b = b
same false b = not b

same_lem : (a b : Bool) → same a b ≡ true → a ≡ b
same_lem true true h = refl
same_lem true false h = absurd (cc)
same_lem false true h = absurd (cc)
same_lem false false h = refl

-- The bits are the matrix of the comment.
pub classes_by_race_lem :
    (race class_ : ℕ)
    → race < 13
    → class_ < 14
    → not (bit_and (get_or classes_by_race race 0) (2 ^ class_) == 0)
      ≡ get_or (get_or matrix class_ []) race false
classes_by_race_lem race class_ h k =
    let all : all_below 13 (λ r. all_below 14 (λ c. agree r c)) ≡ true = refl in
    same_lem _ _ (
      all_below_lem 14 (agree race) class_
        (all_below_lem 13 (λ r. all_below 14 (agree r)) race all h) k)
  where
    agree : ℕ → ℕ → Bool
    agree r c =
        same (not (bit_and (get_or classes_by_race r 0) (2 ^ c) == 0))
          (get_or (get_or matrix c []) r false)

-- The stats as they should be: the sum of what a race and a class have from the start, the sum of
-- the stats, and whether each stat is at most `most` above.
abbrev pub given : (base bonus stats : List ℕ) → ℕ
given (b ∷ bs) (c ∷ cs) (v ∷ vs) = b + c + given bs cs vs
given _ _ _ = 0

abbrev pub spent : (base bonus stats : List ℕ) → ℕ
spent (b ∷ bs) (c ∷ cs) (v ∷ vs) = v + spent bs cs vs
spent _ _ _ = 0

abbrev pub fit : ℕ → (base bonus stats : List ℕ) → Bool
fit most (b ∷ bs) (c ∷ cs) (v ∷ vs) = leb v (b + c + most) && fit most bs cs vs
fit most _ _ _ = true

nothing_more : (e t : ℕ) → ◌≡◌ {A = Option (ℕ × ℕ)} (some (e, t)) (some (e + 0, t + 0))
nothing_more e t =
    let a : e ≡ e + 0 = omega arith in
    let b : t ≡ t + 0 = omega arith in ap (λ x. some (x, t)) a ∙ ap (λ x. some (e + 0, x)) b

check_stats_lem :
    (most expected total : ℕ) (base bonus stats : List ℕ)
    → expected + given base bonus stats < 2 ^ 32
    → total + spent base bonus stats < 2 ^ 32
    → check_stats most expected total base bonus stats ≡ (
        if fit most base bonus stats
        then some (expected + given base bonus stats, total + spent base bonus stats)
        else none)
unfolding check_stats
check_stats_lem most expected total [] cs vs h k = nothing_more expected total
check_stats_lem most expected total (b ∷ bs) [] vs h k = nothing_more expected total
check_stats_lem most expected total (b ∷ bs) (c ∷ cs) [] h k = nothing_more expected total
check_stats_lem most expected total (b ∷ bs) (c ∷ cs) (v ∷ vs) h k =
    let e : (expected + (b + c)) % 2 ^ 32 ≡ expected + (b + c) = omega arith in
    let t : (total + v) % 2 ^ 32 ≡ total + v = omega arith in
    let rest =
      check_stats_lem most (expected + (b + c)) (total + v) bs cs vs (omega arith) (omega arith) in
    elim (Bool-cases (ltb (b + c + most) v)) [
      | inl over ↦ let no_ : leb v (b + c + most) ≡ false = ground arith in rw (over, no_) refl
      | inr fits ↦
          let yes_ : leb v (b + c + most) ≡ true = ground arith in
          let one : expected + (b + c) + given bs cs vs ≡ expected + (b + c + given bs cs vs) =
            omega arith in
          let two : total + v + spent bs cs vs ≡ total + (v + spent bs cs vs) = omega arith in
          rw (fits, yes_, e, t) (rest ∙ rw (one, two) refl)
    ]

-- Seven stats of a byte cannot bring the totals near 2^32.
spent-small :
    (base bonus stats : List ℕ) → AreBelow 256 stats → spent base bonus stats ≤ 256 * length stats
spent-small [] cs vs h = omega arith
spent-small (b ∷ bs) [] vs h = omega arith
spent-small (b ∷ bs) (c ∷ cs) [] h = omega arith
spent-small (b ∷ bs) (c ∷ cs) (v ∷ vs) (h, hs) = let rest = spent-small bs cs vs hs in omega arith

given-less :
    (base bonus stats full : List ℕ)
    → length stats ≡ length full
    → given base bonus stats ≡ given base bonus full
given-less [] cs vs fs h = refl
given-less (b ∷ bs) [] vs fs h = refl
given-less (b ∷ bs) (c ∷ cs) [] [] h = refl
given-less (b ∷ bs) (c ∷ cs) [] (f ∷ fs) h = absurd (omega arith)
given-less (b ∷ bs) (c ∷ cs) (v ∷ vs) [] h = absurd (omega arith)
given-less (b ∷ bs) (c ∷ cs) (v ∷ vs) (f ∷ fs) h =
    ap (λ t. b + c + t) (given-less bs cs vs fs (omega arith))

abbrev pub base_of : ℕ → List ℕ
base_of race = get_or base_stats_by_race (race_index race) []

abbrev pub bonus_of : ℕ → List ℕ
bonus_of class_ = get_or stat_bonuses_by_class (index class_) []

abbrev pub spendable_of : ℕ → ℕ
spendable_of class_ = get_or spendable_stat_points_by_class (index class_) 0

-- What the tables give is small.
given-small :
    (race class_ : ℕ) (stats : List ℕ)
    → race < 13
    → class_ < 14
    → length stats ≡ 7
    → given (get_or base_stats_by_race race []) (get_or stat_bonuses_by_class class_ []) stats
      ≤ 1000
given-small race class_ stats h k len =
    let all : all_below 13 (λ r. all_below 14 (fits r)) ≡ true = refl in
    let here =
      all_below_lem 14 (fits race) class_ (all_below_lem 13 (λ r. all_below 14 (fits r)) race all h)
        k in
    let same_ =
      given-less (get_or base_stats_by_race race []) (get_or stat_bonuses_by_class class_ []) stats
        (replicate 7 0) len in
    ground arith
  where
    fits : ℕ → ℕ → Bool
    fits r c =
        leb
          (given (get_or base_stats_by_race r []) (get_or stat_bonuses_by_class c [])
            (replicate 7 0))
          1000

points-small : (class_ : ℕ) → class_ < 14 → get_or spendable_stat_points_by_class class_ 0 ≤ 30
points-small class_ h =
    let small : ℕ → Bool = λ c. leb (get_or spendable_stat_points_by_class c 0) 30 in
    let here = all_below_lem 14 small class_ refl h in ground arith

in_budget_lem :
    (fits : Bool) (e t : ℕ) → in_budget (if fits then some (e, t) else none) ≡ (fits && leb t e)
in_budget_lem true e t = ground arith
in_budget_lem false e t = refl

-- Seven stats are accepted for a race and a class exactly when the matrix of the comment has the
-- class for the race, where any other race counts as Iksar; no stat is above what the race and the
-- class give by more than 25, or than the points of the class when these are fewer; and the sum of
-- the stats is at most what is given and these points.
pub params_are_valid_lem :
    (race class_ : ℕ) (stats : List ℕ)
    → race < 2 ^ 16
    → class_ < 256
    → length stats ≡ 7
    → AreBelow 256 stats
    → params_are_valid race class_ stats ≡ (
        ltb (index class_) 14
        && get_or (get_or matrix (index class_) []) (race_index race) false
        && fit
            (if ltb 25 (spendable_of class_) then 25 else spendable_of class_)
            (base_of race)
            (bonus_of class_)
            stats
        && leb
            (spent (base_of race) (bonus_of class_) stats)
            (spendable_of class_ + given (base_of race) (bonus_of class_) stats))
unfolding params_are_valid
params_are_valid_lem race class_ stats hr hc len below =
    let c = index class_ in
    let r = race_index race in
    let row : r < 13 = ground arith in
    let spendable = spendable_of class_ in
    let most = if ltb 25 spendable then 25 else spendable in
    let bit = bit_and (get_or classes_by_race r 0) (2 ^ c) == 0 in
    elim (Bool-cases (ltb c 14)) [
      | inl inside ↦
          let column : c < 14 = ground arith in
          let out : leb 14 c ≡ false = ground arith in
          let cell = classes_by_race_lem r c row column in
          let small = given-small r c stats row column len in
          let few = spent-small (base_of race) (bonus_of class_) stats below in
          let points : spendable ≤ 30 = points-small c column in
          let fits = fit most (base_of race) (bonus_of class_) stats in
          let used = spent (base_of race) (bonus_of class_) stats in
          let loop =
            check_stats_lem most spendable 0 (base_of race) (bonus_of class_) stats (omega arith)
              (omega arith) in
          elim (Bool-cases bit) [
            | inl clear ↦
                let no_ : get_or (get_or matrix c []) r false ≡ false = sym cell ∙ ap not clear in
                rw (inside, out, clear, no_) refl
            | inr set_ ↦
                let yes_ : get_or (get_or matrix c []) r false ≡ true = sym cell ∙ ap not set_ in
                rw (inside, out, set_, yes_)
                  (ap in_budget loop
                    ∙ in_budget_lem fits (spendable + given (base_of race) (bonus_of class_) stats)
                        (0 + used)
                    ∙ ap
                        (λ t.
                          fits && leb t (spendable + given (base_of race) (bonus_of class_) stats))
                        (omega arith))
          ]
      | inr beyond ↦ let out : leb 14 c ≡ true = ground arith in rw (beyond, out) refl
    ]
