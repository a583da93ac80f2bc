-- ===== src/ZoneId/Laws.antt =====
-- Zone numbers and short names, there and back.
use Prim.Native.String.{String}
use text.Mathlib.Text
use text.Mathlib.TextEquality.{eq_iff}
use eqp.Common.{
  ℕ, ◌≡◌, refl, ap, ◌∙◌, ◌⊎◌, inl, inr, Bool, true, false, ◌&&◌, ◌||◌, List, [], ◌∷◌, ◌==◌,
  if◌then◌else◌, Bool-cases, arith,
}
use eqp.ZoneId.{
  ZoneShortNameMap, get_by_cstr, zone_short_name_map_create, zone_id_by_short_name, switch,
  short_names, long_names, zone_short_name_by_id,
}

abbrev names_of : List (ℕ × String) → ZoneShortNameMap
names_of [] = []
names_of ((id, name) ∷ rows) = (name, id) ∷ names_of rows

abbrev pub ids_of : List (ℕ × String) → List ℕ
ids_of [] = []
ids_of ((id, name) ∷ rows) = id ∷ ids_of rows

abbrev pub has_case : ℕ → List (ℕ × String) → Bool
has_case id [] = false
has_case id ((case, name) ∷ rows) = id == case || has_case id rows

-- Every row's name is found with the row's number.
abbrev round_trips : ZoneShortNameMap → List (ℕ × String) → Bool
round_trips m [] = true
round_trips m ((id, name) ∷ rows) = zone_id_by_short_name m name == id && round_trips m rows

-- Every entry's number has the entry's name.
abbrev switches : ZoneShortNameMap → Bool
switches [] = true
switches ((name, id) ∷ m) = Text.◌==◌ (zone_short_name_by_id id) name && switches m

created-round_trips : round_trips zone_short_name_map_create short_names ≡ true
unfolding zone_short_name_map_create zone_id_by_short_name short_names
created-round_trips = refl

created-switches : switches zone_short_name_map_create ≡ true
unfolding zone_short_name_map_create zone_short_name_by_id short_names
created-switches = refl

switch_found :
    (m : ZoneShortNameMap) (rows : List (ℕ × String)) (default : String) (id : ℕ)
    → round_trips m rows ≡ true
    → zone_id_by_short_name m (switch id rows default)
      ≡ (if has_case id rows then id else zone_id_by_short_name m default)
switch_found m [] default id e = refl
switch_found m ((case, name) ∷ rows) default id e =
    let rest = switch_found m rows default id in ground (arith, rest, e)

first_zone : zone_id_by_short_name zone_short_name_map_create "qeynos" ≡ 1
unfolding zone_short_name_map_create zone_id_by_short_name
first_zone = refl

-- The number of a zone's short name is the number, for each of the numbers in the table; every
-- other number has the short name of zone 1.
pub zone_id-short_name :
    (id : ℕ)
    → zone_id_by_short_name zone_short_name_map_create (zone_short_name_by_id id)
      ≡ (if has_case id short_names then id else 1)
unfolding zone_short_name_by_id
zone_id-short_name id =
    switch_found zone_short_name_map_create short_names "qeynos" id created-round_trips
    ∙ ap (λ n. if has_case id short_names then id else n) first_zone

and_true : (a b : Bool) → (a && b) ≡ true → (a ≡ true) × (b ≡ true)
and_true true b e = (refl, e)
and_true false b e = absurd (cc)

module _ (k : String) (v : ℕ) (m : ZoneShortNameMap) (name : String) where
  found_here : Text.◌==◌ k name ≡ true → zone_id_by_short_name ((k, v) ∷ m) name ≡ v
  unfolding zone_id_by_short_name get_by_cstr
  found_here e = rw (zone_id_by_short_name, e)

  found_later :
      Text.◌==◌ k name ≡ false
      → zone_id_by_short_name ((k, v) ∷ m) name ≡ zone_id_by_short_name m name
  unfolding zone_id_by_short_name get_by_cstr
  found_later e = rw (zone_id_by_short_name, e)

get-switches :
    (m : ZoneShortNameMap) (name : String)
    → switches m ≡ true
    → (zone_id_by_short_name m name ≡ 0)
      ⊎ (zone_short_name_by_id (zone_id_by_short_name m name) ≡ name)
unfolding zone_id_by_short_name
get-switches [] name e = inl refl
get-switches ((k, v) ∷ m) name e =
    let (now, rest) = and_true (Text.◌==◌ (zone_short_name_by_id v) k) (switches m) e in
    elim (Bool-cases (Text.◌==◌ k name)) [
      | inl same ↦
          let (named, _) = eq_iff (zone_short_name_by_id v) k in
          let (is_name, _) = eq_iff k name in
          inr (rw (found_here k v m name same) (named now ∙ is_name same))
      | inr other ↦ rw (found_later k v m name other) (get-switches m name rest)
    ]

-- A name has the number 0, which no zone has, or a number whose short name it is.
pub short_name-zone_id :
    (name : String)
    → (zone_id_by_short_name zone_short_name_map_create name ≡ 0)
      ⊎ (zone_short_name_by_id (zone_id_by_short_name zone_short_name_map_create name) ≡ name)
short_name-zone_id name = get-switches zone_short_name_map_create name created-switches

-- The two switches have the same cases.
pub long_names_cover : ids_of long_names ≡ ids_of short_names
unfolding long_names short_names
long_names_cover = refl
