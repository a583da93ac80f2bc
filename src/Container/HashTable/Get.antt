-- ===== src/Container/HashTable/Get.antt =====
-- `hash_table_get_by_cstr`, and the search for a key that it shares with
-- `hash_table_remove_by_cstr` (src/common/container/eqp_hash_table.c).
use eqp.Common.{
  ℕ, ◌≤◌, ◌≡◌, ◌⊎◌, ◌↔◌, refl, sym, ap, subst, ◌∙◌, true, false, Option, none, some, List, ◌==◌,
  arith, inl, inr, Bool-cases, ==_iff, ltb, lt→ltb,
}
use eqp.Container.HashTable.{
  HashTable, Place, invalid, is_null, main_pos, calc_hash, search_chain, get_by_cstr,
}
use eqp.Container.HashTable.Slots.{has, length-NoDup}
use eqp.Container.HashTable.Valid.{IsChain, one-IsChain}
use eqp.Container.HashTable.Loops.{search_chain_lem, IsFound, IsMissing}
use eqp.Container.HashTable.Sound.{IsSound, Has, main_pos_lt, head_taken, held-IsAt}

module _ (t : HashTable) (s : IsSound t) (key : List ℕ) where
  abbrev pos : ℕ
  pos = main_pos t (calc_hash key)

  pub pos_inside : ltb pos t.capacity ≡ true
  pos_inside = lt→ltb pos t.capacity (main_pos_lt t s.size (calc_hash key) s.sized s.bounded)

  -- Where the slot of the hash is empty, or another hash's, no slot has the key.
  pub absent_empty : is_null (t.entries pos).key ≡ true → (v : List ℕ) → ¬ Has t key v
  absent_empty np v held =
      let (_, (n, _)) =
        head_taken t.capacity (main_pos t) t.entries pos held.0 s.valid
          (held-IsAt t key v s.keyed held) in
      absurd (cc)

  pub absent_other : (main_pos t (t.entries pos).hash == pos) ≡ false → (v : List ℕ) → ¬ Has t key v
  absent_other mp v held =
      let (_, (_, w)) =
        head_taken t.capacity (main_pos t) t.entries pos held.0 s.valid
          (held-IsAt t key v s.keyed held) in
      let z = (==_iff (main_pos t (t.entries pos).hash) pos).1 w in absurd (cc)

  -- Otherwise the chain of the slot is searched.
  pub search_lem :
      is_null (t.entries pos).key ≡ false
      → (main_pos t (t.entries pos).hash == pos) ≡ true
      → (xs : List ℕ) × IsChain t.capacity (main_pos t) t.entries pos xs
        × ((p : Place) × (search_chain t.capacity t none pos (calc_hash key) key ≡ some p)
            × (IsFound t.entries key xs none pos p ⊎ IsMissing t.entries key xs p))
  search_lem np mp =
      let low = main_pos_lt t s.size (calc_hash key) s.sized s.bounded in
      let small : t.capacity ≤ invalid = let b = s.bounded in omega arith in
      let (xs, k, inside) =
        s.valid.chain_of pos pos (low, (np, (==_iff (main_pos t (t.entries pos).hash) pos).0 mp)) in
      (
        xs,
        k,
        search_chain_lem t t.capacity none pos key xs k.way
            (λ x i. let (b, (n, _)) = k.members x i in (b, (n, s.keyed.hashed x b))) k.different
            inside (length-NoDup t.capacity xs k.different (λ x i. (k.members x i).0)) small,
      )

  pub absent_chain :
      (xs : List ℕ)
      → IsChain t.capacity (main_pos t) t.entries pos xs
      → ((x : ℕ) → has x xs ≡ true → ¬ ((t.entries x).key ≡ some key))
      → (v : List ℕ) → ¬ Has t key v
  absent_chain xs k missing v held =
      let small : t.capacity ≤ invalid = let b = s.bounded in omega arith in
      let (ys, j, iny) = s.valid.chain_of pos held.0 (held-IsAt t key v s.keyed held) in
      let (x, _, is_key, _) = held in
      missing x (ap (has x) (one-IsChain t.capacity (main_pos t) small k j) ∙ iny) is_key

-- A key has one value.
pub one_value : (t : HashTable) (key v w : List ℕ) → IsSound t → Has t key v → Has t key w → v ≡ w
one_value t key v w s (x, b, e, p) (y, c, f, q) =
    sym p ∙ ap (λ z. (t.entries z).value) (s.keyed.unique x y key b c e f) ∙ q

-- In a sound table the search ends without touching a slot outside or a missing key, and returns the
-- value that the table holds for the key, or NULL when it holds none.
pub get_by_cstr_lem :
    (t : HashTable) (key : List ℕ)
    → IsSound t
    → (o : Option (List ℕ)) × (get_by_cstr t key ≡ some o)
      × ((v : List ℕ) → (o ≡ some v) ↔ Has t key v)
unfolding get_by_cstr
get_by_cstr_lem t key s =
    let p = main_pos t (calc_hash key) in
    let b = pos_inside t s key in
    let nothing = λ (none_ : (v : List ℕ) → ¬ Has t key v) (v : List ℕ). the_none none_ v in
    elim (Bool-cases (is_null (t.entries p).key)) [
      | inl m ↦ (none, rw (get_by_cstr, b, m) refl, nothing (absent_empty t s key m))
      | inr m ↦ elim (Bool-cases (main_pos t (t.entries p).hash == p)) [
        | inr other ↦
            (none, rw (get_by_cstr, b, m, other) refl, nothing (absent_other t s key other))
        | inl own ↦
            let (xs, k, (place, q, result)) = search_lem t s key m own in
            elim result [
              | inr (missing, _, _, none_) ↦ (
                none,
                rw (get_by_cstr, b, m, own, q, missing) refl,
                nothing (absent_chain t s key xs k none_),
              )
              | inl (found, i, is_key, _) ↦
                  let low = (k.members place.ent i).0 in
                  let bl = lt→ltb place.ent t.capacity low in
                  let held : Has t key (t.entries place.ent).value =
                    (place.ent, low, is_key, refl) in
                  (
                    some (t.entries place.ent).value,
                    rw (get_by_cstr, b, m, own, q, found, bl) refl,
                    λ v. (
                      λ e. subst (Has t key) (unwrap (t.entries place.ent).value v e) held,
                      λ h. ap some (one_value t key (t.entries place.ent).value v s held h),
                    ),
                  )
            ]
      ]
    ]
  where
    the_none : ((v : List ℕ) → ¬ Has t key v) → (v : List ℕ) → (none ≡ some v) ↔ Has t key v
    the_none none_ v = (λ e. absurd (cc), λ h. absurd (none_ v h))

    unwrap : (x y : List ℕ) → some x ≡ some y → x ≡ y
    unwrap x y e = ap (λ o. elim o [ none ↦ x | some z ↦ z ]) e
