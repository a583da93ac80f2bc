-- ===== src/Container/HashTable/Remove.antt =====
-- `hash_table_remove_by_cstr` as a whole (src/common/container/eqp_hash_table.c).
use eqp.Common.{
  ℕ, ◌≤◌, ◌≡◌, refl, sym, subst, ◌∙◌, true, false, Option, none, some, List, ◌==◌, arith, inl, inr,
  Bool-cases, ==_iff,
}
use eqp.Container.HashTable.{
  HashTable, Place, invalid, is_null, main_pos, calc_hash, unlink, remove_by_cstr,
}
use eqp.Container.HashTable.Slots.{has}
use eqp.Container.HashTable.Seg.{no_loop, next-Seg}
use eqp.Container.HashTable.Valid.{IsAt, IsChain}
use eqp.Container.HashTable.Loops.{IsFound}
use eqp.Container.HashTable.Sound.{IsSound, Has}
use eqp.Container.HashTable.Get.{pos_inside, absent_empty, absent_other, absent_chain, search_lem}
use eqp.Container.HashTable.Unlink.{Removes, unlink_after, unlink_only}
use eqp.Container.HashTable.First.{unlink_first}

module _ (t : HashTable) (s : IsSound t) (key : List ℕ) where
  abbrev pos : ℕ
  pos = main_pos t (calc_hash key)

  not_there : ((v : List ℕ) → ¬ Has t key v) → (r : Option HashTable) → r ≡ some t → Removes t key r
  not_there absent r e =
      (t, e, s, λ k v. (λ h. (h, λ same. absent v (subst (λ y. Has t y v) same h)), λ (h, _). h))

  -- The slot that the search has come to.
  unlink_lem :
      (xs : List ℕ) (p : Place)
      → IsChain t.capacity (main_pos t) t.entries pos xs
      → IsFound t.entries key xs none pos p
      → Removes t key (unlink t p.prev p.ent)
  unlink_lem xs p k (_, inside, is_key, place) =
      let i = p.ent in
      let at = k.members i inside in
      let ci : t.capacity ≤ invalid = let b = s.bounded in omega arith in
      let loop : (a : ℕ) → has a xs ≡ true → (t.entries a).next ≡ a → ⊥ = λ a ina.
        no_loop t.entries pos invalid a xs k.different k.way ina
          (let low = (k.members a ina).0 in ground arith) in
      elim place [
        | inr (a, prev, ina, next, pi) ↦
            let ai : (a == i) ≡ false = elim (Bool-cases (a == i)) [
              | inl e ↦ absurd (loop a ina (next ∙ sym ((==_iff a i).0 e)))
              | inr o ↦ o
            ] in
            subst (λ y. Removes t key (unlink t y i)) (sym prev)
              (unlink_after t s key i is_key a at.0 (k.members a ina) next ai pi)
        | inl (first, prev) ↦
            subst (λ y. Removes t key (unlink t y i)) (sym prev)
              (elim (Bool-cases ((t.entries i).next == invalid)) [
                | inl last ↦ unlink_only t s key i is_key at (sym first) last
                | inr more ↦
                    let d = (t.entries i).next in
                    let atd = k.members d (next-Seg t.entries pos invalid i xs k.way inside more) in
                    let id_ : (i == d) ≡ false = elim (Bool-cases (i == d)) [
                      | inl e ↦ absurd (loop i inside (sym ((==_iff i d).0 e)))
                      | inr o ↦ o
                    ] in
                    unlink_first t s key i d is_key
                      (subst (λ y. IsAt t.capacity (main_pos t) t.entries y i) (sym first) at)
                      (subst (λ y. IsAt t.capacity (main_pos t) t.entries y d) (sym first) atd) refl
                      id_
              ])
      ]

  -- Removing a key from a sound table takes away the key's entry, if there is one, and no other; the
  -- table stays sound.
  pub remove_by_cstr_lem : Removes t key (remove_by_cstr t key)
  unfolding remove_by_cstr
  remove_by_cstr_lem =
      let b = pos_inside t s key in
      elim (Bool-cases (is_null (t.entries pos).key)) [
        | inl m ↦
            not_there (absent_empty t s key m) (remove_by_cstr t key)
              (rw (remove_by_cstr, b, m) refl)
        | inr m ↦ elim (Bool-cases (main_pos t (t.entries pos).hash == pos)) [
          | inr other ↦
              not_there (absent_other t s key other) (remove_by_cstr t key)
                (rw (remove_by_cstr, b, m, other) refl)
          | inl own ↦
              let (xs, k, (p, q, result)) = search_lem t s key m own in
              elim result [
                | inr (missing, _, _, nowhere) ↦
                    not_there (absent_chain t s key xs k nowhere) (remove_by_cstr t key)
                      (rw (remove_by_cstr, b, m, own, q, missing) refl)
                | inl found ↦
                    let there = found.0 in
                    let (u, e, r, left) = unlink_lem xs p k found in
                    (u, rw (remove_by_cstr, b, m, own, q, there) e, r, left)
              ]
        ]
      ]
