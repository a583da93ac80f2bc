-- ===== src/Container/HashTable/First.antt =====
-- The end of `hash_table_remove_by_cstr` for the first of several slots in a chain
-- (src/common/container/eqp_hash_table.c).
use eqp.Common.{
  ℕ, ◌≤◌, ◌≡◌, ◌↔◌, refl, sym, ap, subst, ◌∙◌, true, false, none, some, List, ◌==◌, if◌then◌else◌,
  arith, inl, inr, Bool-cases, ==_refl, ==_iff, ltb, lt→ltb, update,
}
use eqp.Container.HashTable.{HashTable, invalid, is_null, main_pos, unlink}
use eqp.Container.HashTable.Slots.{==_other}
use eqp.Container.HashTable.Seg.{Memory}
use eqp.Container.HashTable.Valid.{IsAt, IsValid, differ}
use eqp.Container.HashTable.Links.{remove_after, refill}
use eqp.Container.HashTable.Content.{
  Holds, IsKeyed, IsCopy, IsCopy-of, Grows, kept, split_holds, shrink-IsKeyed, grow-IsKeyed, gone,
}
use eqp.Container.HashTable.Room.{vacant}
use eqp.Container.HashTable.Sound.{IsSound, Has}
use eqp.Container.HashTable.Unlink.{Removes, unwrap, lowered-IsFree}

-- The first of a chain, whose slot `i` the second of them takes.
module _ (t : HashTable) (s : IsSound t) (key : List ℕ) (i d : ℕ)
    (is_key : (t.entries i).key ≡ some key) (at : IsAt t.capacity (main_pos t) t.entries i i)
    (atd : IsAt t.capacity (main_pos t) t.entries i d) (next : (t.entries i).next ≡ d)
    (id_ : (i == d) ≡ false) where
  abbrev E : Memory
  E = t.entries

  -- Without the second, then without the first, then with the second for the first.
  abbrev less : Memory
  less =
      update (update E i (record (E i) { next = (E d).next })) d
        (record (E d) { key = none; next = invalid })

  abbrev bare : Memory
  bare = update less i vacant

  abbrev after : Memory
  after = update (update E i (E d)) d (record (update E i (E d) d) { key = none; next = invalid })

  di : (d == i) ≡ false
  di = ==_other i d id_

  ci : t.capacity ≤ invalid
  ci = let b = s.bounded in omega arith

  less_i : less i ≡ record (E i) { next = (E d).next }
  less_i = rw (di, ==_refl i) refl

  less_d : less d ≡ record (E d) { key = none; next = invalid }
  less_d = rw (==_refl d) refl

  less_other : (x : ℕ) → (x == i) ≡ false → (x == d) ≡ false → less x ≡ E x
  less_other x o q = let o2 = ==_other x i o in let q2 = ==_other x d q in rw (q2, o2) refl

  after_i : after i ≡ E d
  after_i = rw (di, ==_refl i) refl

  after_d : after d ≡ record (E d) { key = none; next = invalid }
  after_d = rw (==_refl d, id_) refl

  after_other : (x : ℕ) → (x == i) ≡ false → after x ≡ less x
  after_other x o = elim (Bool-cases (x == d)) [
    | inl e ↦ subst (λ y. after y ≡ less y) (sym ((==_iff x d).0 e)) (after_d ∙ sym less_d)
    | inr q ↦
        (let o2 = ==_other x i o in let q2 = ==_other x d q in rw (q2, o2) refl)
        ∙ sym (less_other x o q)
  ]

  less-IsValid : IsValid t.capacity (main_pos t) less
  less-IsValid =
      remove_after t.capacity (main_pos t) E less i d i at next
        (let low = atd.0 in let c = ci in ground arith) id_ id_ (ap (λ y. y.next) less_i)
        (ap (λ y. y.key) less_i, ap (λ y. y.hash) less_i) (ap (λ y. is_null y.key) less_d)
        (ap (λ y. y.next) less_d) less_other ci s.valid

  after-IsValid : IsValid t.capacity (main_pos t) after
  after-IsValid =
      refill t.capacity (main_pos t) less after i i
        (
          at.0,
          (ap (λ y. is_null y.key) less_i ∙ at.1.0, ap (λ y. main_pos t y.hash) less_i ∙ at.1.1),
        )
        (
          at.0,
          (
            ap (λ y. is_null y.key) after_i ∙ atd.1.0,
            ap (λ y. main_pos t y.hash) after_i ∙ atd.1.1,
          ),
        )
        (ap (λ y. y.next) after_i ∙ sym (ap (λ y. y.next) less_i)) after_other less-IsValid

  less-Grows : Grows t.capacity less E d
  less-Grows = record {
    inside = atd.0;
    empty = ap (λ y. is_null y.key) less_d;
    others = λ x q. elim (Bool-cases (x == i)) [
      | inl e ↦
          subst (λ y. IsCopy (E y) (less y)) (sym ((==_iff x i).0 e))
            (
              sym (ap (λ y. y.key) less_i),
              sym (ap (λ y. y.hash) less_i),
              sym (ap (λ y. y.value) less_i),
            )
      | inr o ↦ IsCopy-of (E x) (less x) (sym (less_other x o q))
    ];
  }

  bare_other : (x : ℕ) → (x == i) ≡ false → bare x ≡ less x
  bare_other x o = let o2 = ==_other x i o in rw o2 refl

  bare_empty : is_null (bare i).key ≡ true
  bare_empty = rw (==_refl i) refl

  bare-Grows : Grows t.capacity bare less i
  bare-Grows = record {
    inside = at.0;
    empty = bare_empty;
    others = λ x o. IsCopy-of (less x) (bare x) (sym (bare_other x o));
  }

  after-Grows : Grows t.capacity bare after i
  after-Grows = record {
    inside = at.0;
    empty = bare_empty;
    others = λ x o. IsCopy-of (after x) (bare x) (after_other x o ∙ sym (bare_other x o));
  }

  less-IsKeyed : IsKeyed t.capacity less
  less-IsKeyed = shrink-IsKeyed t.capacity less E d less-Grows s.keyed

  after-IsKeyed : IsKeyed t.capacity after
  after-IsKeyed =
      grow-IsKeyed t.capacity bare after i after-Grows
        (λ k e.
          ap (λ y. y.hash) after_i ∙ s.keyed.hashed d atd.0 k (ap (λ y. y.key) (sym after_i) ∙ e))
        (λ k v e h.
          gone t.capacity less E d less-Grows k v s.keyed (ap (λ y. y.key) (sym after_i) ∙ e)
            (kept t.capacity bare less i bare-Grows k v h))
        (shrink-IsKeyed t.capacity bare less i bare-Grows less-IsKeyed)

  -- The second has another key.
  other_key : (k : List ℕ) → (E d).key ≡ some k → ¬ (k ≡ key)
  other_key k e same =
      let z = (==_iff i d).1 (s.keyed.unique i d key at.0 atd.0 is_key (e ∙ ap some same)) in cc

  after_holds : (k v : List ℕ) → Holds t.capacity after k v ↔ (Has t k v × ¬ (k ≡ key))
  after_holds k v = (
    λ h. elim (split_holds t.capacity bare after i after-Grows k v h) [
      | inl there ↦ (
        kept t.capacity less E d less-Grows k v (kept t.capacity bare less i bare-Grows k v there),
        λ e.
            gone t.capacity bare less i bare-Grows k v less-IsKeyed
              (ap (λ y. y.key) less_i ∙ is_key ∙ ap some (sym e)) there,
      )
      | inr (e, w) ↦
          let e2 = ap (λ y. y.key) (sym after_i) ∙ e in
          ((d, atd.0, e2, ap (λ y. y.value) (sym after_i) ∙ w), other_key k e2)
    ],
    λ (h, other). elim (split_holds t.capacity less E d less-Grows k v h) [
      | inl there ↦ elim (split_holds t.capacity bare less i bare-Grows k v there) [
        | inl left ↦ kept t.capacity bare after i after-Grows k v left
        | inr (e, _) ↦ absurd (other (unwrap k key (sym e ∙ ap (λ y. y.key) less_i ∙ is_key)))
      ]
      | inr (e, w) ↦ (i, at.0, ap (λ y. y.key) after_i ∙ e, ap (λ y. y.value) after_i ∙ w)
    ],
  )

  still_empty_there :
      (x : ℕ)
      → (x == d) ≡ false
      → is_null (after x).key ≡ true
      → (is_null (E x).key ≡ true) × ((after x).hash ≡ (E x).hash)
  still_empty_there x q m =
      let o : (x == i) ≡ false =
        ==_other i x (
          differ t.capacity (main_pos t) after i x (ap (λ y. is_null y.key) after_i ∙ atd.1.0) m) in
      let w = after_other x o ∙ less_other x o q in
      (ap (λ y. is_null y.key) (sym w) ∙ m, ap (λ y. y.hash) w)

  still_free : is_null (E t.free_index).key ≡ true → is_null (after t.free_index).key ≡ true
  still_free m =
      let o = ==_other i t.free_index (differ t.capacity (main_pos t) E i t.free_index at.1.0 m) in
      let q = ==_other d t.free_index (differ t.capacity (main_pos t) E d t.free_index atd.1.0 m) in
      ap (λ y. is_null y.key) (after_other t.free_index o ∙ less_other t.free_index o q) ∙ m

  pub unlink_first : Removes t key (unlink t none i)
  unfolding unlink
  unlink_first = (
    record t { free_index = if ltb d t.free_index then d else t.free_index; entries = after },
    (let bi = lt→ltb i t.capacity at.0 in
        let bd = lt→ltb d t.capacity atd.0 in
        let low = atd.0 in
        let c = ci in
        let n : (d == invalid) ≡ false = ground arith in rw (unlink, bi, next, n, bd) refl),
    record {
      size = s.size;
      sized = s.sized;
      bounded = s.bounded;
      valid = after-IsValid;
      keyed = after-IsKeyed;
      free =
          lowered-IsFree t.capacity (main_pos t) E after t.free_index d atd.0
            (ap (λ y. is_null y.key) after_d) still_empty_there still_free s.free;
    },
    after_holds,
  )
