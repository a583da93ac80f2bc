-- ===== src/Container/HashTable/Unlink.antt =====
-- The end of `hash_table_remove_by_cstr`, where the key was found, but for the first slot of a chain
-- (src/common/container/eqp_hash_table.c).
use eqp.Common.{
  ℕ, ◌≤◌, ◌<◌, ◌≡◌, ◌↔◌, refl, sym, ap, subst, ◌∙◌, true, false, Option, none, some, List, ◌==◌,
  if◌then◌else◌, arith, inl, inr, Bool-cases, ==_refl, ==_iff, ltb, lt→ltb, update,
}
use eqp.Container.HashTable.{HashTable, invalid, is_null, main_pos, calc_hash, unlink, set_next}
use eqp.Container.HashTable.Slots.{==_other}
use eqp.Container.HashTable.Seg.{Memory}
use eqp.Container.HashTable.Valid.{IsAt, differ, remove_only}
use eqp.Container.HashTable.Links.{remove_after}
use eqp.Container.HashTable.Content.{
  Holds, IsKeyed, IsCopy, IsCopy-of, Grows, kept, split_holds, shrink-IsKeyed, gone,
}
use eqp.Container.HashTable.Free.{IsFree, Fills, stays-IsFree}
use eqp.Container.HashTable.Sound.{IsSound, Has}

-- The table comes back, sound, with all that it held but for the key.
abbrev pub Removes : HashTable → List ℕ → Option HashTable → Type 0
Removes t key result =
    (u : HashTable) × (result ≡ some u)
    × IsSound u
    × ((k v : List ℕ) → Has u k v ↔ (Has t k v × ¬ (k ≡ key)))

pub unwrap : (x y : List ℕ) → some x ≡ some y → x ≡ y
unwrap x y e = ap (λ o. elim o [ none ↦ x | some z ↦ z ]) e

pub removed :
    (c : ℕ) (E F : Memory) (i : ℕ) (key : List ℕ)
    → Grows c F E i
    → IsKeyed c E
    → (E i).key ≡ some key
    → (k v : List ℕ) → Holds c F k v ↔ (Holds c E k v × ¬ (k ≡ key))
removed c E F i key g kd is_key k v = (
  λ h. (kept c F E i g k v h, λ e. gone c F E i g k v kd (is_key ∙ ap some (sym e)) h),
  λ (h, other). elim (split_holds c F E i g k v h) [
    | inl there ↦ there
    | inr (e, _) ↦ absurd (other (unwrap k key (sym e ∙ is_key)))
  ],
)

-- The free index, when slot `i` was freed and lies before it.
pub lowered-IsFree :
    (c : ℕ) (home : ℕ → ℕ) (E F : Memory) (n i : ℕ)
    → i < c
    → is_null (F i).key ≡ true
    → ((s : ℕ)
        → (s == i) ≡ false
        → is_null (F s).key ≡ true
        → (is_null (E s).key ≡ true) × ((F s).hash ≡ (E s).hash))
    → (is_null (E n).key ≡ true → is_null (F n).key ≡ true)
    → IsFree c home E n
    → IsFree c home F (if ltb i n then i else n)
lowered-IsFree c home E F n i b m empty still free = elim (Bool-cases (ltb i n)) [
  | inl before ↦ rw before (record {
    empty = inr (b, m);
    lost = λ s bs ms l.
        let (me, he) = empty s (ground arith) ms in ap home he ∙ free.lost s bs me (ground arith);
  })
  | inr behind ↦ rw behind (record {
    empty = elim free.empty [ inl e ↦ inl e | inr (bn, mn) ↦ inr (bn, still mn) ];
    lost =
        λ s bs ms l. let (me, he) = empty s (ground arith) ms in ap home he ∙ free.lost s bs me l;
  })
]

module _ (t : HashTable) (s : IsSound t) (key : List ℕ) (i : ℕ)
    (is_key : (t.entries i).key ≡ some key) where
  abbrev pos : ℕ
  pos = main_pos t (calc_hash key)

  pub small : t.capacity ≤ invalid
  small = let b = s.bounded in omega arith

  pub taken : is_null (t.entries i).key ≡ false
  taken = ap is_null is_key

  -- From the middle or the end of a chain.
  pub unlink_after :
      (a : ℕ)
      → i < t.capacity
      → IsAt t.capacity (main_pos t) t.entries pos a
      → (t.entries a).next ≡ i
      → (a == i) ≡ false
      → (pos == i) ≡ false
      → Removes t key (unlink t (some a) i)
  unfolding unlink set_next
  unlink_after a low ata next ai pi =
      let E = t.entries in
      let c = t.capacity in
      let home = main_pos t in
      let R : Memory = update E a (record (E a) { next = (E i).next }) in
      let F : Memory = update R i (record (R i) { key = none; next = invalid }) in
      let ia = ==_other a i ai in
      let at_a : F a ≡ record (E a) { next = (E i).next } = rw (ia, ==_refl a) refl in
      let at_i : F i ≡ record (E i) { key = none; next = invalid } = rw (==_refl i, ai) refl in
      let others : (x : ℕ) → (x == a) ≡ false → (x == i) ≡ false → F x ≡ E x =
        λ x o q. let o2 = ==_other x a o in let q2 = ==_other x i q in rw (q2, o2) refl in
      let copies : (x : ℕ) → (x == i) ≡ false → IsCopy (F x) (E x) = λ x o.
        elim (Bool-cases (x == a)) [
          | inl e ↦
              subst (λ y. IsCopy (F y) (E y)) (sym ((==_iff x a).0 e))
                (ap (λ y. y.key) at_a, ap (λ y. y.hash) at_a, ap (λ y. y.value) at_a)
          | inr q ↦ IsCopy-of (F x) (E x) (others x q o)
        ] in
      let g : Grows c F E i = record {
        inside = low;
        empty = ap (λ y. is_null y.key) at_i;
        others = λ x o. let (ck, ch, cv) = copies x o in (sym ck, sym ch, sym cv);
      } in
      let valid =
        remove_after c home E F a i pos ata next (ground arith) ai pi (ap (λ y. y.next) at_a)
          (ap (λ y. y.key) at_a, ap (λ y. y.hash) at_a) (ap (λ y. is_null y.key) at_i)
          (ap (λ y. y.next) at_i) others small s.valid in
      let free =
        lowered-IsFree c home E F t.free_index i low (ap (λ y. is_null y.key) at_i)
          (λ x o m. let (ck, ch, _) = copies x o in (ap is_null (sym ck) ∙ m, ch))
          (λ m.
            let (ck, _, _) =
              copies t.free_index
                (==_other i t.free_index (differ c home E i t.free_index taken m)) in
            ap is_null ck ∙ m)
          s.free in
      (
        record t { free_index = if ltb i t.free_index then i else t.free_index; entries = F },
        (let bi = lt→ltb i c low in
            let ba = lt→ltb a c ata.0 in rw (unlink, bi, set_next, ba, bi) refl),
        record {
          size = s.size;
          sized = s.sized;
          bounded = s.bounded;
          valid = valid;
          keyed = shrink-IsKeyed c F E i g s.keyed;
          free = free;
        },
        removed c E F i key g s.keyed is_key,
      )

  -- The only one of its chain.
  pub unlink_only :
      IsAt t.capacity (main_pos t) t.entries pos i
      → pos ≡ i
      → ((t.entries i).next == invalid) ≡ true
      → Removes t key (unlink t none i)
  unfolding unlink
  unlink_only at pi last =
      let E = t.entries in
      let c = t.capacity in
      let home = main_pos t in
      let F : Memory = update E i (record (E i) { key = none; next = invalid }) in
      let at_i : F i ≡ record (E i) { key = none; next = invalid } = rw (==_refl i) refl in
      let others : (x : ℕ) → (x == i) ≡ false → F x ≡ E x =
        λ x o. let o2 = ==_other x i o in rw o2 refl in
      let own : home (E i).hash ≡ i = at.1.1 ∙ pi in
      let valid =
        remove_only c home E F i at.0 taken own ((==_iff (E i).next invalid).0 last)
          (ap (λ y. is_null y.key) at_i) (ap (λ y. y.next) at_i) others small s.valid in
      let g : Grows c F E i = record {
        inside = at.0;
        empty = ap (λ y. is_null y.key) at_i;
        others = λ x o. IsCopy-of (E x) (F x) (sym (others x o));
      } in
      let fills : Fills home E F = λ x m. elim (Bool-cases (x == i)) [
        | inl e ↦
            let w = (==_iff x i).0 e in
            inl (ap (λ y. home (F y).hash) w ∙ ap (λ y. home y.hash) at_i ∙ own ∙ sym w)
        | inr o ↦
            inr (ap (λ y. is_null y.key) (sym (others x o)) ∙ m, ap (λ y. y.hash) (others x o))
      ] in
      let free = stays-IsFree c home E F t.free_index s.free fills (elim s.free.empty [
        | inl e ↦ inl e
        | inr (_, m) ↦ inr (
            ap (λ y. is_null y.key)
              (others t.free_index
                (==_other i t.free_index (differ c home E i t.free_index taken m)))
            ∙ m)
      ]) in
      (
        record t { entries = F },
        (let b = lt→ltb i c at.0 in rw (unlink, b, last) refl),
        record {
          size = s.size;
          sized = s.sized;
          bounded = s.bounded;
          valid = valid;
          keyed = shrink-IsKeyed c F E i g s.keyed;
          free = free;
        },
        removed c E F i key g s.keyed is_key,
      )
