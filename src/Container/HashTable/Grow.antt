-- ===== src/Container/HashTable/Grow.antt =====
-- Growing a full hash table, and `hash_table_set_by_cstr` as a whole
-- (src/common/container/eqp_hash_table.c).
use Prim.Native.Nat.{◌∣◌}
use native.Mathlib.Nat.{mod-mod_of_dvd, dvd-mul_left, one-le-pow, pow-suc}
use eqp.Common.{
  ℕ, zero, suc, ◌+◌, ◌-◌, ◌*◌, ◌%◌, ◌^◌, ◌≤◌, ◌<◌, ◌≡◌, ◌↔◌, refl, sym, ap, subst, ◌∙◌, Bool, true,
  false, Option, some, List, ◌==◌, arith, inl, inr, Bool-cases, ==_iff, ltb, lt→ltb,
}
use eqp.Container.HashTable.{
  HashTable, block_size, alloc, invalid, is_null, main_pos, calc_hash, rehash, realloc, blank,
  do_set, set_in, set_by_cstr,
}
use eqp.Container.HashTable.Valid.{IsAt}
use eqp.Container.HashTable.Content.{taken_key}
use eqp.Container.HashTable.Free.{empties_all}
use eqp.Container.HashTable.Sound.{IsSound, Has, SetResult, main_pos_lt, main_pos_mod, head_taken}
use eqp.Container.HashTable.Set.{Sets, set_empty}
use eqp.Container.HashTable.Joining.{set_evicting, set_linking}
use eqp.Container.HashTable.Rehash.{IsRehashed}
use eqp.Container.HashTable.Realloc.{Next, rehash_empty, rehash_evicting, rehash_linking}

-- Hashes that go together in the larger table do so in the smaller one.
same_home : (m twice h k : ℕ) → twice ≡ 2 * m → h % twice ≡ k % twice → h % m ≡ k % m
same_home m twice h k d e = sym (half h) ∙ ap (λ y. y % m) e ∙ half k
  where
    half : (x : ℕ) → x % twice % m ≡ x % m
    half x = mod-mod_of_dvd m x (subst (λ y. m ∣ y) (sym d) (dvd-mul_left m 2))

-- The table has at most 2^30 slots, and the size of the block of twice as many is below 2^32.
abbrev pub CanGrow : HashTable → Type 0
CanGrow t = (t.capacity ≤ 2 ^ 30) × (block_size (t.capacity * 2 % 2 ^ 32) t.ent_size < 2 ^ 32)

module _ (t : HashTable) (s : IsSound t) (full : t.free_index ≡ invalid) where
  -- An empty slot of a full table gets in the way of no entry.
  no_clash :
      (i : ℕ) (u : HashTable) (r : IsRehashed t.capacity t.entries i u)
      → i < t.capacity
      → is_null (u.entries (main_pos u (t.entries i).hash)).key ≡ false
      → (main_pos u (u.entries (main_pos u (t.entries i).hash)).hash
          == main_pos u (t.entries i).hash)
        ≡ true
      → is_null (t.entries i).key ≡ false
  no_clash i u r low np mp = elim (Bool-cases (is_null (t.entries i).key)) [
    | inr live ↦ live
    | inl stale ↦ absurd (
        let pos = main_pos u (t.entries i).hash in
        let (k, is_k) = taken_key (u.entries pos).key np in
        let inside = main_pos_lt u r.size (t.entries i).hash r.sized r.bounded in
        let (x, b, ek, _) = r.back k (u.entries pos).value (pos, inside, is_k, refl) in
        let hk : (u.entries pos).hash ≡ calc_hash k = r.keyed.hashed pos inside k is_k in
        let xk : (t.entries x).hash ≡ calc_hash k = s.keyed.hashed x (omega arith) k ek in
        let together : main_pos u (t.entries x).hash ≡ pos =
          ap (main_pos u) (xk ∙ sym hk) ∙ (==_iff (main_pos u (u.entries pos).hash) pos).0 mp in
        let mods : (t.entries x).hash % 2 ^ r.size ≡ (t.entries i).hash % 2 ^ r.size =
          sym (main_pos_mod u r.size (t.entries x).hash r.sized r.bounded)
          ∙ together
          ∙ main_pos_mod u r.size (t.entries i).hash r.sized r.bounded in
        let twice : 2 ^ r.size ≡ 2 * 2 ^ s.size =
          sym r.sized ∙ r.doubled ∙ ap (λ (y : ℕ). 2 * y) s.sized in
        let before : main_pos t (t.entries x).hash ≡ main_pos t (t.entries i).hash =
          main_pos_mod t s.size (t.entries x).hash s.sized s.bounded
          ∙ same_home (2 ^ s.size) (2 ^ r.size) (t.entries x).hash (t.entries i).hash twice mods
          ∙ sym (main_pos_mod t s.size (t.entries i).hash s.sized s.bounded) in
        let bounds = s.bounded in
        let own : main_pos t (t.entries i).hash ≡ i = s.free.lost i low stale (omega arith) in
        let at : IsAt t.capacity (main_pos t) t.entries i x =
          (omega arith, (ap is_null ek, before ∙ own)) in
        let (_, (n, _)) = head_taken t.capacity (main_pos t) t.entries i x s.valid at in cc)
  ]

  round_lem :
      (i : ℕ) (u : HashTable)
      → i < t.capacity
      → IsRehashed t.capacity t.entries i u
      → Next t.capacity t.entries i u
  round_lem i u low r =
      let pos = main_pos u (t.entries i).hash in
      elim (Bool-cases (is_null (u.entries pos).key)) [
        | inl m ↦ rehash_empty t.capacity t.entries i u r low s.keyed m
        | inr m ↦ elim (Bool-cases (main_pos u (u.entries pos).hash == pos)) [
          | inl own ↦
              rehash_linking t.capacity t.entries i u r low s.keyed (no_clash i u r low m own) m own
          | inr other ↦ rehash_evicting t.capacity t.entries i u r low s.keyed m other
        ]
      ]

  rehash_lem :
      (left i : ℕ) (u : HashTable)
      → i + left ≡ t.capacity
      → IsRehashed t.capacity t.entries i u
      → (w : HashTable) × (rehash left i t.entries u ≡ some w)
        × IsRehashed t.capacity t.entries t.capacity w
  unfolding rehash
  rehash_lem zero i u e r =
      (u, refl, subst (λ y. IsRehashed t.capacity t.entries y u) (omega arith) r)
  rehash_lem (suc left) i u e r =
      let (v, q, r2) = round_lem i u (omega arith) r in
      let (w, q2, r3) = rehash_lem left (i + 1) v (omega arith) r2 in (w, rw (rehash, q) q2, r3)

  -- Nothing is in the new table at first.
  blank-IsRehashed :
      t.capacity ≤ 2 ^ 30
      → IsRehashed t.capacity t.entries 0 (blank (t.capacity * 2 % 2 ^ 32) t.elem_size t.ent_size)
  blank-IsRehashed b =
      let u = blank (t.capacity * 2 % 2 ^ 32) t.elem_size t.ent_size in
      let twice : u.capacity ≡ 2 * t.capacity = omega arith in
      let some_one = one-le-pow s.size 2 (omega arith) in
      let sz = s.sized in
      let many = empties_all (u.capacity - 1) 1 u.entries (λ _. refl) in
      record {
        size = suc s.size;
        sized = omega (arith, pow-suc 2 s.size);
        bounded = omega arith;
        doubled = twice;
        valid = record { chain_of = λ p x (_, (n, _)). absurd (cc); cleared = λ x _ _. refl };
        keyed = record { hashed = λ x _ k e. absurd (cc); unique = λ x y k _ _ e _. absurd (cc) };
        free = record { empty = inr (omega arith, refl); lost = λ x _ _ l. absurd (omega arith) };
        free_low = omega arith;
        free_empty = refl;
        room = omega (arith, many);
        there = λ x k l. absurd (omega arith);
        back = λ k v (x, _, e, _). absurd (cc);
      }

  -- The larger table is sound, holds the same and has a free slot.
  pub realloc_lem :
      CanGrow t
      → (u : HashTable) × (realloc t ≡ some u)
        × IsSound u
        × ((u.free_index == invalid) ≡ false)
        × ((k v : List ℕ) → Has u k v ↔ Has t k v)
  unfolding realloc alloc
  realloc_lem (b, whole) =
      let (u, q, r) =
        rehash_lem t.capacity 0 (blank (t.capacity * 2 % 2 ^ 32) t.elem_size t.ent_size)
          (omega arith) (blank-IsRehashed b) in
      let fits : ltb (block_size (t.capacity * 2 % 2 ^ 32) t.ent_size) (2 ^ 32) ≡ true =
        lt→ltb _ (2 ^ 32) whole in
      let fl = r.free_low in
      let cb = r.bounded in
      (
        u,
        rw (realloc, alloc, fits, q) refl,
        record {
          size = r.size;
          sized = r.sized;
          bounded = r.bounded;
          valid = r.valid;
          keyed = r.keyed;
          free = r.free;
        },
        ground arith,
        λ k v. (
          λ h. let (x, l, e, w) = r.back k v h in (x, l, e, w),
          λ (x, l, e, w). subst (λ y. Has u k y) w (r.there x k l e),
        ),
      )

-- Where a slot is free the table does not grow.
set_with_room :
    (t : HashTable) (fuel : ℕ) (key value : List ℕ)
    → IsSound t
    → (t.free_index == invalid) ≡ false
    → Sets t key value (do_set (suc fuel) t key value (calc_hash key))
unfolding do_set
set_with_room t fuel key value s nf =
    let pos = main_pos t (calc_hash key) in
    let b : ltb pos t.capacity ≡ true =
      lt→ltb pos t.capacity (main_pos_lt t s.size (calc_hash key) s.sized s.bounded) in
    elim (Bool-cases (is_null (t.entries pos).key)) [
      | inl m ↦ set_empty t fuel key value s m
      | inr m ↦
          subst (Sets t key value) (sym (the_way pos b m))
            (elim (Bool-cases (main_pos t (t.entries pos).hash == pos)) [
              | inl own ↦ set_linking t s key value m nf own
              | inr other ↦ set_evicting t s key value m nf other
            ])
    ]
  where
    the_way :
        (pos : ℕ)
        → ltb (main_pos t (calc_hash key)) t.capacity ≡ true
        → is_null (t.entries (main_pos t (calc_hash key))).key ≡ false
        → do_set (suc fuel) t key value (calc_hash key)
          ≡ set_in t key value (calc_hash key) (t.entries (main_pos t (calc_hash key)))
    the_way pos b m = rw (do_set, b, m, nf) refl

-- The same result for a table that holds the same.
result_of :
    (t u w : HashTable) (key value : List ℕ) (b : Bool)
    → ((k v : List ℕ) → Has u k v ↔ Has t k v)
    → SetResult u w key value b
    → SetResult t w key value b
result_of t u w key value b same (inl (f, (v, h), all)) = inl (
  f,
  (v, (same key v).0 h),
  λ k v. (λ x. (same k v).0 ((all k v).0 x), λ x. (all k v).1 ((same k v).1 x)),
)
result_of t u w key value b same (inr (f, none_, all)) = inr (
  f,
  λ v h. none_ v ((same key v).1 h),
  λ k v. (
    λ x. elim ((all k v).0 x) [ inl h ↦ inl ((same k v).0 h) | inr e ↦ inr e ],
    λ x. (all k v).1 (elim x [ inl h ↦ inl ((same k v).1 h) | inr e ↦ inr e ]),
  ),
)

-- A sound table takes every key and value, and stays sound: a key that is there already is left with
-- its value, and any other is added to what the table holds. Where its free index is
-- FREE_INDEX_INVALID, it may have to grow: then it must have at most 2^30 slots, and the block with
-- twice as many, of 16 bytes and `entSize` for each slot, must be smaller than 2^32 bytes, so that
-- its size does not go round.
pub set_by_cstr_lem :
    (t : HashTable) (key value : List ℕ)
    → IsSound t
    → (t.free_index ≡ invalid → CanGrow t)
    → Sets t key value (set_by_cstr t key value)
unfolding set_by_cstr do_set
set_by_cstr_lem t key value s small =
    let pos = main_pos t (calc_hash key) in
    let b : ltb pos t.capacity ≡ true =
      lt→ltb pos t.capacity (main_pos_lt t s.size (calc_hash key) s.sized s.bounded) in
    elim (Bool-cases (t.free_index == invalid)) [
      | inr room ↦ set_with_room t 1 key value s room
      | inl full ↦ elim (Bool-cases (is_null (t.entries pos).key)) [
        | inl m ↦ set_empty t 1 key value s m
        | inr m ↦
            let (u, q, su, room, same) =
              realloc_lem t s ((==_iff t.free_index invalid).0 full)
                (small ((==_iff t.free_index invalid).0 full)) in
            let (done, w, q2, sw, result) = set_with_room u 0 key value su room in
            (done, w, grown b m full u q q2, sw, result_of t u w key value done same result)
      ]
    ]
  where
    grown :
        {r : Option (Bool × HashTable)}
        → ltb (main_pos t (calc_hash key)) t.capacity ≡ true
        → is_null (t.entries (main_pos t (calc_hash key))).key ≡ false
        → (t.free_index == invalid) ≡ true
        → (u : HashTable) → realloc t ≡ some u
        → do_set 1 u key value (calc_hash key) ≡ r
        → set_by_cstr t key value ≡ r
    grown b m full u q q2 = rw (set_by_cstr, do_set, b, m, full, q) q2
