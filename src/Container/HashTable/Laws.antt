-- ===== src/Container/HashTable/Laws.antt =====
-- What the operations of the hash table promise each other
-- (src/common/container/eqp_hash_table.c).
use mathlib.Core.Option.{some-injective}
use eqp.Common.{
  ℕ, ◌^◌, ◌≡◌, ◌⊎◌, ◌↔◌, refl, sym, ap, ◌∙◌, Bool, true, false, Option, none, some, List, arith,
  inl, inr, Option-cases, Bool-cases, subst, ltb,
}
use eqp.Container.HashTable.{
  HashTable, create, alloc, blank, block_size, ent_size_of, invalid, default_capacity, set_by_cstr,
  get_by_cstr, remove_by_cstr,
}
use eqp.Container.HashTable.Sound.{IsSound, Has}
use eqp.Container.HashTable.Grow.{CanGrow, set_by_cstr_lem}
use eqp.Container.HashTable.Get.{get_by_cstr_lem}
use eqp.Container.HashTable.Remove.{remove_by_cstr_lem}

blank-IsSound : (elem_size ent_size : ℕ) → IsSound (blank default_capacity elem_size ent_size)
blank-IsSound elem_size ent_size = record {
  size = 1;
  sized = refl;
  bounded = omega arith;
  valid = record { chain_of = λ p x (_, (n, _)). absurd (cc); cleared = λ x _ _. refl };
  keyed = record { hashed = λ x _ k e. absurd (cc); unique = λ x y k _ _ e _. absurd (cc) };
  free = record { empty = inr (omega arith, refl); lost = λ x _ _ l. absurd (omega arith) };
}

-- A new table is sound, when its block can be made.
pub create-IsSound : (n : ℕ) (t : HashTable) → create n ≡ some t → IsSound t
unfolding create alloc
create-IsSound n t e =
    elim (Bool-cases (ltb (block_size default_capacity (ent_size_of n)) (2 ^ 32))) [
      | inl fits ↦
          subst IsSound
            (some-injective (blank default_capacity n (ent_size_of n)) t
              ((rw (create, alloc, fits) refl) ∙ e))
            (blank-IsSound n (ent_size_of n))
      | inr wraps ↦ absurd (let f : none ≡ some t = (rw (create, alloc, wraps) refl) ∙ e in cc)
    ]

-- Two tables where the second holds for a key what the first does return the same for it.
same_get :
    (t u : HashTable) (key : List ℕ)
    → IsSound t
    → IsSound u
    → ((v : List ℕ) → Has u key v ↔ Has t key v)
    → get_by_cstr u key ≡ get_by_cstr t key
same_get t u key s r same =
    let (o, e, oh) = get_by_cstr_lem t key s in
    let (p, f, ph) = get_by_cstr_lem u key r in
    f
    ∙ ap some (
        agree o p
          (λ v. (λ h. (oh v).1 ((same v).0 ((ph v).0 h)), λ h. (ph v).1 ((same v).1 ((oh v).0 h)))))
    ∙ sym e
  where
    agree : (o p : Option (List ℕ)) → ((v : List ℕ) → (p ≡ some v) ↔ (o ≡ some v)) → p ≡ o
    agree none none h = refl
    agree none (some x) h = absurd (let z = (h x).0 refl in cc)
    agree (some x) none h = absurd (let z = (h x).1 refl in cc)
    agree (some x) (some y) h = sym ((h y).0 refl)

found_value :
    (t : HashTable) (key v : List ℕ) → IsSound t → Has t key v → get_by_cstr t key ≡ some (some v)
found_value t key v s h = let (o, e, oh) = get_by_cstr_lem t key s in e ∙ ap some ((oh v).1 h)

-- After a key and a value were set in a sound table, whether it grew or not, every other key gives what it gave before; and the key gives the value that it had, when it was in
-- the table and `set` returned false, or else the new one, when `set` returned true. Where the free
-- index is FREE_INDEX_INVALID, so that the table may have to grow, it must have at most 2^30 slots,
-- and the block with twice as many must be smaller than 2^32 bytes.
pub get_by_cstr-set_by_cstr :
    (t : HashTable) (key value : List ℕ)
    → IsSound t
    → (t.free_index ≡ invalid → CanGrow t)
    → (b : Bool) × (u : HashTable) × (set_by_cstr t key value ≡ some (b, u))
      × IsSound u
      × ((k : List ℕ) → ¬ (k ≡ key) → get_by_cstr u k ≡ get_by_cstr t k)
      × (((b ≡ false) × (get_by_cstr u key ≡ get_by_cstr t key) × ¬ (get_by_cstr t key ≡ some none))
          ⊎ ((b ≡ true)
              × (get_by_cstr u key ≡ some (some value))
              × (get_by_cstr t key ≡ some none)))
get_by_cstr-set_by_cstr t key value s small =
    let (b, u, e, r, result) = set_by_cstr_lem t key value s small in
    (
      b,
      u,
      e,
      r,
      elim result [
        | inl (_, _, same) ↦ λ k other. same_get t u k s r (λ v. same k v)
        | inr (_, _, new) ↦ λ k other. same_get t u k s r (λ v. (
          λ h. elim ((new k v).0 h) [ inl old ↦ old | inr (w, _) ↦ absurd (other w) ],
          λ h. (new k v).1 (inl h),
        ))
      ],
      elim result [
        | inl (f, (v, h), same) ↦ inl (
          f,
          same_get t u key s r (λ v. same key v),
          λ missing. let found = found_value t key v s h in some_none v (sym found ∙ missing),
        )
        | inr (f, absent, new) ↦
            inr
              (f, found_value u key value r ((new key value).1 (inr (refl, refl))), nothing absent)
      ],
    )
  where
    some_none : (v : List ℕ) → some (some v) ≡ some none → ⊥
    some_none v h = cc

    nothing : ((v : List ℕ) → ¬ Has t key v) → get_by_cstr t key ≡ some none
    nothing absent =
        let (o, e, oh) = get_by_cstr_lem t key s in
        e ∙ elim (Option-cases o) [
          | inl none_ ↦ ap some none_
          | inr (v, is_v) ↦ absurd (absent v ((oh v).0 is_v))
        ]

-- After a key was removed from a sound table, the key gives NULL and every other key what it gave
-- before.
pub get_by_cstr-remove_by_cstr :
    (t : HashTable) (key : List ℕ)
    → IsSound t
    → (u : HashTable) × (remove_by_cstr t key ≡ some u)
      × IsSound u
      × (get_by_cstr u key ≡ some none)
      × ((k : List ℕ) → ¬ (k ≡ key) → get_by_cstr u k ≡ get_by_cstr t k)
get_by_cstr-remove_by_cstr t key s =
    let (u, e, r, left) = remove_by_cstr_lem t s key in
    (
      u,
      e,
      r,
      gone_now u r (λ v h. ((left key v).0 h).1 refl),
      λ k other. same_get t u k s r (λ v. (λ h. ((left k v).0 h).0, λ h. (left k v).1 (h, other))),
    )
  where
    gone_now :
        (u : HashTable) → IsSound u → ((v : List ℕ) → ¬ Has u key v) → get_by_cstr u key ≡ some none
    gone_now u r absent =
        let (o, e, oh) = get_by_cstr_lem u key r in
        e ∙ elim (Option-cases o) [
          | inl none_ ↦ ap some none_
          | inr (v, is_v) ↦ absurd (absent v ((oh v).0 is_v))
        ]
