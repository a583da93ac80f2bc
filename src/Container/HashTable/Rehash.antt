-- ===== src/Container/HashTable/Rehash.antt =====
-- One round of `hash_table_realloc`: an entry of the old table goes to the new one
-- (src/common/container/eqp_hash_table.c).
use eqp.Common.{
  ℕ, ◌+◌, ◌-◌, ◌*◌, ◌^◌, ◌≤◌, ◌<◌, ◌≡◌, refl, sym, ap, subst, ◌∙◌, true, false, some, List, ◌==◌,
  arith, inl, inr, Bool-cases, ==_iff, ltb,
}
use eqp.Container.HashTable.{
  Entry, HashTable, invalid, is_null, main_pos, do_insert, skip_taken, set_next, rehash_one, walk,
  evict,
}
use eqp.Container.HashTable.Seg.{Memory}
use eqp.Container.HashTable.Valid.{IsValid}
use eqp.Container.HashTable.Content.{Holds, IsKeyed, IsCopy, Grows, kept, split_holds, grow-IsKeyed}
use eqp.Container.HashTable.Free.{IsFree, Fills, skip_lem, empties, empties_keep}
use eqp.Container.HashTable.Placing.{filled, headed, tied}
use eqp.Container.HashTable.Sound.{Has}

-- The new table when the first `i` of `n` old entries are in it. At most `i` of its slots behind the
-- free index have been filled.
pub record IsRehashed (n : ℕ) (old : Memory) (i : ℕ) (t : HashTable) : Type 0 where
  pub size : ℕ
  pub sized : t.capacity ≡ 2 ^ size
  pub bounded : t.capacity ≤ 2 ^ 31
  pub doubled : t.capacity ≡ 2 * n
  pub valid : IsValid t.capacity (main_pos t) t.entries
  pub keyed : IsKeyed t.capacity t.entries
  pub free : IsFree t.capacity (main_pos t) t.entries t.free_index
  pub free_low : t.free_index < t.capacity
  pub free_empty : is_null (t.entries t.free_index).key ≡ true
  pub room :
      t.capacity ≤ i + 1 + empties (t.capacity - (t.free_index + 1)) (t.free_index + 1) t.entries
  pub there : (s : ℕ) (k : List ℕ) → s < i → (old s).key ≡ some k → Has t k (old s).value
  pub back :
      (k v : List ℕ) → Has t k v → (s : ℕ) × (s < i) × ((old s).key ≡ some k) × ((old s).value ≡ v)

pub rehash_one-stay :
    (o : Entry) (t : HashTable)
    → ltb (main_pos t o.hash) t.capacity ≡ true
    → is_null (t.entries (main_pos t o.hash)).key ≡ true
    → (main_pos t o.hash == t.free_index) ≡ false
    → rehash_one o t ≡ some (record t { entries = filled t.entries (main_pos t o.hash) o })
unfolding rehash_one do_insert
rehash_one-stay o t b n e = rw (rehash_one, b, n, do_insert, e) refl

pub rehash_one-skip :
    (o : Entry) (t : HashTable) {u : HashTable}
    → ltb (main_pos t o.hash) t.capacity ≡ true
    → is_null (t.entries (main_pos t o.hash)).key ≡ true
    → (main_pos t o.hash == t.free_index) ≡ true
    → skip_taken (record t { entries = filled t.entries (main_pos t o.hash) o }) ≡ some u
    → rehash_one o t ≡ some u
unfolding rehash_one do_insert
rehash_one-skip o t b n e w = rw (rehash_one, b, n, do_insert, e) w

pub rehash_one-evict :
    (o : Entry) (t : HashTable) (R : Memory) {u : HashTable}
    → ltb (main_pos t o.hash) t.capacity ≡ true
    → is_null (t.entries (main_pos t o.hash)).key ≡ false
    → (main_pos t (t.entries (main_pos t o.hash)).hash == main_pos t o.hash) ≡ false
    → evict t
        (main_pos t (t.entries (main_pos t o.hash)).hash)
        (main_pos t o.hash)
        (t.entries (main_pos t o.hash))
      ≡ some (record t { entries = R })
    → skip_taken (record t { entries = headed R (main_pos t o.hash) o }) ≡ some u
    → rehash_one o t ≡ some u
unfolding rehash_one do_insert set_next
rehash_one-evict o t R b n m e w = rw (rehash_one, b, n, m, e, do_insert, b, set_next, b) w

pub rehash_one-link :
    (o : Entry) (t : HashTable) (a : ℕ) {u : HashTable}
    → ltb (main_pos t o.hash) t.capacity ≡ true
    → is_null (t.entries (main_pos t o.hash)).key ≡ false
    → (main_pos t (t.entries (main_pos t o.hash)).hash == main_pos t o.hash) ≡ true
    → walk t.capacity t (main_pos t o.hash) invalid ≡ some a
    → ltb a t.capacity ≡ true
    → ltb t.free_index t.capacity ≡ true
    → skip_taken (record t { entries = filled (tied t a) t.free_index o }) ≡ some u
    → rehash_one o t ≡ some u
unfolding rehash_one do_insert set_next
rehash_one-link o t a b n m e ba bf w = rw (rehash_one, b, n, m, e, set_next, ba, do_insert, bf) w

module _ (n : ℕ) (old : Memory) (i : ℕ) (t : HashTable) (r : IsRehashed n old i t) (low : i < n)
    (kd : IsKeyed n old) where
  -- No slot has the key of the entry yet.
  pub fresh : (k v : List ℕ) → (old i).key ≡ some k → ¬ Has t k v
  fresh k v e held =
      let (s, b, es, _) = r.back k v held in
      let same = kd.unique s i k (omega arith) low es e in omega arith

  -- What the new table holds when the entry is in slot `x`.
  module _ (D F : Memory) (x : ℕ) (to : (k v : List ℕ) → Has t k v → Holds t.capacity D k v)
      (from : (k v : List ℕ) → Holds t.capacity D k v → Has t k v) (g : Grows t.capacity D F x)
      (copy : IsCopy (F x) (old i)) where
    pub copied-IsKeyed : IsKeyed t.capacity D → IsKeyed t.capacity F
    copied-IsKeyed kdd =
        let (ck, ch, _) = copy in
        grow-IsKeyed t.capacity D F x g (λ k e. ch ∙ kd.hashed i low k (sym ck ∙ e))
          (λ k v e held. fresh k v (sym ck ∙ e) (from k v held)) kdd

    pub copied_there :
        (s : ℕ) (k : List ℕ) → s < i + 1 → (old s).key ≡ some k → Holds t.capacity F k (old s).value
    copied_there s k b e = elim (Bool-cases (s == i)) [
      | inl same ↦
          let w = (==_iff s i).0 same in
          let (ck, _, cv) = copy in
          (
            x,
            g.inside,
            ck ∙ subst (λ y. (old y).key ≡ some k) w e,
            cv ∙ ap (λ y. (old y).value) (sym w),
          )
      | inr o ↦
          kept t.capacity D F x g k (old s).value
            (to k (old s).value (r.there s k (ground arith) e))
    ]

    pub copied_back :
        (k v : List ℕ)
        → Holds t.capacity F k v
        → (s : ℕ) × (s < i + 1) × ((old s).key ≡ some k) × ((old s).value ≡ v)
    copied_back k v held = elim (split_holds t.capacity D F x g k v held) [
      | inl before ↦ let (s, b, e, w) = r.back k v (from k v before) in (s, omega arith, e, w)
      | inr (e, w) ↦ let (ck, _, cv) = copy in (i, omega arith, sym ck ∙ e, sym cv ∙ w)
    ]

    -- With the free slot used up.
    pub skipped :
        IsValid t.capacity (main_pos t) F
        → IsKeyed t.capacity D
        → Fills (main_pos t) t.entries F
        → (is_null (F t.free_index).key ≡ true → main_pos t (F t.free_index).hash ≡ t.free_index)
        → ((s : ℕ)
            → t.free_index + 1 ≤ s
            → is_null (t.entries s).key ≡ true
            → is_null (F s).key ≡ true)
        → (u : HashTable) × (skip_taken (record t { entries = F }) ≡ some u)
          × IsRehashed n old (i + 1) u
    skipped valid kdd fills own keep =
        let f = t.free_index in
        let c = t.capacity in
        let before = empties_keep (c - (f + 1)) (f + 1) t.entries F keep in
        let enough = r.room in
        let double = r.doubled in
        let fl = r.free_low in
        let (j, w, bj, mj, free, count) =
          skip_lem (record t { entries = F }) (main_pos t) t.entries r.free_low r.free fills own
            (omega arith) in
        (
          record t { entries = F; free_index = j },
          w,
          record {
            size = r.size;
            sized = r.sized;
            bounded = r.bounded;
            doubled = r.doubled;
            valid = valid;
            keyed = copied-IsKeyed kdd;
            free = free;
            free_low = bj;
            free_empty = mj;
            room = omega arith;
            there = copied_there;
            back = copied_back;
          },
        )
