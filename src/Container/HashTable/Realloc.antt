-- ===== src/Container/HashTable/Realloc.antt =====
-- `hash_table_realloc` keeps what the table holds (src/common/container/eqp_hash_table.c).
use eqp.Common.{
  ℕ, ◌+◌, ◌-◌, ◌≤◌, ◌<◌, ◌≡◌, refl, sym, ap, ◌∙◌, true, false, some, List, ◌==◌, arith, inl, inr,
  Bool-cases, ==_iff, lt→ltb,
}
use eqp.Container.HashTable.{HashTable, invalid, is_null, main_pos, rehash_one}
use eqp.Container.HashTable.Slots.{has, length-NoDup, ==_other}
use eqp.Container.HashTable.Seg.{Memory}
use eqp.Container.HashTable.Valid.{IsAt, differ}
use eqp.Container.HashTable.Loops.{walk_lem}
use eqp.Container.HashTable.Content.{IsKeyed}
use eqp.Container.HashTable.Free.{stays-IsFree, empties_fill}
use eqp.Container.HashTable.Room.{evict_lem}
use eqp.Container.HashTable.Sound.{Has, main_pos_lt}
use eqp.Container.HashTable.Placing.{
  filled, headed, tied, first-Placed, first_other, first_home, head-Placed, head_in_use, head_keeps,
  tail-Placed, tail_in_use, tail_keeps,
}
use eqp.Container.HashTable.Rehash.{
  IsRehashed, rehash_one-stay, rehash_one-skip, rehash_one-evict, rehash_one-link, copied-IsKeyed,
  copied_there, copied_back, skipped,
}

abbrev pub Next : ℕ → Memory → ℕ → HashTable → Type 0
Next n old i t = (u : HashTable) × (rehash_one (old i) t ≡ some u) × IsRehashed n old (i + 1) u

module _ (n : ℕ) (old : Memory) (i : ℕ) (t : HashTable) (r : IsRehashed n old i t) (low : i < n)
    (kd : IsKeyed n old) where
  abbrev pos : ℕ
  pos = main_pos t (old i).hash

  pos_low : pos < t.capacity
  pos_low = main_pos_lt t r.size (old i).hash r.sized r.bounded

  small : t.capacity ≤ invalid
  small = let b = r.bounded in omega arith

  -- The slot is empty.
  pub rehash_empty : is_null (t.entries pos).key ≡ true → Next n old i t
  rehash_empty np =
      let b = lt→ltb pos t.capacity pos_low in
      let E = t.entries in
      let o = old i in
      let f = t.free_index in
      let F = filled E pos o in
      let p = first-Placed t o small r.valid pos_low np in
      let other = first_other t o small r.valid pos_low np in
      let own = first_home t o small r.valid pos_low np in
      let same = λ (k v : List ℕ) (h : Has t k v). h in
      elim (Bool-cases (pos == f)) [
        | inl e ↦
            let w = (==_iff pos f).0 e in
            let (u, q, next) =
              skipped n old i t r low kd E F pos same same p.grows p.copy p.valid r.keyed p.fills
                (λ m. ap (λ y. main_pos t (F y).hash) (sym w) ∙ own ∙ w)
                (λ s l m. ap (λ y. is_null y.key) (other s (ground arith)) ∙ m) in
            (u, rehash_one-skip o t b np e q, next)
        | inr e ↦
            let still : is_null (F f).key ≡ true =
              ap (λ y. is_null y.key) (other f (==_other pos f e)) ∙ r.free_empty in
            let enough = r.room in
            let count =
              empties_fill (t.capacity - (f + 1)) (f + 1) pos E F
                (λ s n2 m. ap (λ y. is_null y.key) (other s n2) ∙ m) in
            (
              record t { entries = F },
              rehash_one-stay o t b np e,
              record {
                size = r.size;
                sized = r.sized;
                bounded = r.bounded;
                doubled = r.doubled;
                valid = p.valid;
                keyed = copied-IsKeyed n old i t r low kd E F pos same same p.grows p.copy r.keyed;
                free = stays-IsFree t.capacity (main_pos t) E F f r.free p.fills (inr still);
                free_low = r.free_low;
                free_empty = still;
                room = omega arith;
                there = copied_there n old i t r low kd E F pos same same p.grows p.copy;
                back = copied_back n old i t r low kd E F pos same same p.grows p.copy;
              },
            )
      ]

  -- An entry of another hash stands in the slot.
  pub rehash_evicting :
      is_null (t.entries pos).key ≡ false
      → (main_pos t (t.entries pos).hash == pos) ≡ false
      → Next n old i t
  rehash_evicting np mp =
      let E = t.entries in
      let o = old i in
      let f = t.free_index in
      let (R, D, ev, m, same, rp) =
        evict_lem t (main_pos t (E pos).hash) pos small r.valid (pos_low, (np, refl)) mp r.free_low
          r.free_empty in
      let fp : (f == pos) ≡ false =
        ==_other pos f (differ t.capacity (main_pos t) E pos f np r.free_empty) in
      let p = head-Placed t o small r.valid pos_low R D f m same fp np in
      let taken = head_in_use t o small r.valid pos_low R D f m same fp np in
      let (u, w, next) =
        skipped n old i t r low kd D (headed R pos o) pos m.there m.back p.grows p.copy p.valid
          (m.keyed r.keyed) p.fills (λ z. absurd (cc))
          (λ s l z. head_keeps t o small r.valid pos_low R D f m same fp np s (ground arith) z) in
      (u, rehash_one-evict o t R (lt→ltb pos t.capacity pos_low) np mp ev w, next)

  -- The chain of the hash gets longer.
  pub rehash_linking :
      is_null (old i).key ≡ false
      → is_null (t.entries pos).key ≡ false
      → (main_pos t (t.entries pos).hash == pos) ≡ true
      → Next n old i t
  rehash_linking live np mp =
      let c = t.capacity in
      let E = t.entries in
      let o = old i in
      let f = t.free_index in
      let at : IsAt c (main_pos t) E pos pos =
        (pos_low, (np, (==_iff (main_pos t (E pos).hash) pos).0 mp)) in
      let (xs, k, inside) = r.valid.chain_of pos pos at in
      let below = λ (x : ℕ) (h : has x xs ≡ true). (k.members x h).0 in
      let ci = small in
      let pl = pos_low in
      let (a, w, ina, last) =
        walk_lem t c pos invalid invalid xs k.way below (inl refl) (ground arith)
          (length-NoDup c xs k.different below) in
      let ata = k.members a ina in
      let p = tail-Placed t o small r.valid pos_low a ata last live r.free_low r.free_empty in
      let taken = tail_in_use t o small r.valid pos_low a ata last live r.free_low r.free_empty in
      let same = λ (k v : List ℕ) (h : Has t k v). h in
      let (u, w2, next) =
        skipped n old i t r low kd E (filled (tied t a) f o) f same same p.grows p.copy p.valid
          r.keyed p.fills (λ z. absurd (cc))
          (λ s l z.
            tail_keeps t o small r.valid pos_low a ata last live r.free_low r.free_empty s
              (ground arith) z) in
      (
        u,
        rehash_one-link o t a (lt→ltb pos c pos_low) np mp w (lt→ltb a c ata.0)
            (lt→ltb f c r.free_low) w2,
        next,
      )
