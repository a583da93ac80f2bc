-- ===== src/Container/HashTable/Set.antt =====
-- `hash_table_do_set` where the slot of the hash is empty (src/common/container/eqp_hash_table.c).
use eqp.Common.{
  ℕ, suc, ◌≤◌, ◌≡◌, refl, sym, ap, subst, ◌∙◌, Bool, true, false, Option, some, List, ◌==◌, arith,
  inl, inr, Bool-cases, ==_iff, ltb, lt→ltb,
}
use eqp.Container.HashTable.{
  Entry, HashTable, invalid, is_null, main_pos, calc_hash, do_insert, do_set,
}
use eqp.Container.HashTable.Slots.{==_other}
use eqp.Container.HashTable.Seg.{Memory}
use eqp.Container.HashTable.Content.{Holds, IsKeyed}
use eqp.Container.HashTable.Free.{stays-IsFree, advance_lem, IsFree}
use eqp.Container.HashTable.Placing.{filled, Placed, first-Placed, first_other}
use eqp.Container.HashTable.Get.{absent_empty}
use eqp.Container.HashTable.Sound.{IsSound, Has, SetResult, main_pos_lt, stored, stored-IsKeyed}

-- The table comes back, sound, with what it then holds.
abbrev pub Sets : HashTable → List ℕ → List ℕ → Option (Bool × HashTable) → Type 0
Sets t key value result =
    (b : Bool) × (u : HashTable) × (result ≡ some (b, u)) × IsSound u × SetResult t u key value b

-- What is to be stored.
abbrev pub new_entry : List ℕ → List ℕ → Entry
new_entry key value = record { key = some key; hash = calc_hash key; next = invalid; value = value }

-- The key is new, and stands in slot `x` of `F`; `D` holds what the table did.
module _ (t : HashTable) (s : IsSound t) (key value : List ℕ) (D F : Memory) (x : ℕ)
    (p : Placed t.capacity (main_pos t) t.entries D F x (new_entry key value))
    (there : (k v : List ℕ) → Has t k v → Holds t.capacity D k v)
    (back : (k v : List ℕ) → Holds t.capacity D k v → Has t k v)
    (fresh : (v : List ℕ) → ¬ Has t key v) where
  pub stored_result :
      (j : ℕ) → SetResult t (record t { free_index = j; entries = F }) key value true
  stored_result j =
      let (ck, _, cv) = p.copy in
      inr (refl, fresh, stored t.capacity t.entries D F x key value there back p.grows ck cv fresh)

  pub stored-IsSound :
      (j : ℕ)
      → IsKeyed t.capacity D
      → IsFree t.capacity (main_pos t) F j
      → IsSound (record t { free_index = j; entries = F })
  stored-IsSound j kd free =
      let (ck, ch, cv) = p.copy in
      record {
        size = s.size;
        sized = s.sized;
        bounded = s.bounded;
        valid = p.valid;
        keyed =
            stored-IsKeyed t.capacity t.entries D F x key value there back p.grows ck cv fresh ch
              kd;
        free = free;
      }

-- The slot of the hash is empty.
pub set_empty :
    (t : HashTable) (fuel : ℕ) (key value : List ℕ)
    → IsSound t
    → is_null (t.entries (main_pos t (calc_hash key))).key ≡ true
    → Sets t key value (do_set (suc fuel) t key value (calc_hash key))
unfolding do_set do_insert
set_empty t fuel key value s np =
    let c = t.capacity in
    let home = main_pos t in
    let E = t.entries in
    let f = t.free_index in
    let o = new_entry key value in
    let pos = home o.hash in
    let low = main_pos_lt t s.size o.hash s.sized s.bounded in
    let bp : ltb pos c ≡ true = lt→ltb pos c low in
    let ci : c ≤ invalid = let b = s.bounded in omega arith in
    let F = filled E pos o in
    let p = first-Placed t o ci s.valid low np in
    let others = first_other t o ci s.valid low np in
    let fresh = absent_empty t s key np in
    let same = λ (k v : List ℕ) (h : Has t k v). h in
    elim (Bool-cases (pos == f)) [
      | inl e ↦
          let w = (==_iff pos f).0 e in
          let (j, q, free) =
            advance_lem t home E F (omega arith) ci s.free p.fills
              (subst (λ y. is_null (F y).key ≡ false) w (ap is_null p.copy.0))
              (λ x l. ap (λ y. is_null y.key) (sym (others x (ground arith)))) in
          (
            true,
            record t { free_index = j; entries = F },
            rw (do_set, bp, np, e, q, do_insert, bp) refl,
            stored-IsSound t s key value E F pos p same same fresh j s.keyed free,
            stored_result t s key value E F pos p same same fresh j,
          )
      | inr n ↦
          let free = stays-IsFree c home E F f s.free p.fills (elim s.free.empty [
            | inl i ↦ inl i
            | inr (_, m) ↦ inr (ap (λ y. is_null y.key) (others f (==_other pos f n)) ∙ m)
          ]) in
          (
            true,
            record t { entries = F },
            rw (do_set, bp, np, n, do_insert, bp) refl,
            stored-IsSound t s key value E F pos p same same fresh f s.keyed free,
            stored_result t s key value E F pos p same same fresh f,
          )
    ]
