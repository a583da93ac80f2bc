-- ===== src/Container/HashTable/Joining.antt =====
-- `hash_table_do_set` where the slot of the hash is taken and the table need not grow
-- (src/common/container/eqp_hash_table.c).
use eqp.Common.{
  ℕ, ◌≤◌, ◌<◌, ◌≡◌, refl, sym, ap, subst, ◌∙◌, true, false, none, some, List, ◌==◌, arith, inl, inr,
  Bool-cases, ==_iff, ltb, lt→ltb, update, update_other,
}
use eqp.Container.HashTable.{
  Entry, HashTable, invalid, is_null, main_pos, calc_hash, fill_from, do_insert, advance_free_index,
  set_next, set_in, search_chain, Place,
}
use eqp.Container.HashTable.Slots.{==_other}
use eqp.Container.HashTable.Valid.{differ, IsChain}
use eqp.Container.HashTable.Loops.{IsMissing}
use eqp.Container.HashTable.Free.{advance_lem}
use eqp.Container.HashTable.Room.{evict_lem}
use eqp.Container.HashTable.Placing.{
  tail_in_use, filled, headed, tied, head-Placed, head_in_use, tail-Placed, head_other, tail_in_use,
}
use eqp.Container.HashTable.Sound.{IsSound, Has, main_pos_lt}
use eqp.Container.HashTable.Get.{search_lem, absent_chain, absent_other}
use eqp.Container.HashTable.Set.{Sets, new_entry, stored_result, stored-IsSound}

-- The free index that is not invalid.
pub free_slot :
    (t : HashTable)
    → IsSound t
    → (t.free_index == invalid) ≡ false
    → (t.free_index < t.capacity) × (is_null (t.entries t.free_index).key ≡ true)
free_slot t s n = elim s.free.empty [
  | inl e ↦ absurd (let z = (==_iff t.free_index invalid).1 e in cc)
  | inr h ↦ h
]

-- How the key joins the chain whose last slot is that of `p`.
set_in_missing :
    (t : HashTable) (key value : List ℕ) (h j : ℕ) (e : Entry) (p : Place)
    → (main_pos t e.hash == main_pos t h) ≡ true
    → search_chain t.capacity t none (main_pos t h) h key ≡ some p
    → p.found ≡ false
    → ltb p.ent t.capacity ≡ true
    → ltb t.free_index t.capacity ≡ true
    → advance_free_index (record t { entries = tied t p.ent })
      ≡ record t { free_index = j; entries = tied t p.ent }
    → set_in t key value h e
      ≡ some (
        true,
        record t {
          free_index = j;
          entries =
              update
                (tied t p.ent)
                t.free_index
                (fill_from (some key) h value (tied t p.ent t.free_index));
        },
      )
unfolding set_in set_next do_insert
set_in_missing t key value h j e p mp w missing ba bf adv =
    rw (set_in, mp, w, missing, set_next, ba, adv, do_insert, bf) refl

module _ (t : HashTable) (s : IsSound t) (key value : List ℕ) where
  abbrev o : Entry
  o = new_entry key value

  abbrev pos : ℕ
  pos = main_pos t o.hash

  low : pos < t.capacity
  low = main_pos_lt t s.size o.hash s.sized s.bounded

  ci : t.capacity ≤ invalid
  ci = let b = s.bounded in omega arith

  -- The entry of another hash makes room.
  pub set_evicting :
      is_null (t.entries pos).key ≡ false
      → (t.free_index == invalid) ≡ false
      → (main_pos t (t.entries pos).hash == pos) ≡ false
      → Sets t key value (set_in t key value (calc_hash key) (t.entries pos))
  unfolding set_in do_insert set_next
  set_evicting np nf mp =
      let E = t.entries in
      let f = t.free_index in
      let bp : ltb pos t.capacity ≡ true = lt→ltb pos t.capacity low in
      let (fc, fn) = free_slot t s nf in
      let (R, D, ev, m, same, rp) =
        evict_lem t (main_pos t (E pos).hash) pos ci s.valid (low, (np, refl)) mp fc fn in
      let F = headed R pos o in
      let fp : (f == pos) ≡ false = ==_other pos f (differ t.capacity (main_pos t) E pos f np fn) in
      let p = head-Placed t o ci s.valid low R D f m same fp np in
      let fresh = absent_other t s key mp in
      let (j, w, free) =
        advance_lem (record t { entries = R }) (main_pos t) E F fc ci s.free p.fills
          (head_in_use t o ci s.valid low R D f m same fp np)
          (λ x l. elim (Bool-cases (x == pos)) [
            | inl k ↦
                subst (λ y. is_null (R y).key ≡ is_null (F y).key) (sym ((==_iff x pos).0 k))
                  (ap is_null rp ∙ np ∙ sym (ap is_null p.copy.0))
            | inr n ↦
                ap (λ y. is_null y.key)
                  (same x n ∙ sym (head_other t o ci s.valid low R D f m same fp np x n))
          ]) in
      (
        true,
        record t { free_index = j; entries = F },
        rw (set_in, mp, ev, w, do_insert, bp, set_next, bp) refl,
        stored-IsSound t s key value D F pos p m.there m.back fresh j (m.keyed s.keyed) free,
        stored_result t s key value D F pos p m.there m.back fresh j,
      )

  -- The key joins the chain of its hash, when no slot has it.
  joins :
      (xs : List ℕ) (p : Place)
      → (main_pos t (t.entries pos).hash == pos) ≡ true
      → (t.free_index == invalid) ≡ false
      → IsChain t.capacity (main_pos t) t.entries pos xs
      → search_chain t.capacity t none pos (calc_hash key) key ≡ some p
      → IsMissing t.entries key xs p
      → Sets t key value (set_in t key value (calc_hash key) (t.entries pos))
  joins xs p mp nf k w (missing, inside, last, nowhere) =
      let E = t.entries in
      let f = t.free_index in
      let (fc, fn) = free_slot t s nf in
      let ata = k.members p.ent inside in
      let R = tied t p.ent in
      let F = filled R f o in
      let placed = tail-Placed t o ci s.valid low p.ent ata last refl fc fn in
      let (j, adv, free) =
        advance_lem (record t { entries = R }) (main_pos t) E F fc ci s.free placed.fills
          (tail_in_use t o ci s.valid low p.ent ata last refl fc fn)
          (λ x l.
            let q : (f == x) ≡ false = ground arith in
            sym (
              ap (λ y. is_null y.key)
                (update_other R f x (fill_from o.key o.hash o.value (R f)) q))) in
      let same = λ (k v : List ℕ) (h : Has t k v). h in
      let fresh = absent_chain t s key xs k nowhere in
      (
        true,
        record t { free_index = j; entries = F },
        set_in_missing t key value (calc_hash key) j (E pos) p mp w missing
            (lt→ltb p.ent t.capacity ata.0) (lt→ltb f t.capacity fc) adv,
        stored-IsSound t s key value E F f placed same same fresh j s.keyed free,
        stored_result t s key value E F f placed same same fresh j,
      )

  -- The chain is searched first.
  pub set_linking :
      is_null (t.entries pos).key ≡ false
      → (t.free_index == invalid) ≡ false
      → (main_pos t (t.entries pos).hash == pos) ≡ true
      → Sets t key value (set_in t key value (calc_hash key) (t.entries pos))
  unfolding set_in
  set_linking np nf mp =
      let (xs, k, (p, w, result)) = search_lem t s key np mp in
      elim result [
        | inl (found, inside, is_key, _) ↦
            let at = k.members p.ent inside in
            (
              false,
              t,
              rw (set_in, mp, w, found) refl,
              s,
              inl (
                refl,
                ((t.entries p.ent).value, (p.ent, at.0, is_key, refl)),
                λ k2 v. (λ x. x, λ x. x),
              ),
            )
        | inr missing ↦ joins xs p mp nf k w missing
      ]
