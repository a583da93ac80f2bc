-- ===== src/Container/HashTable/Room.antt =====
-- An entry that stands in the slot of another hash makes room
-- (src/common/container/eqp_hash_table.c).
use eqp.Common.{
  ℕ, ◌≤◌, ◌<◌, ◌≡◌, refl, sym, ap, subst, ◌∙◌, true, false, none, some, List, [], ◌==◌, arith, inl,
  inr, Bool-cases, ==_refl, ==_iff, ltb, lt→ltb, update, update_other,
}
use eqp.Container.HashTable.{Entry, HashTable, invalid, is_null, main_pos, evict, set_next}
use eqp.Container.HashTable.Slots.{has, length-NoDup, ==_other}
use eqp.Container.HashTable.Seg.{Memory, Seg, Seg-cong, no_loop}
use eqp.Container.HashTable.Valid.{IsAt, IsValid, differ}
use eqp.Container.HashTable.Links.{IsAlike, add_after, remove_after}
use eqp.Container.HashTable.Loops.{walk_lem}
use eqp.Container.HashTable.Content.{Holds, IsKeyed, IsCopy, IsCopy-of, Grows, moved, moved-IsKeyed}

-- Nothing at all, for the slot that was left.
abbrev pub vacant : Entry
vacant = record { key = none; hash = 0; next = invalid; value = [] }

-- `D` has the contents of `E`, but the slot `pos` is empty and `f` in use.
pub record Moved (c : ℕ) (home : ℕ → ℕ) (E D : Memory) (pos f : ℕ) : Type 0 where
  pub valid : IsValid c home D
  pub vacated : D pos ≡ vacant
  pub keyed : IsKeyed c E → IsKeyed c D
  pub there : (k v : List ℕ) → Holds c E k v → Holds c D k v
  pub back : (k v : List ℕ) → Holds c D k v → Holds c E k v
  pub target : is_null (D f).key ≡ false
  pub rest : (s : ℕ) → (s == pos) ≡ false → (s == f) ≡ false → IsAlike (D s) (E s)

module _ (c : ℕ) (home : ℕ → ℕ) (E : Memory) (main pos f a : ℕ) (ci : c ≤ invalid)
    (v : IsValid c home E) (atp : IsAt c home E main pos) (ata : IsAt c home E main a) (fc : f < c)
    (nf : is_null (E f).key ≡ true) (mp : (main == pos) ≡ false) (next : (E a).next ≡ pos)
    (ap_ : (a == pos) ≡ false) where
  -- Without the entry of `pos`.
  abbrev taken_out : Memory
  taken_out = update (update E a (record (E a) { next = (E pos).next })) pos vacant

  -- With it in `f`.
  abbrev evicted : Memory
  evicted = update (update E f (E pos)) a (record (update E f (E pos) a) { next = f })

  abbrev put_back : Memory
  put_back = update evicted pos vacant

  pf : (pos == f) ≡ false
  pf = differ c home E pos f atp.1.0 nf

  af : (a == f) ≡ false
  af = differ c home E a f ata.1.0 nf

  pa : (pos == a) ≡ false
  pa = ==_other a pos ap_

  fa : (f == a) ≡ false
  fa = ==_other a f af

  out_a : taken_out a ≡ record (E a) { next = (E pos).next }
  out_a = rw (pa, ==_refl a) refl

  out_pos : taken_out pos ≡ vacant
  out_pos = rw (==_refl pos) refl

  out_other : (x : ℕ) → (x == a) ≡ false → (x == pos) ≡ false → taken_out x ≡ E x
  out_other x o q = let o2 = ==_other x a o in let q2 = ==_other x pos q in rw (q2, o2) refl

  back_a : put_back a ≡ record (E a) { next = f }
  back_a = rw (pa, ==_refl a, fa) refl

  back_f : put_back f ≡ E pos
  back_f = rw (pf, af, ==_refl f) refl

  back_pos : put_back pos ≡ vacant
  back_pos = rw (==_refl pos) refl

  back_other : (x : ℕ) → (x == a) ≡ false → (x == f) ≡ false → (x == pos) ≡ false → put_back x ≡ E x
  back_other x o p q =
      let o2 = ==_other x a o in
      let p2 = ==_other x f p in let q2 = ==_other x pos q in rw (q2, o2, p2) refl

  taken_out-IsValid : IsValid c home taken_out
  taken_out-IsValid =
      remove_after c home E taken_out a pos main ata next (ground arith) ap_ mp
        (ap (λ y. y.next) out_a) (ap (λ y. y.key) out_a, ap (λ y. y.hash) out_a)
        (ap (λ y. is_null y.key) out_pos) (ap (λ y. y.next) out_pos) out_other ci v

  same_as_out : (x : ℕ) → (x == a) ≡ false → (x == f) ≡ false → put_back x ≡ taken_out x
  same_as_out x o p = elim (Bool-cases (x == pos)) [
    | inl e ↦
        subst (λ y. put_back y ≡ taken_out y) (sym ((==_iff x pos).0 e)) (back_pos ∙ sym out_pos)
    | inr q ↦ back_other x o p q ∙ sym (out_other x o q)
  ]

  put_back-IsValid : IsValid c home put_back
  put_back-IsValid =
      add_after c home taken_out put_back a f main
        (ata.0, (ap (λ y. is_null y.key) out_a ∙ ata.1.0, ap (λ y. home y.hash) out_a ∙ ata.1.1)) fc
        (ap (λ y. is_null y.key) (out_other f fa (==_other pos f pf)) ∙ nf)
        (ap (λ y. is_null y.key) back_f ∙ atp.1.0) (ap (λ y. home y.hash) back_f ∙ atp.1.1)
        (ap (λ y. y.next) back_f ∙ sym (ap (λ y. y.next) out_a)) (ap (λ y. y.next) back_a)
        (
          ap (λ y. y.key) back_a ∙ sym (ap (λ y. y.key) out_a),
          ap (λ y. y.hash) back_a ∙ sym (ap (λ y. y.hash) out_a),
        )
        same_as_out ci taken_out-IsValid

  away : Grows c taken_out E pos
  away = record {
    inside = atp.0;
    empty = ap (λ y. is_null y.key) out_pos;
    others = λ x q. elim (Bool-cases (x == a)) [
      | inl e ↦
          subst (λ y. IsCopy (E y) (taken_out y)) (sym ((==_iff x a).0 e))
            (
              sym (ap (λ y. y.key) out_a),
              sym (ap (λ y. y.hash) out_a),
              sym (ap (λ y. y.value) out_a),
            )
      | inr o ↦ IsCopy-of (E x) (taken_out x) (sym (out_other x o q))
    ];
  }

  again : Grows c taken_out put_back f
  again = record {
    inside = fc;
    empty = ap (λ y. is_null y.key) (out_other f fa (==_other pos f pf)) ∙ nf;
    others = λ x p. elim (Bool-cases (x == a)) [
      | inl e ↦
          subst (λ y. IsCopy (put_back y) (taken_out y)) (sym ((==_iff x a).0 e))
            (
              ap (λ y. y.key) (back_a) ∙ sym (ap (λ y. y.key) out_a),
              ap (λ y. y.hash) back_a ∙ sym (ap (λ y. y.hash) out_a),
              ap (λ y. y.value) back_a ∙ sym (ap (λ y. y.value) out_a),
            )
      | inr o ↦ IsCopy-of (put_back x) (taken_out x) (same_as_out x o p)
    ];
  }

  copy : IsCopy (put_back f) (E pos)
  copy = IsCopy-of (put_back f) (E pos) back_f

  copy_back : IsCopy (E pos) (put_back f)
  copy_back = IsCopy-of (E pos) (put_back f) (sym back_f)

  put_back-Moved : Moved c home E put_back pos f
  put_back-Moved = record {
    valid = put_back-IsValid;
    vacated = back_pos;
    keyed = moved-IsKeyed c E taken_out put_back pos f away again copy;
    there = moved c E taken_out put_back pos f away again copy;
    back = moved c put_back taken_out E f pos again away copy_back;
    target = ap (λ y. is_null y.key) back_f ∙ atp.1.0;
    rest = λ s q p. elim (Bool-cases (s == a)) [
      | inl e ↦
          subst (λ y. IsAlike (put_back y) (E y)) (sym ((==_iff s a).0 e))
            (ap (λ y. y.key) back_a, ap (λ y. y.hash) back_a)
      | inr o ↦ let w = back_other s o p q in (ap (λ y. y.key) w, ap (λ y. y.hash) w)
    ];
  }

-- The entry of another hash goes to the free slot, and its chain with it; the slot itself still has
-- the entry.
pub evict_lem :
    (t : HashTable) (main pos : ℕ)
    → t.capacity ≤ invalid
    → IsValid t.capacity (main_pos t) t.entries
    → IsAt t.capacity (main_pos t) t.entries main pos
    → (main == pos) ≡ false
    → t.free_index < t.capacity
    → is_null (t.entries t.free_index).key ≡ true
    → (R D : Memory) × (evict t main pos (t.entries pos) ≡ some (record t { entries = R }))
      × Moved t.capacity (main_pos t) t.entries D pos t.free_index
      × ((x : ℕ) → (x == pos) ≡ false → R x ≡ D x)
      × ((R pos).key ≡ (t.entries pos).key)
unfolding evict set_next
evict_lem t main pos ci v atp mp fc nf =
    let c = t.capacity in
    let home = main_pos t in
    let E = t.entries in
    let f = t.free_index in
    let u = record t { entries = update E f (E pos) } in
    let (xs, k, inside) = v.chain_of main pos atp in
    let out : (x : ℕ) → has x xs ≡ true → (x == f) ≡ false =
      λ x h. differ c home E x f (k.members x h).1.0 nf in
    let way : Seg u.entries main xs invalid =
      Seg-cong E u.entries main invalid xs (λ x h. let o = ==_other x f (out x h) in rw o refl)
        k.way in
    let (a, w, ina, next) =
      walk_lem u c main pos invalid xs way (λ x h. (k.members x h).0) (inr inside) mp
        (length-NoDup c xs k.different (λ x h. (k.members x h).0)) in
    let fa = ==_other a f (out a ina) in
    let next2 : (E a).next ≡ pos = ap (λ y. y.next) (sym (update_other E f a (E pos) fa)) ∙ next in
    let other : (a == pos) ≡ false = elim (Bool-cases (a == pos)) [
      | inl e ↦ absurd (
          let same = (==_iff a pos).0 e in
          let low = atp.0 in
          no_loop E main invalid a xs k.different k.way ina (ground arith) (next2 ∙ sym same))
      | inr o ↦ o
    ] in
    let ata = k.members a ina in
    let bf : ltb f c ≡ true = lt→ltb f c fc in
    let ba : ltb a c ≡ true = lt→ltb a c ata.0 in
    (
      evicted c home E main pos f a ci v atp ata fc nf mp next2 other,
      put_back c home E main pos f a ci v atp ata fc nf mp next2 other,
      rw (evict, bf, w, set_next, ba) refl,
      put_back-Moved c home E main pos f a ci v atp ata fc nf mp next2 other,
      λ x q. let q2 = ==_other x pos q in rw q2 refl,
      let pa = ==_other a pos other in
          let pf = differ c home E pos f atp.1.0 nf in
          let ap2 = other in let fp = ==_other pos f pf in rw (ap2, fp) refl,
    )
