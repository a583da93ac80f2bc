-- ===== src/Container/HashTable/Content.antt =====
-- What a hash table holds, whatever the slots and links (src/common/container/eqp_hash_table.c).
use eqp.Common.{
  ℕ, ◌<◌, ◌≡◌, ◌⊎◌, refl, sym, ap, subst, ◌∙◌, true, false, Option, none, some, List, ◌==◌, inl,
  inr, Bool-cases, ==_iff,
}
use eqp.Container.HashTable.{Entry, is_null}
use eqp.Container.HashTable.Seg.{Memory}
use eqp.Container.HashTable.Loops.{IsHashed}

-- Some slot has the key and the value.
abbrev pub Holds : (c : ℕ) → Memory → List ℕ → List ℕ → Type 0
Holds c E k v = (s : ℕ) × (s < c) × ((E s).key ≡ some k) × ((E s).value ≡ v)

-- Hashes are those of the keys, and no key is there twice.
pub record IsKeyed (c : ℕ) (E : Memory) : Type 0 where
  pub hashed : (s : ℕ) → s < c → IsHashed (E s)
  pub unique :
      (s r : ℕ) (k : List ℕ) → s < c → r < c → (E s).key ≡ some k → (E r).key ≡ some k → s ≡ r

-- The same but for the link.
abbrev pub IsCopy : Entry → Entry → Type 0
IsCopy d e = (d.key ≡ e.key) × (d.hash ≡ e.hash) × (d.value ≡ e.value)

pub IsCopy-refl : (e : Entry) → IsCopy e e
IsCopy-refl e = (refl, refl, refl)

pub IsCopy-of : (d e : Entry) → d ≡ e → IsCopy d e
IsCopy-of d e h = (ap (λ y. y.key) h, ap (λ y. y.hash) h, ap (λ y. y.value) h)

-- `F` is `E` with a slot filled that was empty.
pub record Grows (c : ℕ) (E F : Memory) (f : ℕ) : Type 0 where
  pub inside : f < c
  pub empty : is_null (E f).key ≡ true
  pub others : (x : ℕ) → (x == f) ≡ false → IsCopy (F x) (E x)

pub null_key : (o : Option (List ℕ)) (k : List ℕ) → is_null o ≡ true → ¬ (o ≡ some k)
null_key none k h e = cc
null_key (some y) k h e = cc

pub taken_key : (o : Option (List ℕ)) → is_null o ≡ false → (k : List ℕ) × (o ≡ some k)
taken_key none h = absurd (cc)
taken_key (some k) h = (k, refl)

module _ (c : ℕ) (E F : Memory) (f : ℕ) (g : Grows c E F f) where
  other_slot : (x : ℕ) (k : List ℕ) → (E x).key ≡ some k → (x == f) ≡ false
  other_slot x k e = elim (Bool-cases (x == f)) [
    | inl h ↦
        absurd (null_key (E f).key k g.empty (subst (λ y. (E y).key ≡ some k) ((==_iff x f).0 h) e))
    | inr o ↦ o
  ]

  pub kept : (k v : List ℕ) → Holds c E k v → Holds c F k v
  kept k v (s, b, e, w) = let (ek, eh, ev) = g.others s (other_slot s k e) in (s, b, ek ∙ e, ev ∙ w)

  pub split_holds :
      (k v : List ℕ) → Holds c F k v → Holds c E k v ⊎ (((F f).key ≡ some k) × ((F f).value ≡ v))
  split_holds k v (s, b, e, w) = elim (Bool-cases (s == f)) [
    | inl h ↦
        let same = (==_iff s f).0 h in
        inr (subst (λ y. (F y).key ≡ some k) same e, subst (λ y. (F y).value ≡ v) same w)
    | inr o ↦ let (ek, eh, ev) = g.others s o in inl (s, b, sym ek ∙ e, sym ev ∙ w)
  ]

  pub grow-IsKeyed :
      IsHashed (F f)
      → ((k v : List ℕ) → (F f).key ≡ some k → ¬ Holds c E k v)
      → IsKeyed c E
      → IsKeyed c F
  grow-IsKeyed hf fresh kd = record {
    hashed = λ s b k e. elim (Bool-cases (s == f)) [
      | inl h ↦ let same = (==_iff s f).0 h in subst (λ y. IsHashed (F y)) (sym same) hf k e
      | inr o ↦ let (ek, eh, ev) = g.others s o in eh ∙ kd.hashed s b k (sym ek ∙ e)
    ];
    unique = λ s r k bs br es er. elim (Bool-cases (s == f)) [
      | inl h ↦ elim (Bool-cases (r == f)) [
        | inl h2 ↦ (==_iff s f).0 h ∙ sym ((==_iff r f).0 h2)
        | inr o2 ↦ absurd (
            let (ek, eh, ev) = g.others r o2 in
            fresh k (E r).value (subst (λ y. (F y).key ≡ some k) ((==_iff s f).0 h) es)
              (r, br, sym ek ∙ er, refl))
      ]
      | inr o ↦
          let (ek, eh, ev) = g.others s o in
          elim (Bool-cases (r == f)) [
            | inl h2 ↦ absurd (
                fresh k (E s).value (subst (λ y. (F y).key ≡ some k) ((==_iff r f).0 h2) er)
                  (s, bs, sym ek ∙ es, refl))
            | inr o2 ↦
                let (fk, fh, fv) = g.others r o2 in
                kd.unique s r k bs br (sym ek ∙ es) (sym fk ∙ er)
          ]
    ];
  }

  -- Without the slot.
  pub shrink-IsKeyed : IsKeyed c F → IsKeyed c E
  shrink-IsKeyed kd = record {
    hashed = λ s b k e.
        let (ek, eh, ev) = g.others s (other_slot s k e) in sym eh ∙ kd.hashed s b k (ek ∙ e);
    unique = λ s r k bs br es er.
        let (ek, eh, ev) = g.others s (other_slot s k es) in
        let (fk, fh, fv) = g.others r (other_slot r k er) in
        kd.unique s r k bs br (ek ∙ es) (fk ∙ er);
  }

  -- The key of the slot is in no other.
  pub gone : (k v : List ℕ) → IsKeyed c F → (F f).key ≡ some k → ¬ Holds c E k v
  gone k v kd e (s, b, es, w) =
      let o = other_slot s k es in
      let (ek, eh, ev) = g.others s o in
      let same = (==_iff s f).1 (kd.unique s f k b g.inside (ek ∙ es) e) in absurd (cc)

-- The contents of a slot moved to another.
module _ (c : ℕ) (E D F : Memory) (p f : ℕ) (g : Grows c D E p) (h : Grows c D F f)
    (copy : IsCopy (F f) (E p)) where
  pub moved : (k v : List ℕ) → Holds c E k v → Holds c F k v
  moved k v held = elim (split_holds c D E p g k v held) [
    | inl there ↦ kept c D F f h k v there
    | inr (e, w) ↦ let (ek, eh, ev) = copy in (f, h.inside, ek ∙ e, ev ∙ w)
  ]

  pub moved-IsKeyed : IsKeyed c E → IsKeyed c F
  moved-IsKeyed kd =
      let (ek, eh, ev) = copy in
      grow-IsKeyed c D F f h (λ k e. eh ∙ kd.hashed p g.inside k (sym ek ∙ e))
        (λ k v e. gone c D E p g k v kd (sym ek ∙ e)) (shrink-IsKeyed c D E p g kd)
