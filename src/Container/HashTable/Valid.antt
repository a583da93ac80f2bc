-- ===== src/Container/HashTable/Valid.antt =====
-- When the memory of a hash table is well formed (src/common/container/eqp_hash_table.c), and the
-- changes of one link that keep it so.
use eqp.Common.{
  ℕ, ◌≤◌, ◌<◌, ◌≡◌, refl, sym, ap, subst, ◌∙◌, true, false, List, [], ◌∷◌, ◌==◌, arith, inl, inr,
  Bool-cases, ==_iff,
}
use eqp.Container.HashTable.{invalid, is_null}
use eqp.Container.HashTable.Slots.{has, NoDup}
use eqp.Container.HashTable.Seg.{Memory, Seg, Seg-cong, head-Seg, Seg-unique}

-- A slot in use, whose hash belongs to `p`.
abbrev pub IsAt : (c : ℕ) (home : ℕ → ℕ) → Memory → ℕ → ℕ → Type 0
IsAt c home E p x = (x < c) × ((is_null (E x).key ≡ false) × (home (E x).hash ≡ p))

-- The slots of the hashes that belong to `p`, from `p` on.
pub record IsChain (c : ℕ) (home : ℕ → ℕ) (E : Memory) (p : ℕ) (xs : List ℕ) : Type 0 where
  pub way : Seg E p xs invalid
  pub members : (x : ℕ) → has x xs ≡ true → IsAt c home E p x
  pub different : NoDup xs

-- Every slot in use is on the chain of its hash, and one that is not has no next.
pub record IsValid (c : ℕ) (home : ℕ → ℕ) (E : Memory) : Type 0 where
  pub chain_of :
      (p s : ℕ) → IsAt c home E p s → (xs : List ℕ) × IsChain c home E p xs × (has s xs ≡ true)
  pub cleared : (s : ℕ) → s < c → is_null (E s).key ≡ true → (E s).next ≡ invalid

module _ (c : ℕ) (home : ℕ → ℕ) where
  pub out-IsChain :
      {E : Memory} {p : ℕ} {xs : List ℕ}
      → c ≤ invalid
      → IsChain c home E p xs
      → has invalid xs ≡ false
  out-IsChain {xs = xs} h k = elim (Bool-cases (has invalid xs)) [
    | inl inside ↦ absurd (let (below, _) = k.members invalid inside in omega arith)
    | inr outside ↦ outside
  ]

  pub one-IsChain :
      {E : Memory} {p : ℕ} {xs ys : List ℕ}
      → c ≤ invalid
      → IsChain c home E p xs
      → IsChain c home E p ys
      → xs ≡ ys
  one-IsChain {E} {p} {xs} {ys} h j k =
      Seg-unique E p invalid xs ys j.way k.way (out-IsChain h j) (out-IsChain h k)

  pub IsChain-cong :
      (E F : Memory) (p : ℕ) (xs : List ℕ)
      → ((x : ℕ) → has x xs ≡ true → F x ≡ E x)
      → IsChain c home E p xs
      → IsChain c home F p xs
  IsChain-cong E F p xs same k = record {
    way = Seg-cong E F p invalid xs (λ x h. ap (λ e. e.next) (same x h)) k.way;
    members = λ x h.
        subst (λ e. (x < c) × ((is_null e.key ≡ false) × (home e.hash ≡ p))) (sym (same x h))
          (k.members x h);
    different = k.different;
  }

  -- When the slots of other homes stay, the chains of these do.
  pub other-IsChain :
      (E F : Memory) (q s : ℕ)
      → ((x : ℕ) → IsAt c home E q x → F x ≡ E x)
      → IsValid c home E
      → IsAt c home E q s
      → (xs : List ℕ) × IsChain c home F q xs × (has s xs ≡ true)
  other-IsChain E F q s same v at =
      let (xs, k, inside) = v.chain_of q s at in
      (xs, IsChain-cong E F q xs (λ x h. same x (k.members x h)) k, inside)

  pub IsAt-back : (E F : Memory) (q s : ℕ) → F s ≡ E s → IsAt c home F q s → IsAt c home E q s
  IsAt-back E F q s e (b, (n, h)) =
      (b, (ap (λ y. is_null y.key) (sym e) ∙ n, ap (λ y. home y.hash) (sym e) ∙ h))

  pub differ :
      (E : Memory) (x s : ℕ)
      → is_null (E x).key ≡ false
      → is_null (E s).key ≡ true
      → (x == s) ≡ false
  differ E x s n m = elim (Bool-cases (x == s)) [
    | inl e ↦ absurd (
        let k : is_null (E s).key ≡ false =
          ap (λ y. is_null (E y).key) (sym ((==_iff x s).0 e)) ∙ n in
        cc)
    | inr o ↦ o
  ]

  pub homes_differ :
      (E : Memory) (x a p q : ℕ)
      → home (E x).hash ≡ q
      → home (E a).hash ≡ p
      → (q == p) ≡ false
      → (x == a) ≡ false
  homes_differ E x a p q h k n = elim (Bool-cases (x == a)) [
    | inl e ↦ absurd (
        let same : q ≡ p = sym h ∙ ap (λ y. home (E y).hash) ((==_iff x a).0 e) ∙ k in
        let z = (==_iff q p).1 same in cc)
    | inr o ↦ o
  ]

  -- The change of an empty slot that stays empty.
  pub still_empty :
      (E F : Memory) (p : ℕ)
      → is_null (E p).key ≡ true
      → is_null (F p).key ≡ true
      → (F p).next ≡ invalid
      → ((x : ℕ) → (x == p) ≡ false → F x ≡ E x)
      → IsValid c home E
      → IsValid c home F
  still_empty E F p np nf nn same v = record {
    chain_of = λ q s at.
        other-IsChain E F q s (λ x (b, (n, h)). same x (differ E x p n np)) v
          (IsAt-back E F q s (same s (differ F s p at.1.0 nf)) at);
    cleared = λ s b n. elim (Bool-cases (s == p)) [
      | inl e ↦ ap (λ y. (F y).next) ((==_iff s p).0 e) ∙ nn
      | inr o ↦
          ap (λ y. y.next) (same s o) ∙ v.cleared s b (ap (λ y. is_null y.key) (sym (same s o)) ∙ n)
    ];
  }

  -- A first entry at its own slot.
  pub add_first :
      (E F : Memory) (p : ℕ)
      → p < c
      → is_null (E p).key ≡ true
      → is_null (F p).key ≡ false
      → home (F p).hash ≡ p
      → (F p).next ≡ invalid
      → ((x : ℕ) → (x == p) ≡ false → F x ≡ E x)
      → c ≤ invalid
      → IsValid c home E
      → IsValid c home F
  add_first E F p pc np nf hp nn same ci v = record {
    chain_of = λ q s at. elim (Bool-cases (q == p)) [
      | inl e ↦ elim (Bool-cases (s == p)) [
        | inl es ↦ (
          p ∷ [],
          record {
            way = ((==_iff q p).0 e, nn);
            members = λ x h.
                let w : p ≡ x = sym ((==_iff x p).0 (ground arith)) in
                subst (IsAt c home F q) w (pc, (nf, hp ∙ sym ((==_iff q p).0 e)));
            different = (refl, tt);
          },
          rw es refl,
        )
        | inr os ↦
            let at2 = IsAt-back E F q s (same s os) at in
            let (xs, k, inside) = v.chain_of q s at2 in
            let first = head-Seg E q invalid s xs k.way inside in
            absurd (
              let (_, (n, _)) = k.members q first in
              let n2 : is_null (E p).key ≡ false =
                ap (λ y. is_null (E y).key) (sym ((==_iff q p).0 e)) ∙ n in
              cc)
      ]
      | inr o ↦
          other-IsChain E F q s (λ x (b, (n, h)). same x (differ E x p n np)) v
            (IsAt-back E F q s (same s (homes_differ F s p p q at.1.1 hp o)) at)
    ];
    cleared = λ s b n. elim (Bool-cases (s == p)) [
      | inl e ↦ absurd (
          let k : is_null (F p).key ≡ true =
            ap (λ y. is_null (F y).key) (sym ((==_iff s p).0 e)) ∙ n in
          cc)
      | inr o ↦
          ap (λ y. y.next) (same s o) ∙ v.cleared s b (ap (λ y. is_null y.key) (sym (same s o)) ∙ n)
    ];
  }

  -- The only entry of a chain taken away.
  pub remove_only :
      (E F : Memory) (p : ℕ)
      → p < c
      → is_null (E p).key ≡ false
      → home (E p).hash ≡ p
      → (E p).next ≡ invalid
      → is_null (F p).key ≡ true
      → (F p).next ≡ invalid
      → ((x : ℕ) → (x == p) ≡ false → F x ≡ E x)
      → c ≤ invalid
      → IsValid c home E
      → IsValid c home F
  remove_only E F p pc np hp ni nf nn same ci v = record {
    chain_of = λ q s at.
        let os : (s == p) ≡ false = differ F s p at.1.0 nf in
        let at2 = IsAt-back E F q s (same s os) at in
        elim (Bool-cases (q == p)) [
          | inl e ↦
              let (xs, k, inside) = v.chain_of q s at2 in
              let only : IsChain c home E q (p ∷ []) = record {
                way = ((==_iff q p).0 e, ni);
                members = λ x h.
                    let w : p ≡ x = sym ((==_iff x p).0 (ground arith)) in
                    subst (IsAt c home E q) w (pc, (np, hp ∙ sym ((==_iff q p).0 e)));
                different = (refl, tt);
              } in
              absurd (
                let z : has s (p ∷ []) ≡ true = ap (has s) (one-IsChain ci only k) ∙ inside in
                let y = rw os at z in cc)
          | inr o ↦
              other-IsChain E F q s (λ x (b, (n, h)). same x (homes_differ E x p p q h hp o)) v at2
        ];
    cleared = λ s b n. elim (Bool-cases (s == p)) [
      | inl e ↦ ap (λ y. (F y).next) ((==_iff s p).0 e) ∙ nn
      | inr o ↦
          ap (λ y. y.next) (same s o) ∙ v.cleared s b (ap (λ y. is_null y.key) (sym (same s o)) ∙ n)
    ];
  }
