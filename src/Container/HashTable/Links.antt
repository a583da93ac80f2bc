-- ===== src/Container/HashTable/Links.antt =====
-- Entries put into the middle of a chain, taken out of it, and exchanged
-- (src/common/container/eqp_hash_table.c).
use eqp.Common.{
  ℕ, ◌≤◌, ◌<◌, ◌≡◌, sym, ap, subst, ◌∙◌, true, false, ◌==◌, inl, inr, Bool-cases, ==_iff,
}
use eqp.Container.HashTable.{Entry, invalid, is_null}
use eqp.Container.HashTable.Slots.{
  has, insert_after, delete, ==_other, has_subst, apart, has-insert_after_new, has-insert_after_old,
  has-insert_after_only, NoDup-insert_after, has-delete_in, has-delete_other, has-delete_self,
  NoDup-delete,
}
use eqp.Container.HashTable.Seg.{Memory, Seg-cong, next-Seg, Seg-insert_after, Seg-delete}
use eqp.Container.HashTable.Valid.{
  IsAt, IsChain, IsValid, one-IsChain, other-IsChain, differ, homes_differ, IsAt-back,
}

-- The same key and hash, whatever the link and the value.
abbrev pub IsAlike : Entry → Entry → Type 0
IsAlike d e = (d.key ≡ e.key) × (d.hash ≡ e.hash)

module _ (c : ℕ) (home : ℕ → ℕ) where
  IsAt-alike :
      (E F : Memory) (p x : ℕ) → IsAlike (F x) (E x) → IsAt c home E p x → IsAt c home F p x
  IsAt-alike E F p x (k, h) (b, (n, e)) = (b, (ap is_null k ∙ n, ap home h ∙ e))

  IsAlike-sym : (d e : Entry) → IsAlike d e → IsAlike e d
  IsAlike-sym d e (k, h) = (sym k, sym h)

  IsAlike-same : (d e : Entry) → d ≡ e → IsAlike d e
  IsAlike-same d e h = (ap (λ y. y.key) h, ap (λ y. y.hash) h)

  module _ (E F : Memory) (a : ℕ) (ca : IsAlike (F a) (E a)) where
    IsAlike-but :
        (f x : ℕ)
        → ((y : ℕ) → (y == a) ≡ false → (y == f) ≡ false → F y ≡ E y)
        → (x == f) ≡ false
        → IsAlike (F x) (E x)
    IsAlike-but f x same o = elim (Bool-cases (x == a)) [
      | inl e ↦ subst (λ y. IsAlike (F y) (E y)) (sym ((==_iff x a).0 e)) ca
      | inr n ↦ IsAlike-same (F x) (E x) (same x n o)
    ]

  -- A new slot `f` behind `a`.
  pub add_after :
      (E F : Memory) (a f p : ℕ)
      → IsAt c home E p a
      → f < c
      → is_null (E f).key ≡ true
      → is_null (F f).key ≡ false
      → home (F f).hash ≡ p
      → (F f).next ≡ (E a).next
      → (F a).next ≡ f
      → IsAlike (F a) (E a)
      → ((x : ℕ) → (x == a) ≡ false → (x == f) ≡ false → F x ≡ E x)
      → c ≤ invalid
      → IsValid c home E
      → IsValid c home F
  add_after E F a f p ata fc nf tf hf fn an ca same ci v =
      let (xs, k, ina) = v.chain_of p a ata in
      let out : has f xs ≡ false = elim (Bool-cases (has f xs)) [
        | inl inside ↦ absurd (let (_, (n, _)) = k.members f inside in cc)
        | inr o ↦ o
      ] in
      let new : IsChain c home F p (insert_after a f xs) = record {
        way =
            Seg-insert_after E F a f p invalid xs an fn
              (λ x h o. ap (λ y. y.next) (same x o (apart x f xs h out))) k.different k.way;
        members = λ x h. elim (Bool-cases (x == f)) [
          | inl e ↦ subst (IsAt c home F p) (sym ((==_iff x f).0 e)) (fc, (tf, hf))
          | inr o ↦
              IsAt-alike E F p x (IsAlike-but E F a ca f x same o)
                (k.members x (has-insert_after_only a f x xs o h))
        ];
        different = NoDup-insert_after a f xs out k.different;
      } in
      record {
        chain_of = λ q s at. elim (Bool-cases (q == p)) [
          | inl e ↦
              let e2 = (==_iff q p).0 e in
              (
                insert_after a f xs,
                subst (λ y. IsChain c home F y (insert_after a f xs)) (sym e2) new,
                elim (Bool-cases (s == f)) [
                  | inl es ↦
                      has_subst s f (insert_after a f xs) es (has-insert_after_new a f xs ina)
                  | inr os ↦
                      let ats =
                        IsAt-alike F E q s
                          (IsAlike-sym (F s) (E s) (IsAlike-but E F a ca f s same os)) at in
                      let (ys, j, ins) = v.chain_of p s (subst (λ y. IsAt c home E y s) e2 ats) in
                      has-insert_after_old a f s xs (ap (has s) (one-IsChain c home ci k j) ∙ ins)
                ],
              )
          | inr o ↦
              let of_ = homes_differ c home F s f p q at.1.1 hf o in
              let oa = homes_differ c home F s a p q at.1.1 (ap home ca.1 ∙ ata.1.1) o in
              other-IsChain c home E F q s
                (λ x (b, (n, h)).
                  same x (homes_differ c home E x a p q h ata.1.1 o) (differ c home E x f n nf))
                v (IsAt-back c home E F q s (same s oa of_) at)
        ];
        cleared = λ s b n.
            let of_ = ==_other f s (differ c home F f s tf n) in
            let oa = ==_other a s (differ c home F a s (ap is_null ca.0 ∙ ata.1.0) n) in
            ap (λ y. y.next) (same s oa of_)
            ∙ v.cleared s b (ap (λ y. is_null y.key) (sym (same s oa of_)) ∙ n);
      }

  -- The slot behind `a` taken out of the chain.
  pub remove_after :
      (E F : Memory) (a s p : ℕ)
      → IsAt c home E p a
      → (E a).next ≡ s
      → (s == invalid) ≡ false
      → (a == s) ≡ false
      → (p == s) ≡ false
      → (F a).next ≡ (E s).next
      → IsAlike (F a) (E a)
      → is_null (F s).key ≡ true
      → (F s).next ≡ invalid
      → ((x : ℕ) → (x == a) ≡ false → (x == s) ≡ false → F x ≡ E x)
      → c ≤ invalid
      → IsValid c home E
      → IsValid c home F
  remove_after E F a s p ata ea si os ps fa ca nf fs same ci v =
      let (xs, k, ina) = v.chain_of p a ata in
      let ins : has s xs ≡ true =
        subst (λ y. has y xs ≡ true) ea
          (next-Seg E p invalid a xs k.way ina (ap (λ y. y == invalid) ea ∙ si)) in
      let ats = k.members s ins in
      let new : IsChain c home F p (delete s xs) = record {
        way =
            Seg-delete E F a s p invalid xs ea fa (λ x h o q. ap (λ y. y.next) (same x o q))
              k.different ina ps os si k.way;
        members = λ x h.
            let o = apart x s (delete s xs) h (has-delete_self s xs k.different) in
            IsAt-alike E F p x (IsAlike-but E F a ca s x same o)
              (k.members x (has-delete_in s x xs h));
        different = NoDup-delete s xs k.different;
      } in
      record {
        chain_of = λ q r at.
            let or : (r == s) ≡ false = differ c home F r s at.1.0 nf in
            elim (Bool-cases (q == p)) [
              | inl e ↦
                  let e2 = (==_iff q p).0 e in
                  let atr =
                    IsAt-alike F E q r (IsAlike-sym (F r) (E r) (IsAlike-but E F a ca s r same or))
                      at in
                  let (ys, j, inr_) = v.chain_of p r (subst (λ y. IsAt c home E y r) e2 atr) in
                  (
                    delete s xs,
                    subst (λ y. IsChain c home F y (delete s xs)) (sym e2) new,
                    has-delete_other s r xs or (ap (has r) (one-IsChain c home ci k j) ∙ inr_),
                  )
              | inr o ↦
                  let oa = homes_differ c home F r a p q at.1.1 (ap home ca.1 ∙ ata.1.1) o in
                  other-IsChain c home E F q r
                    (λ x (b, (n, h)).
                      same x (homes_differ c home E x a p q h ata.1.1 o)
                        (homes_differ c home E x s p q h ats.1.1 o))
                    v (IsAt-back c home E F q r (same r oa or) at)
            ];
        cleared = λ r b n.
            let oa = ==_other a r (differ c home F a r (ap is_null ca.0 ∙ ata.1.0) n) in
            elim (Bool-cases (r == s)) [
              | inl e ↦ ap (λ y. (F y).next) ((==_iff r s).0 e) ∙ fs
              | inr or ↦
                  ap (λ y. y.next) (same r oa or)
                  ∙ v.cleared r b (ap (λ y. is_null y.key) (sym (same r oa or)) ∙ n)
            ];
      }

  move :
      (G H : Memory) (a p q x : ℕ)
      → IsAt c home G p a
      → IsAt c home H p a
      → ((y : ℕ) → (y == a) ≡ false → H y ≡ G y)
      → IsAt c home G q x
      → IsAt c home H q x
  move G H a p q x g h others at = elim (Bool-cases (x == a)) [
    | inl e ↦
        let e2 = (==_iff x a).0 e in
        let pq : p ≡ q = sym g.1.1 ∙ ap (λ y. home (G y).hash) (sym e2) ∙ at.1.1 in
        subst (λ y. IsAt c home H q y) (sym e2) (subst (λ y. IsAt c home H y a) pq h)
    | inr o ↦ IsAt-back c home H G q x (sym (others x o)) at
  ]

  -- Another entry of the same home in the slot.
  pub refill :
      (E F : Memory) (a p : ℕ)
      → IsAt c home E p a
      → IsAt c home F p a
      → (F a).next ≡ (E a).next
      → ((x : ℕ) → (x == a) ≡ false → F x ≡ E x)
      → IsValid c home E
      → IsValid c home F
  refill E F a p ata atf next same v =
      let links : (x : ℕ) → (F x).next ≡ (E x).next = λ x. elim (Bool-cases (x == a)) [
        | inl e ↦ subst (λ y. (F y).next ≡ (E y).next) (sym ((==_iff x a).0 e)) next
        | inr o ↦ ap (λ y. y.next) (same x o)
      ] in
      record {
        chain_of = λ q s at.
            let (xs, k, ins) =
              v.chain_of q s (move F E a p q s atf ata (λ y o. sym (same y o)) at) in
            (
              xs,
              record {
                way = Seg-cong E F q invalid xs (λ x h. links x) k.way;
                members = λ x h. move E F a p q x ata atf same (k.members x h);
                different = k.different;
              },
              ins,
            );
        cleared = λ s b n.
            let o = ==_other a s (differ c home F a s atf.1.0 n) in
            ap (λ y. y.next) (same s o)
            ∙ v.cleared s b (ap (λ y. is_null y.key) (sym (same s o)) ∙ n);
      }
