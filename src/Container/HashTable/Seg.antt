-- ===== src/Container/HashTable/Seg.antt =====
-- The links between the slots of src/common/container/eqp_hash_table.c, as ways from slot to slot.
use eqp.Common.{
  ℕ, ◌≡◌, refl, sym, ap, subst, ◌∙◌, true, false, List, [], ◌∷◌, ◌==◌, arith, inl, inr, Bool-cases,
  ==_refl, ==_iff,
}
use eqp.Container.HashTable.{Entry}
use eqp.Container.HashTable.Slots.{has, NoDup, insert_after, delete, ==_other, apart}

abbrev pub Memory : Type 0
Memory = ℕ → Entry

-- From `s` the links go through `xs` to `t`.
abbrev pub Seg : Memory → ℕ → List ℕ → ℕ → Type 0
Seg E s [] t = s ≡ t
Seg E s (x ∷ xs) t = (s ≡ x) × Seg E (E x).next xs t

pub Seg-cong :
    (E F : Memory) (s t : ℕ) (xs : List ℕ)
    → ((x : ℕ) → has x xs ≡ true → (F x).next ≡ (E x).next)
    → Seg E s xs t
    → Seg F s xs t
Seg-cong E F s t [] same h = h
Seg-cong E F s t (x ∷ xs) same (e, h) =
    let next : (F x).next ≡ (E x).next = same x (rw (==_refl x) refl) in
    (
      e,
      subst (λ n. Seg F n xs t) (sym next)
          (Seg-cong E F (E x).next t xs
            (λ y k. same y (elim (Bool-cases (y == x)) [ inl a ↦ rw a refl | inr a ↦ rw a k ])) h),
    )

-- A way does not depend on the number that its end is written with, nor on its start.
pub Seg-from : (E : Memory) (s r t : ℕ) (xs : List ℕ) → s ≡ r → Seg E s xs t → Seg E r xs t
Seg-from E s r t xs e h = subst (λ n. Seg E n xs t) e h

-- The first slot is the start.
pub head-Seg :
    (E : Memory) (s t y : ℕ) (xs : List ℕ) → Seg E s xs t → has y xs ≡ true → has s xs ≡ true
head-Seg E s t y [] h k = absurd (cc)
head-Seg E s t y (x ∷ xs) (e, h) k = rw (e, ==_refl x) refl

-- The slot after one of the way is on the way, behind the start, or the end.
pub next-Seg :
    (E : Memory) (s t a : ℕ) (xs : List ℕ)
    → Seg E s xs t
    → has a xs ≡ true
    → ((E a).next == t) ≡ false
    → has (E a).next xs ≡ true
next-Seg E s t a [] h k n = absurd (cc)
next-Seg E s t a (x ∷ xs) (e, h) k n = elim (Bool-cases (a == x)) [
  | inl here ↦
      let same : a ≡ x = (==_iff a x).0 here in
      elim (Bool-cases ((E a).next == x)) [
        | inl loop ↦ rw loop refl
        | inr on ↦ rw on (in_rest xs (subst (λ y. Seg E (E y).next xs t) (sym same) h))
      ]
  | inr there ↦
      let k2 : has a xs ≡ true = let k2 = rw there at k in k2 in
      let deeper = next-Seg E (E x).next t a xs h k2 n in
      elim (Bool-cases ((E a).next == x)) [ inl b ↦ rw b refl | inr b ↦ rw b deeper ]
]
  where
    in_rest : (ys : List ℕ) → Seg E (E a).next ys t → has (E a).next ys ≡ true
    in_rest [] e = absurd (let k = (==_iff (E a).next t).1 e in cc)
    in_rest (y ∷ ys) (e, h) = rw (e, ==_refl y) refl

-- Links are followed in one way only.
pub Seg-unique :
    (E : Memory) (s t : ℕ) (xs ys : List ℕ)
    → Seg E s xs t
    → Seg E s ys t
    → has t xs ≡ false
    → has t ys ≡ false
    → xs ≡ ys
Seg-unique E s t [] [] h k a b = refl
Seg-unique E s t [] (y ∷ ys) h (e, k) a b =
    absurd (let z : (t == y) ≡ true = (==_iff t y).1 (sym h ∙ e) in let b2 = rw z at b in cc)
Seg-unique E s t (x ∷ xs) [] (e, h) k a b =
    absurd (let z : (t == x) ≡ true = (==_iff t x).1 (sym k ∙ e) in let a2 = rw z at a in cc)
Seg-unique E s t (x ∷ xs) (y ∷ ys) (e, h) (f, k) a b =
    let same : y ≡ x = sym f ∙ e in
    ap (λ zs. x ∷ zs)
      (Seg-unique E (E x).next t xs ys h (subst (λ z. Seg E (E z).next ys t) same k) (ground arith)
        (ground arith))
    ∙ ap (λ z. z ∷ ys) (sym same)

-- A slot `f` put in behind `a`.
pub Seg-insert_after :
    (E F : Memory) (a f s t : ℕ) (xs : List ℕ)
    → (F a).next ≡ f
    → (F f).next ≡ (E a).next
    → ((x : ℕ) → has x xs ≡ true → (x == a) ≡ false → (F x).next ≡ (E x).next)
    → NoDup xs
    → Seg E s xs t
    → Seg F s (insert_after a f xs) t
Seg-insert_after E F a f s t [] fa ff same d h = h
Seg-insert_after E F a f s t (x ∷ xs) fa ff same (n, d) (e, h) = elim (Bool-cases (x == a)) [
  | inl here ↦
      let w : x ≡ a = (==_iff x a).0 here in
      let out : has a xs ≡ false = ap (λ y. has y xs) (sym w) ∙ n in
      rw here (
        e,
        (
          ap (λ y. (F y).next) w ∙ fa,
          Seg-from F (E x).next (F f).next t xs (ap (λ y. (E y).next) w ∙ sym ff)
              (Seg-cong E F (E x).next t xs (λ y k. same y (grow y k) (apart y a xs k out)) h),
        ),
      )
  | inr there ↦ rw there (
    e,
    Seg-from F (E x).next (F x).next t (insert_after a f xs)
        (sym (same x (rw (==_refl x) refl) there))
        (Seg-insert_after E F a f (E x).next t xs fa ff (λ y k o. same y (grow y k) o) d h),
  )
]
  where
    grow : (y : ℕ) → has y xs ≡ true → has y (x ∷ xs) ≡ true
    grow y k = ground arith

-- The slot `s` behind `a` taken out.
pub Seg-delete :
    (E F : Memory) (a s p t : ℕ) (xs : List ℕ)
    → (E a).next ≡ s
    → (F a).next ≡ (E s).next
    → ((x : ℕ) → has x xs ≡ true → (x == a) ≡ false → (x == s) ≡ false → (F x).next ≡ (E x).next)
    → NoDup xs
    → has a xs ≡ true
    → (p == s) ≡ false
    → (a == s) ≡ false
    → (s == t) ≡ false
    → Seg E p xs t
    → Seg F p (delete s xs) t
Seg-delete E F a s p t [] ea fa same d k ps ans st h = absurd (cc)
Seg-delete E F a s p t (x ∷ xs) ea fa same (n, d) k ps ans st (e, h) =
    let xs_other : (x == s) ≡ false = ap (λ y. y == s) (sym e) ∙ ps in
    rw xs_other (
      e,
      elim (Bool-cases (a == x)) [
        | inl here ↦
            let w : a ≡ x = (==_iff a x).0 here in
            let out : has a xs ≡ false = ap (λ y. has y xs) w ∙ n in
            Seg-from F (E s).next (F x).next t (delete s xs) (sym fa ∙ ap (λ y. (F y).next) w) (
              behind xs (λ y k2. k2) out d
                (Seg-from E (E x).next s t xs (ap (λ y. (E y).next) (sym w) ∙ ea) h))
        | inr there ↦
            let k2 : has a xs ≡ true = let k3 = rw there at k in k3 in
            let xa = ==_other a x there in
            let ps2 : ((E x).next == s) ≡ false = elim (Bool-cases ((E x).next == s)) [
              | inl b ↦
                  absurd
                    (twice xs k2 d (Seg-from E (E x).next s t xs ((==_iff (E x).next s).0 b) h))
              | inr b ↦ b
            ] in
            Seg-from F (E x).next (F x).next t (delete s xs)
              (sym (same x (rw (==_refl x) refl) xa (ap (λ y. y == s) (sym e) ∙ ps)))
              (Seg-delete E F a s (E x).next t xs ea fa (λ y k3 o q. same y (grow y k3) o q) d k2
                ps2 ans st h)
      ],
    )
  where
    grow : (y : ℕ) → has y xs ≡ true → has y (x ∷ xs) ≡ true
    grow y k2 = ground arith

    behind :
        (ys : List ℕ)
        → ((y : ℕ) → has y ys ≡ true → has y xs ≡ true)
        → has a xs ≡ false
        → NoDup ys
        → Seg E s ys t
        → Seg F (E s).next (delete s ys) t
    behind [] inside out dd hh = absurd (let z = (==_iff s t).1 hh in cc)
    behind (y ∷ ys) inside out (m, dd) (f, hh) =
        let z : (y == s) ≡ true = (==_iff y s).1 (sym f) in
        rw z (
          Seg-from F (E y).next (E s).next t ys (ap (λ w. (E w).next) (sym f)) (
            Seg-cong E F (E y).next t ys
              (λ w k2.
                same w (grow w (inside w (ground arith)))
                  (apart w a xs (inside w (ground arith)) out)
                  (apart w s ys k2 (ap (λ v. has v ys) f ∙ m)))
              hh))

    twice : (ys : List ℕ) → has a ys ≡ true → NoDup ys → Seg E s ys t → ⊥
    twice [] k2 dd hh = cc
    twice (y ∷ ys) k2 (m, dd) (f, hh) =
        let ay : (a == y) ≡ false = ap (λ w. a == w) (sym f) ∙ ans in
        let k3 : has a ys ≡ true = let k4 = rw ay at k2 in k4 in
        let k5 = next-Seg E (E y).next t a ys hh k3 (ap (λ w. w == t) ea ∙ st) in
        let m2 : has (E a).next ys ≡ false = ap (λ w. has w ys) (ea ∙ f) ∙ m in cc

-- No slot of the way leads to itself.
pub no_loop :
    (E : Memory) (s t a : ℕ) (xs : List ℕ)
    → NoDup xs
    → Seg E s xs t
    → has a xs ≡ true
    → (a == t) ≡ false
    → ¬ ((E a).next ≡ a)
no_loop E s t a [] d h k o loop = absurd (cc)
no_loop E s t a (x ∷ xs) (n, d) (e, h) k o loop = elim (Bool-cases (a == x)) [
  | inl here ↦
      let same = (==_iff a x).0 here in
      let back : Seg E a xs t =
        Seg-from E (E x).next a t xs (ap (λ y. (E y).next) (sym same) ∙ loop) h in
      let out : has a xs ≡ false = ap (λ y. has y xs) same ∙ n in starts xs back out
  | inr there ↦ no_loop E (E x).next t a xs d h (let k2 = rw there at k in k2) o loop
]
  where
    starts : (ys : List ℕ) → Seg E a ys t → has a ys ≡ false → ⊥
    starts [] q out = let z = (==_iff a t).1 q in cc
    starts (y ∷ ys) (q, _) out = let z : has a (y ∷ ys) ≡ true = rw (q, ==_refl y) refl in cc
