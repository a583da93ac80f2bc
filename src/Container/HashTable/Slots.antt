-- ===== src/Container/HashTable/Slots.antt =====
-- Lists of different slots, as the chains of src/common/container/eqp_hash_table.c go through them.
use eqp.Common.{
  ℕ, zero, suc, ◌≤◌, ◌<◌, ◌≡◌, refl, sym, ap, ◌∙◌, Bool, true, false, ◌||◌, List, [], ◌∷◌, length,
  ◌==◌, if◌then◌else◌, arith, inl, inr, Bool-cases, ==_refl, ==_iff,
}

abbrev pub has : ℕ → List ℕ → Bool
has a [] = false
has a (x ∷ xs) = a == x || has a xs

abbrev pub NoDup : List ℕ → Type 0
NoDup [] = Unit {0}
NoDup (x ∷ xs) = (has x xs ≡ false) × NoDup xs

-- `f` behind `a`.
abbrev pub insert_after : (a f : ℕ) → List ℕ → List ℕ
insert_after a f [] = []
insert_after a f (x ∷ xs) =
    let rest = insert_after a f xs in if x == a then x ∷ f ∷ xs else x ∷ rest

abbrev pub delete : ℕ → List ℕ → List ℕ
delete s [] = []
delete s (x ∷ xs) = let rest = delete s xs in if x == s then xs else x ∷ rest

pub ==_other : (a b : ℕ) → (a == b) ≡ false → (b == a) ≡ false
==_other a b h = ground arith

pub has_subst : (a b : ℕ) (xs : List ℕ) → (a == b) ≡ true → has b xs ≡ true → has a xs ≡ true
has_subst a b xs e h = ap (λ t. has t xs) ((==_iff a b).0 e) ∙ h

-- An element and one that is missing are different.
pub apart : (a b : ℕ) (xs : List ℕ) → has a xs ≡ true → has b xs ≡ false → (a == b) ≡ false
apart a b xs h n = elim (Bool-cases (a == b)) [
  | inl e ↦ absurd (let h2 = has_subst b a xs (ground arith) h in cc)
  | inr other ↦ other
]

pub has-insert_after_new :
    (a f : ℕ) (xs : List ℕ) → has a xs ≡ true → has f (insert_after a f xs) ≡ true
has-insert_after_new a f [] h = absurd (cc)
has-insert_after_new a f (x ∷ xs) h = elim (Bool-cases (x == a)) [
  | inl e ↦ rw e (ground arith)
  | inr n ↦
      let deeper = has-insert_after_new a f xs (let k = rw (==_other x a n) at h in k) in
      rw n (ground arith)
]

pub has-insert_after_old :
    (a f y : ℕ) (xs : List ℕ) → has y xs ≡ true → has y (insert_after a f xs) ≡ true
has-insert_after_old a f y [] h = absurd (cc)
has-insert_after_old a f y (x ∷ xs) h = elim (Bool-cases (x == a)) [
  | inl e ↦ rw e (ground arith)
  | inr n ↦ elim (Bool-cases (y == x)) [
    | inl here ↦ rw (n, here) refl
    | inr there ↦
        let deeper = has-insert_after_old a f y xs (let k = rw there at h in k) in
        rw (n, there) deeper
  ]
]

-- Nothing else is in the list.
pub has-insert_after_only :
    (a f y : ℕ) (xs : List ℕ)
    → (y == f) ≡ false
    → has y (insert_after a f xs) ≡ true
    → has y xs ≡ true
has-insert_after_only a f y [] o h = absurd (cc)
has-insert_after_only a f y (x ∷ xs) o h = elim (Bool-cases (x == a)) [
  | inl e ↦ let k = rw (e, o) at h in k
  | inr n ↦ elim (Bool-cases (y == x)) [
    | inl here ↦ rw here refl
    | inr there ↦ rw there (has-insert_after_only a f y xs o (let k = rw (n, there) at h in k))
  ]
]

pub NoDup-insert_after :
    (a f : ℕ) (xs : List ℕ) → has f xs ≡ false → NoDup xs → NoDup (insert_after a f xs)
NoDup-insert_after a f [] o d = tt
NoDup-insert_after a f (x ∷ xs) o (n, d) = elim (Bool-cases (f == x)) [
  | inl e ↦ absurd (let k = rw e at o in cc)
  | inr e ↦
      let out : has f xs ≡ false = let k = rw e at o in k in
      let e2 = ==_other f x e in
      elim (Bool-cases (x == a)) [
        | inl here ↦ rw here (rw (e2, n) refl, (out, d))
        | inr there ↦ rw there (
          elim (Bool-cases (has x (insert_after a f xs))) [
            | inl inside ↦ absurd (let k = has-insert_after_only a f x xs e2 inside in cc)
            | inr outside ↦ outside
          ],
          NoDup-insert_after a f xs out d,
        )
      ]
]

pub has-delete_in : (s y : ℕ) (xs : List ℕ) → has y (delete s xs) ≡ true → has y xs ≡ true
has-delete_in s y [] h = absurd (cc)
has-delete_in s y (x ∷ xs) h = elim (Bool-cases (y == x)) [
  | inl here ↦ rw here refl
  | inr there ↦ elim (Bool-cases (x == s)) [
    | inl e ↦ rw there (let k = rw e at h in k)
    | inr n ↦ rw there (has-delete_in s y xs (let k = rw (n, there) at h in k))
  ]
]

pub has-delete_other :
    (s y : ℕ) (xs : List ℕ) → (y == s) ≡ false → has y xs ≡ true → has y (delete s xs) ≡ true
has-delete_other s y [] o h = absurd (cc)
has-delete_other s y (x ∷ xs) o h = elim (Bool-cases (y == x)) [
  | inl here ↦ let e : (x == s) ≡ false = ground arith in rw (e, here) refl
  | inr there ↦
      let k : has y xs ≡ true = let k = rw there at h in k in
      elim (Bool-cases (x == s)) [
        | inl e ↦ rw e k
        | inr n ↦ rw (n, there) (has-delete_other s y xs o k)
      ]
]

pub has-delete_self : (s : ℕ) (xs : List ℕ) → NoDup xs → has s (delete s xs) ≡ false
has-delete_self s [] d = refl
has-delete_self s (x ∷ xs) (n, d) = elim (Bool-cases (x == s)) [
  | inl e ↦ rw e (ap (λ t. has t xs) (sym ((==_iff x s).0 e)) ∙ n)
  | inr e ↦ rw (e, ==_other x s e) (has-delete_self s xs d)
]

pub NoDup-delete : (s : ℕ) (xs : List ℕ) → NoDup xs → NoDup (delete s xs)
NoDup-delete s [] d = tt
NoDup-delete s (x ∷ xs) (n, d) = elim (Bool-cases (x == s)) [
  | inl e ↦ rw e d
  | inr e ↦ rw e (
    elim (Bool-cases (has x (delete s xs))) [
      | inl inside ↦ absurd (let k = has-delete_in s x xs inside in cc)
      | inr outside ↦ outside
    ],
    NoDup-delete s xs d,
  )
]

length-delete : (s : ℕ) (xs : List ℕ) → has s xs ≡ true → length xs ≡ suc (length (delete s xs))
length-delete s [] h = absurd (cc)
length-delete s (x ∷ xs) h = elim (Bool-cases (x == s)) [
  | inl e ↦ rw e refl
  | inr e ↦ rw e (ap suc (length-delete s xs (let k = rw (==_other x s e) at h in k)))
]

-- Different numbers below `c` are at most `c`.
pub length-NoDup :
    (c : ℕ) (xs : List ℕ) → NoDup xs → ((x : ℕ) → has x xs ≡ true → x < c) → length xs ≤ c
length-NoDup zero [] d below = omega arith
length-NoDup zero (x ∷ xs) d below = absurd (let k = below x (rw (==_refl x) refl) in omega arith)
length-NoDup (suc c) xs d below = elim (Bool-cases (has c xs)) [
  | inl inside ↦
      let shorter = length-NoDup c (delete c xs) (NoDup-delete c xs d) (λ x h.
        let k = below x (has-delete_in c x xs h) in
        let o = apart x c (delete c xs) h (has-delete_self c xs d) in ground arith) in
      omega (arith, length-delete c xs inside)
  | inr outside ↦
      let shorter =
        length-NoDup c xs d
          (λ x h. let k = below x h in let o = apart x c xs h outside in ground arith) in
      omega arith
]
