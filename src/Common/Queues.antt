-- ===== src/Common/Queues.antt =====
-- Searching an array and taking out what was found: lists whose order does not matter.
use Prim.Native.Nat.{ℕ, zero, suc, ◌+◌, ◌-◌, ◌≤◌, ◌<◌}
use mathlib.Core.Path.{◌≡◌, refl, sym, ap, subst, ◌∙◌}
use mathlib.Core.Logic.{◌⊎◌, inl, inr}
use mathlib.Core.Bool.{Bool, true, false}
use mathlib.Core.Option.{Option, none, some, some-injective}
use mathlib.Core.List.{List, [], ◌∷◌, ◌++◌}
use native.Mathlib.Omega.{arith}
use eqp.Common.Tests.{◌==◌, Bool-cases, if◌then◌else◌, Option-cases}
use eqp.Common.Lists.{
  length, get_elem?, set, take, drop, take-take, take-set_ge, length-take, swap_remove,
  get_elem?_lt, length-set, get_elem?-set_ne, get_elem?-set_self,
}

module _ {ℓ} {A : Type ℓ} where
  -- The first element that passes the test, with its index.
  abbrev pub find_from : ℕ → (A → Bool) → List A → Option (ℕ × A)
  find_from i p [] = none
  find_from i p (x ∷ xs) = let rest = find_from (i + 1) p xs in if p x then some (i, x) else rest

  abbrev pub find : (A → Bool) → List A → Option (ℕ × A)
  find = find_from 0

  abbrev pub count : (A → Bool) → List A → ℕ
  count p [] = 0
  count p (x ∷ xs) = (if p x then 1 else 0) + count p xs

  get_elem?_inside : (xs : List A) (i : ℕ) (x : A) → get_elem? xs i ≡ some x → i < length xs
  get_elem?_inside [] i x h = absurd (cc)
  get_elem?_inside (y ∷ xs) zero x h = omega arith
  get_elem?_inside (y ∷ xs) (suc i) x h = let deeper = get_elem?_inside xs i x h in omega arith

  -- Being an element.
  abbrev pub In : A → List A → Type ℓ
  In x xs = (i : ℕ) × (get_elem? xs i ≡ some x)

  In-cons : (x y : A) (xs : List A) → In y xs → In y (x ∷ xs)
  In-cons x y xs (i, e) = (suc i, e)

  pub In-set : (y : A) (xs : List A) (i : ℕ) (v : A) → In y (set xs i v) → In y xs ⊎ (y ≡ v)
  In-set y [] i v (j, e) = absurd (cc)
  In-set y (x ∷ xs) zero v (zero, e) = inr (cc)
  In-set y (x ∷ xs) zero v (suc j, e) = inl (suc j, e)
  In-set y (x ∷ xs) (suc i) v (zero, e) = inl (zero, e)
  In-set y (x ∷ xs) (suc i) v (suc j, e) = elim (In-set y xs i v (j, e)) [
    | inl there ↦ inl (In-cons x y xs there)
    | inr same ↦ inr same
  ]

  pub In-take : (y : A) (n : ℕ) (xs : List A) → In y (take n xs) → In y xs
  In-take y zero xs (j, e) = absurd (cc)
  In-take y (suc n) [] (j, e) = absurd (cc)
  In-take y (suc n) (x ∷ xs) (zero, e) = (zero, e)
  In-take y (suc n) (x ∷ xs) (suc j, e) = In-cons x y xs (In-take y n xs (j, e))

  pub In-append_one : (y : A) (xs : List A) (v : A) → In y (xs ++ v ∷ []) → In y xs ⊎ (y ≡ v)
  In-append_one y [] v (zero, e) = inr (cc)
  In-append_one y [] v (suc j, e) = absurd (cc)
  In-append_one y (x ∷ xs) v (zero, e) = inl (zero, e)
  In-append_one y (x ∷ xs) v (suc j, e) = elim (In-append_one y xs v (j, e)) [
    | inl there ↦ inl (In-cons x y xs there)
    | inr same ↦ inr same
  ]

  -- The element that goes to the place.
  swap_remove-last :
      (i : ℕ) (x : A) (xs : List A)
      → get_elem? xs i ≡ some x
      → (v : A) × (get_elem? xs (length xs - 1) ≡ some v)
        × (swap_remove i xs ≡ take (length xs - 1) (set xs i v))
  swap_remove-last i x xs h =
      let inside = get_elem?_inside xs i x h in
      let (v, last) = get_elem?_lt xs (length xs - 1) (omega arith) in (v, last, rw last refl)

  pub In-swap_remove :
      (y : A) (i : ℕ) (x : A) (xs : List A)
      → get_elem? xs i ≡ some x
      → In y (swap_remove i xs)
      → In y xs
  In-swap_remove y i x xs got h =
      let (v, last, e) = swap_remove-last i x xs got in
      elim (In-set y xs i v (In-take y (length xs - 1) (set xs i v) (subst (In y) e h))) [
        | inl there ↦ there
        | inr same ↦ (length xs - 1, last ∙ ap some (sym same))
      ]

  abbrev pub one : (A → Bool) → A → ℕ
  one p x = if p x then 1 else 0

  count-set :
      (p : A → Bool) (i : ℕ) (x v : A) (xs : List A)
      → get_elem? xs i ≡ some x
      → count p (set xs i v) + one p x ≡ count p xs + one p v
  count-set p i x v [] h = absurd (cc)
  count-set p zero x v (y ∷ xs) h = let same : y ≡ x = cc in rw same (omega arith)
  count-set p (suc i) x v (y ∷ xs) h = omega (arith, count-set p i x v xs h)

  count-take :
      (p : A → Bool) (n : ℕ) (v : A) (xs : List A)
      → get_elem? xs n ≡ some v
      → length xs ≡ n + 1
      → count p (take n xs) + one p v ≡ count p xs
  count-take p n v [] h k = absurd (cc)
  count-take p zero v (x ∷ []) h k = let same : x ≡ v = cc in rw same (omega arith)
  count-take p zero v (x ∷ (y ∷ xs)) h k = absurd (omega arith)
  count-take p (suc n) v (x ∷ xs) h k = omega (arith, count-take p n v xs h (omega arith))

  -- Taking an element out takes it from the count of those that pass, and no other.
  pub count-swap_remove :
      (p : A → Bool) (i : ℕ) (x : A) (xs : List A)
      → get_elem? xs i ≡ some x
      → count p (swap_remove i xs) + (if p x then 1 else 0) ≡ count p xs
  count-swap_remove p i x xs h =
      let inside = get_elem?_inside xs i x h in
      let (v, last, e) = swap_remove-last i x xs h in
      let size = length-set xs i v in
      let still : get_elem? (set xs i v) (length xs - 1) ≡ some v =
        elim (Bool-cases (i == length xs - 1)) [
          | inl same ↦
              let here : i ≡ length xs - 1 = ground arith in
              ap (get_elem? (set xs i v)) (sym here) ∙ get_elem?-set_self xs i v inside
          | inr other ↦
              get_elem?-set_ne xs i (length xs - 1) v (λ same. absurd (ground arith)) ∙ last
        ] in
      let a = count-set p i x v xs h in
      let b = count-take p (length xs - 1) v (set xs i v) still (omega arith) in rw e (omega arith)

  -- Nobody passes a test that a search finds nobody for.
  find_from-none :
      (i : ℕ) (p : A → Bool) (xs : List A)
      → find_from i p xs ≡ none
      → (x : A) → In x xs
      → p x ≡ false
  find_from-none i p [] e x (j, got) = absurd (cc)
  find_from-none i p (y ∷ xs) e x (zero, got) = elim (Bool-cases (p y)) [
    | inl passes ↦ absurd (let e2 = rw passes at e in cc)
    | inr fails ↦ ap p (sym (cc)) ∙ fails
  ]
  find_from-none i p (y ∷ xs) e x (suc j, got) = elim (Bool-cases (p y)) [
    | inl passes ↦ absurd (let e2 = rw passes at e in cc)
    | inr fails ↦ find_from-none (i + 1) p xs (rw fails at e) x (j, got)
  ]

  -- Whom it finds stands at that place and passes.
  find_from-some :
      (i : ℕ) (p : A → Bool) (xs : List A) (j : ℕ) (x : A)
      → find_from i p xs ≡ some (j, x)
      → (k : ℕ) × (j ≡ i + k) × (get_elem? xs k ≡ some x) × (p x ≡ true)
  find_from-some i p [] j x e = absurd (cc)
  find_from-some i p (y ∷ xs) j x e = elim (Bool-cases (p y)) [
    | inl passes ↦
        let found : some (i, y) ≡ some (j, x) = rw passes at e in
        let same = some-injective (i, y) (j, x) found in
        let place : i ≡ j = ap (λ t. t.0) same in
        (0, omega (arith, place), ap (λ t. some t.1) same, ap (λ t. p t.1) (sym same) ∙ passes)
    | inr fails ↦
        let (k, place, got, passes) = find_from-some (i + 1) p xs j x (rw fails at e) in
        (suc k, omega arith, got, passes)
  ]

  pub find-none : (p : A → Bool) (xs : List A) → find p xs ≡ none → (x : A) → In x xs → p x ≡ false
  find-none p xs e = find_from-none 0 p xs e

  pub find-some :
      (p : A → Bool) (xs : List A) (i : ℕ) (x : A)
      → find p xs ≡ some (i, x)
      → (get_elem? xs i ≡ some x) × (p x ≡ true)
  find-some p xs i x e =
      let (k, place, got, passes) = find_from-some 0 p xs i x e in
      let same : i ≡ k = omega arith in (ap (get_elem? xs) same ∙ got, passes)

  pub In-last : (xs : List A) (v : A) → In v (xs ++ v ∷ [])
  In-last [] v = (0, refl)
  In-last (x ∷ xs) v = In-cons x v (xs ++ v ∷ []) (In-last xs v)

  pub find-nobody :
      (p : A → Bool) (xs : List A) → ((x : A) → In x xs → p x ≡ false) → find p xs ≡ none
  find-nobody p xs h = elim (Option-cases (find p xs)) [
    | inl e ↦ e
    | inr ((i, x), e) ↦
        let (got, passes) = find-some p xs i x e in let fails = h x (i, got) in absurd (cc)
  ]

  -- When exactly the copies of one element pass, it is found.
  pub find-only :
      (p : A → Bool) (xs : List A) (w : A)
      → ((x : A) → In x xs → p x ≡ true → x ≡ w)
      → In w xs
      → p w ≡ true
      → (i : ℕ) × (find p xs ≡ some (i, w))
  find-only p xs w only there passes = elim (Option-cases (find p xs)) [
    | inl e ↦ let fails = find-none p xs e w there in absurd (cc)
    | inr ((i, x), e) ↦
        let (got, passes) = find-some p xs i x e in
        (i, e ∙ ap (λ t. some (i, t)) (only x (i, got) passes))
  ]

  pub count-split :
      (p : A → Bool) (n : ℕ) (xs : List A) → count p (take n xs) + count p (drop n xs) ≡ count p xs
  count-split p zero xs = omega arith
  count-split p (suc n) [] = refl
  count-split p (suc n) (x ∷ xs) = omega (arith, count-split p n xs)

  pub count-take_suc :
      (p : A → Bool) (n : ℕ) (x : A) (xs : List A)
      → get_elem? xs n ≡ some x
      → count p (take (n + 1) xs) ≡ count p (take n xs) + one p x
  count-take_suc p n x [] h = absurd (cc)
  count-take_suc p zero x (y ∷ xs) h = let same : y ≡ x = cc in rw same (omega arith)
  count-take_suc p (suc n) x (y ∷ xs) h =
      let e : suc n + 1 ≡ suc (n + 1) = omega arith in
      rw e (omega (arith, count-take_suc p n x xs h))

  pub take-swap_remove :
      (n i : ℕ) (x : A) (xs : List A)
      → get_elem? xs i ≡ some x
      → n ≤ i
      → take n (swap_remove i xs) ≡ take n xs
  take-swap_remove n i x xs h k =
      let inside = get_elem?_inside xs i x h in
      let (v, last, e) = swap_remove-last i x xs h in
      rw e (take-take n (length xs - 1) (set xs i v) (omega arith) ∙ take-set_ge n i xs v k)

  pub length-swap_remove :
      (i : ℕ) (x : A) (xs : List A)
      → get_elem? xs i ≡ some x
      → length (swap_remove i xs) + 1 ≡ length xs
  length-swap_remove i x xs h =
      let inside = get_elem?_inside xs i x h in
      let (v, last, e) = swap_remove-last i x xs h in
      rw e (omega (arith, length-take (length xs - 1) (set xs i v), length-set xs i v))
