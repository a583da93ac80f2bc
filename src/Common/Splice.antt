-- ===== src/Common/Splice.antt =====
-- Writing several bytes into a stretch of memory, and reads after writes.
use Prim.Native.Nat.{ℕ, zero, suc, ◌+◌, ◌≤◌, ◌<◌}
use mathlib.Core.Path.{◌≡◌, refl, ap, sym, ◌∙◌}
use mathlib.Core.List.{List, [], ◌∷◌, ◌++◌, append_assoc}
use native.Mathlib.Omega.{arith}
use eqp.Common.Tests.{◌==◌, if◌then◌else◌}
use eqp.Common.Lists.{
  length, get_or, set, take, drop, replicate, length-append, length-set, length-take, length-drop,
  drop-nil, take-append-drop, take-append_of_le, take_all, take-take, take-set_next, drop-length,
  drop-set_lt,
}

module _ {ℓ} {A : Type ℓ} where
  -- The list with `bs` in place of what stands at `p` and behind.
  abbrev pub splice : ℕ → List A → List A → List A
  splice p bs xs = take p xs ++ (bs ++ drop (p + length bs) xs)

  pub splice-nil : (p : ℕ) (xs : List A) → splice p [] xs ≡ xs
  splice-nil p xs = ap (λ k. take p xs ++ drop k xs) (omega arith) ∙ take-append-drop p xs

  pub splice-cons :
      (p : ℕ) (b : A) (bs xs : List A)
      → p < length xs
      → splice (p + 1) bs (set xs p b) ≡ splice p (b ∷ bs) xs
  splice-cons p b bs xs h =
      let e : p + suc (length bs) ≡ p + 1 + length bs = omega arith in
      rw (
        take-set_next (p + 1) p xs b refl h,
        drop-set_lt (p + 1 + length bs) p xs b (omega arith),
        append_assoc,
        e,
      )

  pub length-splice :
      (p : ℕ) (bs xs : List A) → p + length bs ≤ length xs → length (splice p bs xs) ≡ length xs
  length-splice p bs xs h =
      rw (length-append, length-append, length-take, length-drop) (omega arith)

  pub take-drop-splice :
      (p : ℕ) (bs xs : List A) → p ≤ length xs → take (length bs) (drop p (splice p bs xs)) ≡ bs
  take-drop-splice p bs xs h =
      let e : length (take p xs) ≡ p = omega (arith, length-take p xs) in
      let behind = drop (p + length bs) xs in
      ap (λ k. take (length bs) (drop k (splice p bs xs))) (sym e)
      ∙ ap (take (length bs)) (drop-length (take p xs) (bs ++ behind))
      ∙ take-append_of_le (length bs) bs behind (omega arith)
      ∙ take_all (length bs) bs (omega arith)

  pub splice-append :
      (p : ℕ) (bs cs xs : List A)
      → p + length bs + length cs ≤ length xs
      → splice p (bs ++ cs) xs ≡ splice (p + length bs) cs (splice p bs xs)
  splice-append p [] cs xs h =
      ap (λ k. splice k cs xs) (omega arith) ∙ ap (splice (p + 0) cs) (sym (splice-nil p xs))
  splice-append p (b ∷ bs) cs xs h =
      let e : p + 1 + length bs ≡ p + suc (length bs) = omega arith in
      sym (splice-cons p b (bs ++ cs) xs (omega arith))
      ∙ splice-append (p + 1) bs cs (set xs p b) (rw length-set (omega arith))
      ∙ ap (λ k. splice k cs (splice (p + 1) bs (set xs p b))) e
      ∙ ap (splice (p + suc (length bs)) cs) (splice-cons p b bs xs (omega arith))

  pub take-splice : (p : ℕ) (bs xs : List A) → p ≤ length xs → take p (splice p bs xs) ≡ take p xs
  take-splice p bs xs h =
      take-append_of_le p (take p xs) _ (omega (arith, length-take p xs))
      ∙ take-take p p xs (omega arith)

  pub drop-drop : (m n : ℕ) (xs : List A) → drop m (drop n xs) ≡ drop (n + m) xs
  drop-drop m zero xs = ap (λ k. drop k xs) (omega arith)
  drop-drop m (suc n) [] = drop-nil m ∙ sym (drop-nil (suc n + m))
  drop-drop m (suc n) (x ∷ xs) =
      let e : suc n + m ≡ suc (n + m) = omega arith in rw e (drop-drop m n xs)

  pub drop-splice :
      (p : ℕ) (bs xs : List A)
      → p ≤ length xs
      → drop (p + length bs) (splice p bs xs) ≡ drop (p + length bs) xs
  drop-splice p bs xs h =
      let e : length (take p xs) ≡ p = omega (arith, length-take p xs) in
      let behind = drop (p + length bs) xs in
      sym (drop-drop (length bs) p (splice p bs xs))
      ∙ ap (λ k. drop (length bs) (drop k (splice p bs xs))) (sym e)
      ∙ ap (drop (length bs)) (drop-length (take p xs) (bs ++ behind))
      ∙ drop-length bs behind

  pub get_or-set :
      (xs : List A) (i j : ℕ) (v d : A)
      → i < length xs
      → get_or (set xs i v) j d ≡ (if i == j then v else get_or xs j d)
  get_or-set [] i j v d h = absurd (omega arith)
  get_or-set (x ∷ xs) zero zero v d h = refl
  get_or-set (x ∷ xs) zero (suc j) v d h = ground arith
  get_or-set (x ∷ xs) (suc i) zero v d h = ground arith
  get_or-set (x ∷ xs) (suc i) (suc j) v d h = ground (arith, get_or-set xs i j v d)

  pub get_or-set_ge :
      (xs : List A) (i j : ℕ) (v d : A) → length xs ≤ i → get_or (set xs i v) j d ≡ get_or xs j d
  get_or-set_ge [] i j v d h = refl
  get_or-set_ge (x ∷ xs) zero j v d h = absurd (omega arith)
  get_or-set_ge (x ∷ xs) (suc i) zero v d h = refl
  get_or-set_ge (x ∷ xs) (suc i) (suc j) v d h = get_or-set_ge xs i j v d (omega arith)

  pub get_or-replicate : (n i : ℕ) (a d : A) → i < n → get_or (replicate n a) i d ≡ a
  get_or-replicate zero i a d h = absurd (omega arith)
  get_or-replicate (suc n) zero a d h = refl
  get_or-replicate (suc n) (suc i) a d h = get_or-replicate n i a d (omega arith)
