-- ===== src/Common/Texts.antt =====
-- Texts as lists of their bytes, and functions changed at one argument.
use Prim.Native.Nat.{ℕ}
use mathlib.Core.Path.{◌≡◌, refl, ap, ◌∙◌}
use mathlib.Core.Bool.{Bool, true, false, ◌&&◌}
use mathlib.Core.List.{List, [], ◌∷◌}
use eqp.Common.Tests.{◌==◌, if◌then◌else◌, ==_iff, ==_refl, both-true}

-- `strcmp(a, b) == 0`
abbrev pub same_text : List ℕ → List ℕ → Bool
same_text [] [] = true
same_text [] (y ∷ ys) = false
same_text (x ∷ xs) [] = false
same_text (x ∷ xs) (y ∷ ys) = x == y && same_text xs ys

pub same_text-eq : (xs ys : List ℕ) → same_text xs ys ≡ true → xs ≡ ys
same_text-eq [] [] h = refl
same_text-eq [] (y ∷ ys) h = absurd (cc)
same_text-eq (x ∷ xs) [] h = absurd (cc)
same_text-eq (x ∷ xs) (y ∷ ys) h =
    let (a, b) = both-true (x == y) (same_text xs ys) h in
    ap (λ t. t ∷ xs) ((==_iff x y).0 a) ∙ ap (λ t. y ∷ t) (same_text-eq xs ys b)

pub same_text_refl : (xs : List ℕ) → same_text xs xs ≡ true
same_text_refl [] = refl
same_text_refl (x ∷ xs) = rw (==_refl x, same_text_refl xs) refl

abbrev pub update : {A : Type 0} → (ℕ → A) → ℕ → A → ℕ → A
update f i v j = if i == j then v else f j

pub update_other :
    {A : Type 0} (f : ℕ → A) (p q : ℕ) (v : A) → (p == q) ≡ false → update f p v q ≡ f q
update_other f p q v e = rw e refl

pub update_self : {A : Type 0} (f : ℕ → A) (p : ℕ) (v : A) → update f p v p ≡ v
update_self f p v = rw (==_refl p) refl
