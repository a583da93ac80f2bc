-- ===== src/Container/Array/Tests.antt =====
-- The array's operations on an array of two and one of three elements.
use eqp.Common.{ℕ, ◌≤◌, ◌≡◌, true, ◌+◌, none, some, [], ◌∷◌, arith}
use eqp.Container.Array.{Array, push_back, shift_left, swap_and_pop}
use eqp.Container.Array.Valid.{IsValid}
use eqp.Container.Array.Contents.{contents, push_back_lem, shift_left_lem, swap_and_pop-swap_remove}

abbrev two : Array ℕ
two = record { count = 2; capacity = 2; element_size = 4; slots = some 5 ∷ some 6 ∷ [] }

two-IsValid : IsValid two
two-IsValid = omega arith

abbrev three : Array ℕ
three = record {
  count = 3;
  capacity = 4;
  element_size = 4;
  slots = some 5 ∷ some 6 ∷ some 7 ∷ none ∷ [];
}

three-IsValid : IsValid three
three-IsValid = omega arith

push_back_example :
    (b : Array ℕ) × (push_back two (some 7) ≡ some b)
    × IsValid b
    × (contents b ≡ some 5 ∷ some 6 ∷ some 7 ∷ [])
    × (b.capacity ≤ 4)
    × (b.element_size ≡ 4)
push_back_example = push_back_lem {a = two} 7 two-IsValid (λ e. omega arith)

shift_left_example :
    (b : Array ℕ) × (shift_left three 2 ≡ some b)
    × IsValid b
    × (contents b ≡ some 7 ∷ [])
    × (b.capacity ≡ 4)
    × (b.element_size ≡ 4)
shift_left_example = shift_left_lem {a = three} 2 three-IsValid

swap_and_pop_example :
    (b : Array ℕ) × (swap_and_pop three 0 ≡ some (true, b))
    × IsValid b
    × (b.count + 1 ≡ 3)
    × (contents b ≡ some 7 ∷ some 6 ∷ [])
swap_and_pop_example = swap_and_pop-swap_remove {a = three} 0 three-IsValid (omega arith)
