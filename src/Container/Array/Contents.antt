-- ===== src/Container/Array/Contents.antt =====
-- What an `Array` holds, as a list, and what every operation does to that list.
use eqp.Common.{
  ℕ, ◌+◌, ◌-◌, ◌*◌, ◌^◌, ◌≤◌, ◌<◌, ◌≡◌, refl, ap, sym, ◌∙◌, Option, none, some, List, arith, length,
  take, drop, set, get_elem?, [], ◌∷◌, ◌++◌, false, ◌==◌, Bool-cases, inl, inr, length-take,
  take-set_next, ltb, get_elem?-take, take-set_lt, take-take, not, swap_remove, get_elem?_lt,
  take-set_ge, leb, take_all, drop_all, length-drop, length-append, take-append_of_le, take-drop,
}
use eqp.Container.Array.{
  Array, read_slot, create_with_capacity, push_back, get, set_at, pop_back, swap_and_pop,
  shift_left, reserve, clear, clear_from_index,
}
use eqp.Container.Array.Valid.{
  IsValid, grow_lem, write_slot_lem, set-IsValid, read_slot_lem, copy_slot_lem, slots_of_lem,
  length-resize, take-resize, offset-lt,
}

module _ {ℓ} {A : Type ℓ} where
  -- The elements, first to last; `none` for one that was pushed and not yet written.
  abbrev pub contents : Array A → List (Option A)
  contents a = take a.count a.slots

  -- A new array holds nothing.
  pub contents-create_with_capacity :
      (size n : ℕ) → contents (create_with_capacity {A = A} size n) ≡ []
  unfolding create_with_capacity
  contents-create_with_capacity size n = refl

  pub length-contents : {a : Array A} → IsValid a → length (contents a) ≡ a.count
  length-contents {a} v = omega (arith, length-take a.count a.slots)

  -- `array_get` answers for the indices below the count only, and the slot it designates holds the
  -- element at that place.
  pub get_lem :
      {a : Array A} (i : ℕ)
      → IsValid a
      → (i < a.count → (get a i ≡ some i) × (read_slot a i ≡ get_elem? (contents a) i))
        × (a.count ≤ i → get a i ≡ none)
  unfolding get
  get_lem {a} i v = (
    λ h. (ground arith, read_slot_lem i v (omega arith) ∙ sym (get_elem?-take a.count i a.slots h)),
    λ h. ground arith,
  )

  -- `array_push_back` appends the value to a valid array, whether it had room or was reallocated. In
  -- an array without room, twice the capacity times the element size must be below 2^32, so that the
  -- size of the memory does not go round.
  pub push_back_lem :
      {a : Array A} (x : A)
      → IsValid a
      → (a.count ≡ a.capacity → a.capacity * 2 * a.element_size < 2 ^ 32)
      → (b : Array A) × (push_back a (some x) ≡ some b)
        × IsValid b
        × (contents b ≡ contents a ++ some x ∷ [])
        × (b.capacity ≤ a.capacity * 2)
        × (b.element_size ≡ a.element_size)
  unfolding push_back
  push_back_lem {a} x v room =
      let (ok, counted, larger, bound, sized, kept) = grow_lem v room in
      (
        _,
        write_slot_lem a.count (some x) ok (omega arith),
        set-IsValid a.count (some x) ok,
        take-set_next _ a.count _ (some x) counted (omega (arith, ok.allocated))
            ∙ ap (λ t. t ++ some x ∷ []) kept,
        bound,
        sized,
      )

  -- `array_set` on a slot in use replaces that element.
  pub set_at_lem :
      {a : Array A} (i : ℕ) (x : A)
      → IsValid a
      → i < a.count
      → (b : Array A) × (set_at a i x ≡ some b)
        × IsValid b
        × (contents b ≡ set (contents a) i (some x))
  unfolding set_at
  set_at_lem {a} i x v h = (
    _,
    write_slot_lem i (some x) v (omega arith),
    set-IsValid i (some x) v,
    take-set_lt a.count i a.slots (some x),
  )

  -- `array_pop_back` drops the last element, and does nothing to an empty array.
  pub pop_back_lem :
      {a : Array A}
      → IsValid a
      → IsValid (pop_back a) × (contents (pop_back a) ≡ take (a.count - 1) (contents a))
  unfolding pop_back
  pop_back_lem {a} v = elim (Bool-cases (ltb 0 a.count)) [
    | inl more ↦ rw more (ground arith, sym (take-take (a.count - 1) a.count a.slots (omega arith)))
    | inr none_left ↦ rw none_left (
      v,
      ap (λ k. take k a.slots) (ground arith)
          ∙ sym (take-take (a.count - 1) a.count a.slots (omega arith)),
    )
  ]

  -- The abstract removal, in terms of the slots.
  swap_remove-contents :
      {a : Array A} (i : ℕ) (x : Option A)
      → IsValid a
      → i < a.count
      → get_elem? a.slots (a.count - 1) ≡ some x
      → swap_remove i (contents a) ≡ take (a.count - 1) (set a.slots i x)
  swap_remove-contents {a} i x v h got =
      rw
        (
          length-contents v,
          get_elem?-take a.count (a.count - 1) a.slots (omega arith),
          got,
          ← take-set_lt a.count i a.slots x,
        )
        (take-take (a.count - 1) a.count (set a.slots i x) (omega arith))

  -- `array_swap_and_pop` inside the array removes that element and puts the last one in its place;
  -- it reports a move unless it was the last. Outside it does nothing.
  pub swap_and_pop_lem :
      {a : Array A} (i : ℕ)
      → IsValid a
      → (i < a.count
          → (b : Array A) × (swap_and_pop a i ≡ some (not (i == (a.count - 1)), b))
            × IsValid b
            × (b.count + 1 ≡ a.count)
            × (contents b ≡ swap_remove i (contents a)))
        × (a.count ≤ i → swap_and_pop a i ≡ some (false, a))
  unfolding swap_and_pop
  swap_and_pop_lem {a} i v = (inside, λ h. ground arith)
    where
      inside :
          i < a.count
          → (b : Array A) × (swap_and_pop a i ≡ some (not (i == (a.count - 1)), b))
            × IsValid b
            × (b.count + 1 ≡ a.count)
            × (contents b ≡ swap_remove i (contents a))
      inside h =
          let (x, got) = get_elem?_lt a.slots (a.count - 1) (omega arith) in
          elim (Bool-cases (i == (a.count - 1))) [
            | inl same ↦ (
              record a { count = a.count - 1 },
              ground arith,
              ground arith,
              omega arith,
              sym (
                  swap_remove-contents i x v h got
                  ∙ take-set_ge (a.count - 1) i a.slots x (ground arith)),
            )
            | inr other ↦
                let popped : IsValid (record a { count = a.count - 1 }) = ground arith in
                let copied =
                  copy_slot_lem (a.count - 1) i x popped (omega arith) (omega arith) got in
                (
                  record a { count = a.count - 1; slots = set a.slots i x },
                  ground (arith, copied),
                  set-IsValid i x popped,
                  omega arith,
                  sym (swap_remove-contents i x v h got),
                )
          ]

  -- `array_shift_left` drops that many elements from the front.
  pub shift_left_lem :
      {a : Array A} (n : ℕ)
      → IsValid a
      → (b : Array A) × (shift_left a n ≡ some b)
        × IsValid b
        × (contents b ≡ drop n (contents a))
        × (b.capacity ≡ a.capacity)
        × (b.element_size ≡ a.element_size)
  unfolding shift_left
  shift_left_lem {a} n v = elim (Bool-cases (leb a.count n)) [
    | inl over ↦ (
      clear a,
      ground arith,
      ground arith,
      sym (drop_all n (contents a) (ground (arith, length-contents v))),
      refl,
      refl,
    )
    | inr within ↦
        let left = a.count - n in
        let moved : length (take left (drop n a.slots)) ≡ left =
          rw (length-take, length-drop) (ground arith) in
        (
          record a { count = left; slots = take left (drop n a.slots) ++ drop left a.slots },
          ground (
            arith,
            offset-lt n a.capacity a.element_size,
            offset-lt left a.capacity a.element_size,
          ),
          ground (
            arith,
            length-append (take left (drop n a.slots)) (drop left a.slots),
            length-drop left a.slots,
          ),
          take-append_of_le left (take left (drop n a.slots)) _ (omega arith)
              ∙ take-take left left _ (omega arith)
              ∙ take-drop a.count n a.slots (ground arith),
          refl,
          refl,
        )
  ]

  -- `array_reserve` keeps the elements and makes room for `n`.
  pub reserve_lem :
      {a : Array A} (n : ℕ)
      → IsValid a
      → n * a.element_size < 2 ^ 32
      → IsValid (reserve a n) × (contents (reserve a n) ≡ contents a) × (n ≤ (reserve a n).capacity)
  unfolding reserve
  reserve_lem {a} n v h = elim (Bool-cases (leb n a.capacity)) [
    | inl enough ↦ rw enough (v, refl, ground arith)
    | inr more ↦
        rw (more, slots_of_lem n a.element_size v.sized h)
          (
            record {
              minimum = ground arith;
              within = ground arith;
              allocated = length-resize n a.slots;
              bytes = h;
              sized = v.sized;
            },
            take-resize a.count n a.slots (omega arith) (ground arith),
            omega arith,
          )
  ]

  -- `array_clear_from_index` keeps the elements before the index.
  pub clear_from_index_lem :
      {a : Array A} (i : ℕ)
      → IsValid a
      → IsValid (clear_from_index a i) × (contents (clear_from_index a i) ≡ take i (contents a))
  unfolding clear_from_index
  clear_from_index_lem {a} i v = elim (Bool-cases (ltb i a.count)) [
    | inl shorter ↦ rw shorter (ground arith, sym (take-take i a.count a.slots (ground arith)))
    | inr longer ↦ rw longer (v, sym (take_all i (contents a) (ground (arith, length-contents v))))
  ]

  -- `array_swap_and_pop` inside a valid array takes one element out and puts the last one in its
  -- place;
  -- it reports a move unless it was the last.
  pub swap_and_pop-swap_remove :
      {a : Array A} (i : ℕ)
      → IsValid a
      → i < a.count
      → (b : Array A) × (swap_and_pop a i ≡ some (not (i == (a.count - 1)), b))
        × IsValid b
        × (b.count + 1 ≡ a.count)
        × (contents b ≡ swap_remove i (contents a))
  swap_and_pop-swap_remove i v h = (swap_and_pop_lem i v).0 h
