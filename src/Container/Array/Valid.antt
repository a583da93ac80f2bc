-- ===== src/Container/Array/Valid.antt =====
-- The representation invariant of `Array`: the count fits the capacity, the capacity is what was
-- allocated, and no byte offset inside the array wraps.
use eqp.Common.{
  inl, inr, ℕ, ◌+◌, ◌*◌, ◌%◌, ◌^◌, ◌≤◌, ◌<◌, ◌≡◌, refl, Option, some, List, arith, length,
  length-append, length-take, length-replicate, length-set, get_elem?, Bool-cases, set, take, leb,
  ltb, inl, inr, take-append_of_le, ◌∙◌, take-take,
}
use native.Mathlib.Nat.{mod-eq_of_lt, mul-div_cancel, le-mul_of_pos_right}
use eqp.Container.Array.{
  Array, allocate, min_capacity, slots_of, resize, read_slot, write_slot, copy_slot,
  create_with_capacity, grow,
}

pub record IsValid {ℓ} {A : Type ℓ} (a : Array A) : Type 0 where
  pub minimum : min_capacity ≤ a.capacity
  pub within : a.count ≤ a.capacity
  pub allocated : length a.slots ≡ a.capacity
  pub bytes : a.capacity * a.element_size < 2 ^ 32
  pub sized : 0 < a.element_size

pub slots_of_lem : (n s : ℕ) → 0 < s → n * s < 2 ^ 32 → slots_of n s ≡ n
slots_of_lem n s p h = rw (mod-eq_of_lt h) (mul-div_cancel n p)

pub length-resize {ℓ} : {A : Type ℓ} (n : ℕ) (xs : List (Option A)) → length (resize n xs) ≡ n
length-resize n xs = rw (length-append, length-take, length-replicate) (omega arith)

-- A larger allocation keeps what stood in the old one.
pub take-resize {ℓ} :
    {A : Type ℓ} (k n : ℕ) (xs : List (Option A))
    → k ≤ length xs
    → k ≤ n
    → take k (resize n xs) ≡ take k xs
take-resize k n xs h g =
    take-append_of_le k (take n xs) _ (rw length-take (omega arith)) ∙ take-take k n xs g

-- An offset below the capacity is below 2^32.
pub offset-lt : (i c s : ℕ) → i ≤ c → c * s < 2 ^ 32 → i * s < 2 ^ 32
offset-lt i c s h b = grind arith

-- A capacity whose bytes fit 32 bits fits 32 bits.
pub capacity-lt : (c s : ℕ) → 0 < s → c * s < 2 ^ 32 → c < 2 ^ 32
capacity-lt c s p b = omega (arith, le-mul_of_pos_right c p)

module _ {ℓ} {A : Type ℓ} where
  allocate-IsValid :
      (size n : ℕ)
      → 0 < size
      → min_capacity ≤ n
      → n * size < 2 ^ 32
      → IsValid (allocate {A = A} size n)
  unfolding allocate
  allocate-IsValid size n p q h =
      let small : size < 2 ^ 32 = grind arith in
      let wide : n * size < 2 ^ 64 = omega arith in
      record {
        minimum = q;
        within = omega arith;
        allocated = rw (length-replicate, mod-eq_of_lt wide) (mul-div_cancel n p);
        bytes = rw (mod-eq_of_lt small) h;
        sized = rw (mod-eq_of_lt small) p;
      }

  -- A new array is valid where its bytes fit 32 bits.
  pub create_with_capacity-IsValid :
      (size capacity : ℕ)
      → 0 < size
      → capacity * size < 2 ^ 32
      → min_capacity * size < 2 ^ 32
      → IsValid (create_with_capacity {A = A} size capacity)
  unfolding create_with_capacity
  create_with_capacity-IsValid size capacity p h k = elim (Bool-cases (ltb capacity min_capacity)) [
    | inl few ↦ rw few (allocate-IsValid size min_capacity p (omega arith) k)
    | inr enough ↦ rw enough (allocate-IsValid size capacity p (ground arith) h)
  ]

  pub read_slot_lem :
      {a : Array A} (i : ℕ) → IsValid a → i < a.capacity → read_slot a i ≡ get_elem? a.slots i
  unfolding read_slot
  read_slot_lem {a} i v h = ground (arith, offset-lt i a.capacity a.element_size)

  pub write_slot_lem :
      {a : Array A} (i : ℕ) (x : Option A)
      → IsValid a
      → i < a.capacity
      → write_slot a i x ≡ some (record a { slots = set a.slots i x })
  unfolding write_slot
  write_slot_lem {a} i x v h = ground (arith, offset-lt i a.capacity a.element_size)

  pub copy_slot_lem :
      {a : Array A} (i j : ℕ) (x : Option A)
      → IsValid a
      → i < a.capacity
      → j < a.capacity
      → get_elem? a.slots i ≡ some x
      → copy_slot a i j ≡ some (record a { slots = set a.slots j x })
  unfolding copy_slot
  copy_slot_lem {a} i j x v h k got = ground (arith, read_slot_lem i v h, write_slot_lem j x v k)

  pub set-IsValid :
      {a : Array A} (i : ℕ) (x : Option A)
      → IsValid a
      → IsValid (record a { slots = set a.slots i x })
  set-IsValid {a} i x v = ground (arith, length-set a.slots i x)

  -- The growth step on an array whose count has just been incremented.
  pub grow_lem :
      {a : Array A}
      → IsValid a
      → (a.count ≡ a.capacity → a.capacity * 2 * a.element_size < 2 ^ 32)
      → let b = grow (record a { count = (a.count + 1) % 2 ^ 32 }) a.count in
        IsValid b
        × (b.count ≡ a.count + 1)
        × (a.capacity ≤ b.capacity)
        × (b.capacity ≤ a.capacity * 2)
        × (b.element_size ≡ a.element_size)
        × (take a.count b.slots ≡ take a.count a.slots)
  unfolding grow
  grow_lem {a} v room = elim (Bool-cases (leb a.capacity a.count)) [
    | inl full ↦
        let all : a.count ≡ a.capacity = ground (arith, v.within) in
        let fits : a.capacity * 2 < 2 ^ 32 =
          capacity-lt (a.capacity * 2) a.element_size v.sized (room all) in
        rw
          (full, mod-eq_of_lt fits, slots_of_lem (a.capacity * 2) a.element_size v.sized (room all))
          (
            record {
              minimum = omega arith;
              within = ground arith;
              allocated = length-resize (a.capacity * 2) a.slots;
              bytes = room all;
              sized = v.sized;
            },
            omega arith,
            omega arith,
            omega arith,
            refl,
            take-resize a.count (a.capacity * 2) a.slots (omega arith) (omega arith),
          )
    | inr free ↦
        let small = capacity-lt a.capacity a.element_size v.sized v.bytes in
        let below : a.count < a.capacity = ground arith in
        let counted : (a.count + 1) % 2 ^ 32 ≡ a.count + 1 = omega arith in
        rw (free, counted)
          (
            record {
              minimum = v.minimum;
              within = omega arith;
              allocated = v.allocated;
              bytes = v.bytes;
              sized = v.sized;
            },
            refl,
            omega arith,
            omega arith,
            refl,
            refl,
          )
  ]
