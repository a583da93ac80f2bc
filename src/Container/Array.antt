-- ===== src/Container/Array.antt =====
-- src/common/container/eqp_array.c: the growable array behind every list of the servers.
-- The bytes after the header are kept as slots of `element_size` bytes; a slot that was never
-- written is `none`. A pointer into the array is the number of its slot. An access outside the
-- allocation, or at a byte offset whose 32-bit product wraps, is the result `none`.
pub mod Valid
pub mod Contents
mod Tests
use eqp.Common.{
  ℕ, ◌+◌, ◌-◌, ◌*◌, ◌/◌, ◌%◌, ◌^◌, Bool, true, false, not, ◌&&◌, Option, none, some, List, ◌++◌,
  length, get_elem?, set, take, drop, replicate, ltb, leb, ◌==◌, if◌then◌else◌,
}

-- `struct Array`; the padding is left out.
pub record Array {ℓ} (A : Type ℓ) : Type ℓ where
  pub count : ℕ
  pub capacity : ℕ
  pub element_size : ℕ
  pub slots : List (Option A)

abbrev pub min_capacity : ℕ
min_capacity = 2

-- The slots in `n * size` bytes, the product in `uint32_t` as the source computes it.
abbrev pub slots_of : ℕ → ℕ → ℕ
slots_of n size = n * size % 2 ^ 32 / size

-- `realloc`: the old slots as far as they fit, then indeterminate ones.
abbrev pub resize {ℓ} : {A : Type ℓ} → ℕ → List (Option A) → List (Option A)
resize n xs = take n xs ++ replicate (n - length xs) none

-- The byte offset of slot `i` does not wrap.
abbrev pub addressable {ℓ} : {A : Type ℓ} → Array A → ℕ → Bool
addressable a i = ltb (i * a.element_size) (2 ^ 32)

module _ {ℓ} {A : Type ℓ} where
  unfoldable pub read_slot : Array A → ℕ → Option (Option A)
  read_slot a i = if addressable a i then get_elem? a.slots i else none

  unfoldable pub write_slot : Array A → ℕ → Option A → Option (Array A)
  write_slot a i v =
      if addressable a i && ltb i (length a.slots)
      then some (record a { slots = set a.slots i v })
      else none

  -- An allocation of `cap` slots. Here the product is a `size_t`.
  unfoldable pub allocate : ℕ → ℕ → Array A
  allocate size cap = record {
    count = 0;
    capacity = cap;
    element_size = size % 2 ^ 32;
    slots = replicate (cap * size % 2 ^ 64 / size) none;
  }

  unfoldable pub create_with_capacity : ℕ → ℕ → Array A
  unfolding allocate
  create_with_capacity size capacity =
      allocate size (if ltb capacity min_capacity then min_capacity else capacity)

  unfoldable pub create : ℕ → Array A
  unfolding create_with_capacity
  create size = create_with_capacity size min_capacity

  -- The slot that the returned pointer designates, or `NULL`.
  unfoldable pub get : Array A → ℕ → Option ℕ
  get a index = if ltb index a.count then some index else none

  unfoldable pub back : Array A → Option ℕ
  back a = if ltb 0 a.count then some (a.count - 1) else none

  -- The third argument is what `*copyTo` holds before.
  unfoldable pub get_copy : Array A → ℕ → Option A → Option (Option A)
  unfolding read_slot
  get_copy a index old = if ltb index a.count then read_slot a index else some old

  unfoldable pub back_copy : Array A → Option A → Option (Option A)
  unfolding read_slot
  back_copy a old = if ltb 0 a.count then read_slot a (a.count - 1) else some old

  -- `array_set` makes no bounds check.
  unfoldable pub set_at : Array A → ℕ → A → Option (Array A)
  unfolding write_slot
  set_at a index v = write_slot a index (some v)

  -- The growth step of `array_push_back`, `count` already incremented.
  unfoldable pub grow : Array A → ℕ → Array A
  grow a index =
      let cap = a.capacity * 2 % 2 ^ 32 in
      if leb a.capacity index
      then record a { capacity = cap; slots = resize (slots_of cap a.element_size) a.slots }
      else a

  -- `none` for a `NULL` value, which leaves the new slot as it is.
  store : Array A → ℕ → Option A → Option (Array A)
  unfolding write_slot
  store a index none = some a
  store a index (some v) = write_slot a index (some v)

  unfoldable pub push_back : Array A → Option A → Option (Array A)
  unfolding grow store
  push_back a value =
      store (grow (record a { count = (a.count + 1) % 2 ^ 32 }) a.count) a.count value

  unfoldable pub pop_back : Array A → Array A
  pop_back a = if ltb 0 a.count then record a { count = a.count - 1 } else a

  -- `memcpy` of one slot over another.
  unfoldable pub copy_slot : Array A → ℕ → ℕ → Option (Array A)
  unfolding read_slot write_slot
  copy_slot a from to = elim (read_slot a from) [ none ↦ none | some v ↦ write_slot a to v ]

  -- Whether an element was moved, and the array.
  unfoldable pub swap_and_pop : Array A → ℕ → Option (Bool × Array A)
  unfolding copy_slot
  swap_and_pop a index =
      let last = a.count - 1 in
      let popped = record a { count = last } in
      if ltb 0 a.count && ltb index a.count
      then if not (index == last)
        then elim (copy_slot popped last index) [ none ↦ none | some b ↦ some (true, b) ]
        else some (false, popped)
      else some (false, a)

  unfoldable pub clear : Array A → Array A
  clear a = record a { count = 0 }

  -- `memmove` of `count - numIndices` slots to the front.
  unfoldable pub shift_left : Array A → ℕ → Option (Array A)
  unfolding clear
  shift_left a num =
      let left = a.count - num in
      if leb a.count num
      then some (clear a)
      else if addressable a num && addressable a left && leb (num + left) (length a.slots)
      then some
          (record a { count = left; slots = take left (drop num a.slots) ++ drop left a.slots })
      else none

  unfoldable pub reserve : Array A → ℕ → Array A
  reserve a count =
      if leb count a.capacity
      then a
      else record a { capacity = count; slots = resize (slots_of count a.element_size) a.slots }

  unfoldable pub clear_from_index : Array A → ℕ → Array A
  clear_from_index a index = if ltb index a.count then record a { count = index } else a
