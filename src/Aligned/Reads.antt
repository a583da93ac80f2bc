-- ===== src/Aligned/Reads.antt =====
-- What the reads return, from the bytes at the cursor.
use Prim.Native.Nat.{bit_or}
use eqp.Common.{
  ℕ, zero, suc, ◌+◌, ◌*◌, ◌/◌, ◌%◌, ◌^◌, ◌≤◌, ◌<◌, ◌≡◌, refl, ap, sym, ◌∙◌, List, length, some,
  take, drop, get_elem?, get_elem?_lt, get_elem?-take, get_elem?-drop, take-suc-drop, arith,
}
use eqp.Common.Bits.{bit_or_fields}
use eqp.Aligned.Defs.{
  Aligned, ok, ◌>>=◌, load, load_from, read_buffer, read_uint8, read_uint16, read_uint32,
  read_uint64,
}
use eqp.Aligned.Bytes.{IsValid, le_bytes, advance_lem}

load_lem : (a : Aligned) (i : ℕ) {b : ℕ} → get_elem? a.buffer i ≡ some b → load i a ≡ ok b a
unfolding load
load_lem a i h = ground arith

load_from_lem :
    (a : Aligned) (c i n : ℕ)
    → c + i + n ≤ length a.buffer
    → length a.buffer < 2 ^ 31
    → load_from c i n a ≡ ok (take n (drop (c + i) a.buffer)) a
unfolding load_from
load_from_lem a c i zero h k = refl
load_from_lem a c i (suc n) h k =
    let at : (c + i) % 2 ^ 32 ≡ c + i = omega arith in
    let next : c + (i + 1) ≡ c + i + 1 = omega arith in
    let (b, got) = get_elem?_lt a.buffer (c + i) (omega arith) in
    rw (
      at,
      ◌>>=◌,
      load_lem a (c + i) got,
      load_from_lem a c (i + 1) n (omega arith) k,
      next,
      take-suc-drop n (c + i) a.buffer got,
    )

-- `aligned_read_buffer` inside the length returns the bytes at the cursor and moves it past them.
pub read_buffer_lem :
    {a : Aligned} (n : ℕ)
    → IsValid a
    → a.cursor + n ≤ a.length_
    → read_buffer n a ≡ ok (take n (drop a.cursor a.buffer)) (record a { cursor = a.cursor + n })
unfolding read_buffer
read_buffer_lem {a} n v h =
    let moved = record a { cursor = a.cursor + n } in
    rw (advance_lem n v h, ◌>>=◌)
      (load_from_lem moved a.cursor 0 n (omega arith) (omega arith)
        ∙ ap (λ k. ok (take n (drop k a.buffer)) moved) (omega arith))

-- The bytes from the cursor on begin with `bs`.
abbrev pub Ahead : Aligned → List ℕ → Type 0
Ahead a bs = take (length bs) (drop a.cursor a.buffer) ≡ bs

elem-Ahead :
    (a : Aligned) (bs : List ℕ) (i : ℕ)
    → Ahead a bs
    → i < length bs
    → get_elem? a.buffer (a.cursor + i) ≡ get_elem? bs i
elem-Ahead a bs i h k =
    sym (get_elem?-drop a.cursor i a.buffer)
    ∙ sym (get_elem?-take (length bs) i (drop a.cursor a.buffer) k)
    ∙ ap (λ l. get_elem? l i) h

-- The load of byte `i` after the cursor has been moved by `n`.
load-Ahead :
    {a : Aligned} (n i : ℕ) (bs : List ℕ) {b : ℕ}
    → IsValid a
    → a.cursor + n ≤ a.length_
    → i < n
    → Ahead a bs
    → i < length bs
    → get_elem? bs i ≡ some b
    → load ((a.cursor + i) % 2 ^ 32) (record a { cursor = a.cursor + n })
      ≡ ok b (record a { cursor = a.cursor + n })
load-Ahead {a} n i bs v h j ahead k got =
    let at : (a.cursor + i) % 2 ^ 32 ≡ a.cursor + i = omega arith in
    rw at (
      load_lem (record a { cursor = a.cursor + n }) (a.cursor + i)
        (elem-Ahead a bs i ahead k ∙ got))

-- Joining the next byte gives the remainder by a larger power.
join1 : (x : ℕ) → bit_or (x % 256) (x / 256 % 256 * 2 ^ 8) ≡ x % 2 ^ 16
join1 x = omega (arith, bit_or_fields 8 (x % 2 ^ 8) (x / 256 % 256) (omega arith))

join2 : (x : ℕ) → bit_or (x % 2 ^ 16) (x / 256 / 256 % 256 * 2 ^ 16) ≡ x % 2 ^ 24
join2 x = omega (arith, bit_or_fields 16 (x % 2 ^ 16) (x / 256 / 256 % 256) (omega arith))

join3 : (x : ℕ) → bit_or (x % 2 ^ 24) (x / 256 / 256 / 256 % 256 * 2 ^ 24) ≡ x % 2 ^ 32
join3 x = omega (arith, bit_or_fields 24 (x % 2 ^ 24) (x / 256 / 256 / 256 % 256) (omega arith))

join4 : (x : ℕ) → bit_or (x % 2 ^ 32) (x / 256 / 256 / 256 / 256 % 256 * 2 ^ 32) ≡ x % 2 ^ 40
join4 x =
    omega (arith, bit_or_fields 32 (x % 2 ^ 32) (x / 256 / 256 / 256 / 256 % 256) (omega arith))

join5 : (x : ℕ) → bit_or (x % 2 ^ 40) (x / 256 / 256 / 256 / 256 / 256 % 256 * 2 ^ 40) ≡ x % 2 ^ 48
join5 x =
    omega
      (arith, bit_or_fields 40 (x % 2 ^ 40) (x / 256 / 256 / 256 / 256 / 256 % 256) (omega arith))

join6 :
    (x : ℕ)
    → bit_or (x % 2 ^ 48) (x / 256 / 256 / 256 / 256 / 256 / 256 % 256 * 2 ^ 48) ≡ x % 2 ^ 56
join6 x = omega (
  arith,
  bit_or_fields 48 (x % 2 ^ 48) (x / 256 / 256 / 256 / 256 / 256 / 256 % 256) (omega arith),
)

join7 :
    (x : ℕ)
    → bit_or (x % 2 ^ 56) (x / 256 / 256 / 256 / 256 / 256 / 256 / 256 % 256 * 2 ^ 56) ≡ x % 2 ^ 64
join7 x = omega (
  arith,
  bit_or_fields 56 (x % 2 ^ 56) (x / 256 / 256 / 256 / 256 / 256 / 256 / 256 % 256) (omega arith),
)

pub read_uint16_lem :
    {a : Aligned} (x : ℕ)
    → IsValid a
    → a.cursor + 2 ≤ a.length_
    → Ahead a (le_bytes 2 x)
    → x < 2 ^ 16
    → read_uint16 a ≡ ok x (record a { cursor = a.cursor + 2 })
unfolding read_uint16
read_uint16_lem {a} x v h ahead small =
    rw
      (
        advance_lem 2 v h,
        ◌>>=◌,
        load-Ahead 2 0 (le_bytes 2 x) v h (omega arith) ahead (omega arith) refl,
        load-Ahead 2 1 (le_bytes 2 x) v h (omega arith) ahead (omega arith) refl,
        join1 x,
      )
      (ap (λ r. ok r (record a { cursor = a.cursor + 2 })) (omega arith))

pub read_uint32_lem :
    {a : Aligned} (x : ℕ)
    → IsValid a
    → a.cursor + 4 ≤ a.length_
    → Ahead a (le_bytes 4 x)
    → x < 2 ^ 32
    → read_uint32 a ≡ ok x (record a { cursor = a.cursor + 4 })
unfolding read_uint32
read_uint32_lem {a} x v h ahead small =
    rw
      (
        advance_lem 4 v h,
        ◌>>=◌,
        load-Ahead 4 0 (le_bytes 4 x) v h (omega arith) ahead (omega arith) refl,
        load-Ahead 4 1 (le_bytes 4 x) v h (omega arith) ahead (omega arith) refl,
        load-Ahead 4 2 (le_bytes 4 x) v h (omega arith) ahead (omega arith) refl,
        load-Ahead 4 3 (le_bytes 4 x) v h (omega arith) ahead (omega arith) refl,
        join1 x,
        join2 x,
        join3 x,
      )
      (ap (λ r. ok r (record a { cursor = a.cursor + 4 })) (omega arith))

pub read_uint64_lem :
    {a : Aligned} (x : ℕ)
    → IsValid a
    → a.cursor + 8 ≤ a.length_
    → Ahead a (le_bytes 8 x)
    → x < 2 ^ 64
    → read_uint64 a ≡ ok x (record a { cursor = a.cursor + 8 })
unfolding read_uint64
read_uint64_lem {a} x v h ahead small =
    rw
      (
        advance_lem 8 v h,
        ◌>>=◌,
        load-Ahead 8 0 (le_bytes 8 x) v h (omega arith) ahead (omega arith) refl,
        load-Ahead 8 1 (le_bytes 8 x) v h (omega arith) ahead (omega arith) refl,
        load-Ahead 8 2 (le_bytes 8 x) v h (omega arith) ahead (omega arith) refl,
        load-Ahead 8 3 (le_bytes 8 x) v h (omega arith) ahead (omega arith) refl,
        load-Ahead 8 4 (le_bytes 8 x) v h (omega arith) ahead (omega arith) refl,
        load-Ahead 8 5 (le_bytes 8 x) v h (omega arith) ahead (omega arith) refl,
        load-Ahead 8 6 (le_bytes 8 x) v h (omega arith) ahead (omega arith) refl,
        load-Ahead 8 7 (le_bytes 8 x) v h (omega arith) ahead (omega arith) refl,
        join1 x,
        join2 x,
        join3 x,
        join4 x,
        join5 x,
        join6 x,
        join7 x,
      )
      (ap (λ r. ok r (record a { cursor = a.cursor + 8 })) (omega arith))

pub read_uint8_lem :
    {a : Aligned} (x : ℕ)
    → IsValid a
    → a.cursor + 1 ≤ a.length_
    → Ahead a (le_bytes 1 x)
    → x < 2 ^ 8
    → read_uint8 a ≡ ok x (record a { cursor = a.cursor + 1 })
unfolding read_uint8
read_uint8_lem {a} x v h ahead small =
    let at : a.cursor + 0 ≡ a.cursor = omega arith in
    let got = elem-Ahead a (le_bytes 1 x) 0 ahead (omega arith) in
    let byte : x % 256 ≡ x = omega arith in
    rw (
      advance_lem 1 v h,
      ◌>>=◌,
      load_lem (record a { cursor = a.cursor + 1 }) a.cursor (rw at at got),
      byte,
    )
