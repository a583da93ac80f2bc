-- ===== src/Aligned/Bounds.antt =====
-- Going back in the buffer, reverse writes, and the search for a terminator.
use eqp.Common.{
  ℕ, zero, suc, ◌+◌, ◌-◌, ◌/◌, ◌%◌, ◌^◌, ◌≤◌, ◌<◌, ◌≡◌, refl, ap, sym, ◌∙◌, Option, none, some,
  List, [], ◌∷◌, length, take, drop, set, splice, splice-nil, splice-cons, length-set, get_elem?_lt,
  take-suc-drop, leb, ◌==◌, if◌then◌else◌, Bool-cases, inl, inr, true, false, arith,
}
use eqp.Common.Bits.{bit_and_byte}
use Prim.Native.Nat.{bit_and}
use eqp.Aligned.Defs.{
  Aligned, ok, threw, ◌>>=◌, err_reverse, reverse, load, scan_null, advance_null_terminator,
  write_reverse_uint16,
}
use eqp.Aligned.Bytes.{IsValid, store_lem, le_bytes}

-- Going back stops at the beginning: there it throws and leaves the cursor.
pub reverse_lem :
    {a : Aligned} (n : ℕ)
    → IsValid a
    → n < 2 ^ 31
    → reverse n a ≡ (
        if leb n a.cursor
        then ok a.cursor (record a { cursor = a.cursor - n })
        else threw err_reverse a)
unfolding reverse
reverse_lem n v h = ground arith

reverse_back :
    {a : Aligned} (n : ℕ)
    → IsValid a
    → n < 2 ^ 31
    → n ≤ a.cursor
    → reverse n a ≡ ok a.cursor (record a { cursor = a.cursor - n })
reverse_back {a} n v h k = let e : leb n a.cursor ≡ true = ground arith in rw (reverse_lem n v h, e)

-- The two bytes before the cursor become the value, lowest first, and the cursor stands on them.
pub write_reverse_uint16_lem :
    {a : Aligned} (x : ℕ)
    → IsValid a
    → 2 ≤ a.cursor
    → write_reverse_uint16 x a
      ≡ ok tt (record a {
        cursor = a.cursor - 2;
        buffer = splice (a.cursor - 2) (le_bytes 2 x) a.buffer;
      })
unfolding write_reverse_uint16
write_reverse_uint16_lem {a} x v h =
    let low : (a.cursor + 2 ^ 32 - 2) % 2 ^ 32 ≡ a.cursor - 2 = omega arith in
    let high : (a.cursor + 2 ^ 32 - 1) % 2 ^ 32 ≡ a.cursor - 2 + 1 = omega arith in
    let byte0 : bit_and x 255 / 1 % 256 ≡ x % 256 = omega (arith, bit_and_byte 0 x) in
    let byte1 : bit_and x 65280 / 256 % 256 ≡ x / 256 % 256 = omega (arith, bit_and_byte 8 x) in
    let p = a.cursor - 2 in
    let xs = set a.buffer p (x % 256) in
    let a0 = record a { cursor = p } in
    let same = length-set a.buffer p (x % 256) in
    rw
      (
        reverse_back 2 v (omega arith) h,
        ◌>>=◌,
        low,
        byte0,
        store_lem a0 p (x % 256) (omega arith),
        high,
        byte1,
        store_lem (record a0 { buffer = xs }) (p + 1) (x / 256 % 256) (omega arith),
      )
      (ap (λ t. ok tt (record a0 { buffer = t }))
        (sym (splice-nil (p + 1 + 1) (set xs (p + 1) (x / 256 % 256)))
          ∙ splice-cons (p + 1) (x / 256 % 256) [] xs (omega arith)
          ∙ splice-cons p (x % 256) (x / 256 % 256 ∷ []) a.buffer (omega arith)))

-- The place of the first zero byte.
abbrev pub first_zero : List ℕ → Option ℕ
first_zero [] = none
first_zero (b ∷ bs) = elim (b == 0) [
  | true ↦ some 0
  | false ↦ elim (first_zero bs) [ none ↦ none | some k ↦ some (k + 1) ]
]

-- How far the search goes: over the terminator, or over everything.
abbrev pub searched : List ℕ → ℕ
searched bs = elim (first_zero bs) [ none ↦ length bs | some k ↦ k + 1 ]

shift : ℕ → Option ℕ → Option ℕ
shift len none = none
shift len (some k) = some (len + k)

shift-zero : (r : Option ℕ) → shift 0 r ≡ r
unfolding shift
shift-zero none = refl
shift-zero (some k) = ap some (omega arith)

scan_null_lem :
    (n : ℕ) (a : Aligned) (len : ℕ)
    → a.cursor + n ≤ length a.buffer
    → scan_null n len a
      ≡ ok
          (shift len (first_zero (take n (drop a.cursor a.buffer))))
          (record a { cursor = a.cursor + searched (take n (drop a.cursor a.buffer)) })
unfolding scan_null load shift
scan_null_lem zero a len h = let still : a.cursor ≡ a.cursor + 0 = omega arith in rw (← still)
scan_null_lem (suc n) a len h =
    let (b, got) = get_elem?_lt a.buffer a.cursor (omega arith) in
    let next = record a { cursor = a.cursor + 1 } in
    let rest = scan_null_lem n next (len + 1) (omega arith) in
    rw (take-suc-drop n a.cursor a.buffer got) (elim (Bool-cases (b == 0)) [
      | inl end ↦ ground (arith, got, end)
      | inr more ↦ ground (arith, got, more, rest)
    ])

-- `aligned_advance_null_terminator` finds the first zero byte before the length, returns how many
-- bytes stand before it and puts the cursor behind it; without one it returns -1 and the cursor
-- stands at the length.
pub advance_null_terminator_lem :
    {a : Aligned}
    → IsValid a
    → let ahead = take (a.length_ - a.cursor) (drop a.cursor a.buffer) in
      advance_null_terminator a
      ≡ ok (first_zero ahead) (record a { cursor = a.cursor + searched ahead })
unfolding advance_null_terminator
advance_null_terminator_lem {a} v =
    let ahead = take (a.length_ - a.cursor) (drop a.cursor a.buffer) in
    scan_null_lem (a.length_ - a.cursor) a 0 (omega arith)
    ∙ ap (λ r. ok r (record a { cursor = a.cursor + searched ahead }))
        (shift-zero (first_zero ahead))
