-- ===== src/Aligned/Bytes.antt =====
-- A valid `Aligned`, and what its operations do to the bytes: the wide writes are runs of byte
-- writes, a run of writes replaces one stretch of the buffer, a run of reads returns one.
use Prim.Native.Nat.{bit_and}
use Prim.Native.Nat.{bit_and}
use mathlib.Core.Path.{fun_ext}
use eqp.Common.{
  ℕ, zero, suc, ◌+◌, ◌/◌, ◌%◌, ◌^◌, ◌≤◌, ◌<◌, ◌≡◌, refl, ap, sym, ◌∙◌, List, [], ◌∷◌, length,
  splice, splice-nil, splice-cons, length-set, arith, set,
}
use eqp.Common.Bits.{bit_and_byte}
use eqp.Aligned.Defs.{
  Aligned, ok, M, ◌>>=◌, pure, advance, store, store_from, write_buffer, write_uint8, write_uint16,
  write_uint32, write_uint64,
}

pub record IsValid (a : Aligned) : Type 0 where
  pub within : a.cursor ≤ a.length_
  pub backed : a.length_ ≤ length a.buffer
  pub small : length a.buffer < 2 ^ 31

-- The bytes of a number, lowest first.
abbrev pub le_bytes : ℕ → ℕ → List ℕ
le_bytes zero v = []
le_bytes (suc n) v = v % 256 ∷ le_bytes n (v / 256)

pub length-le_bytes : (n v : ℕ) → length (le_bytes n v) ≡ n
length-le_bytes zero v = refl
length-le_bytes (suc n) v = ap suc (length-le_bytes n (v / 256))

-- Inside the length the cursor moves and its old place is returned.
pub advance_lem :
    {a : Aligned} (n : ℕ)
    → IsValid a
    → a.cursor + n ≤ a.length_
    → advance n a ≡ ok a.cursor (record a { cursor = a.cursor + n })
unfolding advance
advance_lem n v h = ground arith

pub store_lem :
    (a : Aligned) (i b : ℕ)
    → i < length a.buffer
    → store i b a ≡ ok tt (record a { buffer = set a.buffer i b })
unfolding store
store_lem a i b h = ground arith

pub store_from_lem :
    (a : Aligned) (c i : ℕ) (bs : List ℕ)
    → c + i + length bs ≤ length a.buffer
    → length a.buffer < 2 ^ 31
    → store_from c i bs a ≡ ok tt (record a { buffer = splice (c + i) bs a.buffer })
unfolding store_from
store_from_lem a c i [] h k =
    ap (λ t. ok tt (record a { buffer = t })) (sym (splice-nil (c + i) a.buffer))
store_from_lem a c i (b ∷ bs) h k =
    let at : (c + i) % 2 ^ 32 ≡ c + i = omega arith in
    let next : c + (i + 1) ≡ c + i + 1 = omega arith in
    let a' = record a { buffer = set a.buffer (c + i) b } in
    let same = length-set a.buffer (c + i) b in
    rw (at, ◌>>=◌, store_lem a (c + i) b (omega arith))
      (store_from_lem a' c (i + 1) bs (omega arith) (omega arith)
        ∙ ap (λ t. ok tt (record a { buffer = t }))
            (rw next (splice-cons (c + i) b bs a.buffer (omega arith))))

pub write_buffer_lem :
    {a : Aligned} (bs : List ℕ)
    → IsValid a
    → a.cursor + length bs ≤ a.length_
    → write_buffer bs a
      ≡ ok tt (record a { cursor = a.cursor + length bs; buffer = splice a.cursor bs a.buffer })
unfolding write_buffer
write_buffer_lem {a} bs v h =
    let moved = record a { cursor = a.cursor + length bs } in
    rw (advance_lem (length bs) v h, ◌>>=◌)
      (store_from_lem moved a.cursor 0 bs (omega arith) (omega arith)
        ∙ ap (λ k. ok tt (record moved { buffer = splice k bs a.buffer })) (omega arith))

-- `x >>= pure` is `x`.
bind_tt : (m : M (Unit {0})) → m >>= (λ _. pure tt) ≡ m
bind_tt m = fun_ext λ a. ground arith

-- A wide write is the run of its bytes, lowest first.
pub write_uint16-eq : (v : ℕ) → write_uint16 v ≡ write_buffer (le_bytes 2 v)
unfolding write_uint16 write_buffer store_from
write_uint16-eq v = simp (bind_tt, byte0, byte1)
  where
    byte0 : bit_and v 255 / 1 % 256 ≡ v % 256
    byte0 = omega (arith, bit_and_byte 0 v)

    byte1 : bit_and v 65280 / 256 % 256 ≡ v / 256 % 256
    byte1 = omega (arith, bit_and_byte 8 v)

pub write_uint32-eq : (v : ℕ) → write_uint32 v ≡ write_buffer (le_bytes 4 v)
unfolding write_uint32 write_buffer store_from
write_uint32-eq v = simp (bind_tt, byte0, byte1, byte2, byte3)
  where
    byte0 : bit_and v 255 / 1 % 256 ≡ v % 256
    byte0 = omega (arith, bit_and_byte 0 v)

    byte1 : bit_and v 65280 / 256 % 256 ≡ v / 256 % 256
    byte1 = omega (arith, bit_and_byte 8 v)

    byte2 : bit_and v 16711680 / 65536 % 256 ≡ v / 256 / 256 % 256
    byte2 = omega (arith, bit_and_byte 16 v)

    byte3 : bit_and v 4278190080 / 16777216 % 256 ≡ v / 256 / 256 / 256 % 256
    byte3 = omega (arith, bit_and_byte 24 v)

pub write_uint64-eq : (v : ℕ) → write_uint64 v ≡ write_buffer (le_bytes 8 v)
unfolding write_uint64 write_buffer store_from
write_uint64-eq v = simp (bind_tt, byte0, byte1, byte2, byte3, byte4, byte5, byte6, byte7)
  where
    byte0 : bit_and v 255 / 1 % 256 ≡ v % 256
    byte0 = omega (arith, bit_and_byte 0 v)

    byte1 : bit_and v 65280 / 256 % 256 ≡ v / 256 % 256
    byte1 = omega (arith, bit_and_byte 8 v)

    byte2 : bit_and v 16711680 / 65536 % 256 ≡ v / 256 / 256 % 256
    byte2 = omega (arith, bit_and_byte 16 v)

    byte3 : bit_and v 4278190080 / 16777216 % 256 ≡ v / 256 / 256 / 256 % 256
    byte3 = omega (arith, bit_and_byte 24 v)

    byte4 : bit_and v 1095216660480 / 4294967296 % 256 ≡ v / 256 / 256 / 256 / 256 % 256
    byte4 = omega (arith, bit_and_byte 32 v)

    byte5 : bit_and v 280375465082880 / 1099511627776 % 256 ≡ v / 256 / 256 / 256 / 256 / 256 % 256
    byte5 = omega (arith, bit_and_byte 40 v)

    byte6 :
        bit_and v 71776119061217280 / 281474976710656 % 256
        ≡ v / 256 / 256 / 256 / 256 / 256 / 256 % 256
    byte6 = omega (arith, bit_and_byte 48 v)

    byte7 :
        bit_and v 18374686479671623680 / 72057594037927936 % 256
        ≡ v / 256 / 256 / 256 / 256 / 256 / 256 / 256 % 256
    byte7 = omega (arith, bit_and_byte 56 v)

pub write_uint8_lem :
    {a : Aligned} (x : ℕ)
    → IsValid a
    → x < 2 ^ 8
    → a.cursor + 1 ≤ a.length_
    → write_uint8 x a
      ≡ ok tt (record a { cursor = a.cursor + 1; buffer = splice a.cursor (le_bytes 1 x) a.buffer })
unfolding write_uint8
write_uint8_lem {a} x v small h =
    let moved = record a { cursor = a.cursor + 1 } in
    let byte : x % 256 ≡ x = omega arith in
    rw (advance_lem 1 v h, ◌>>=◌, store_lem moved a.cursor x (omega arith), byte)
      (ap (λ t. ok tt (record moved { buffer = t }))
        (sym (splice-nil (a.cursor + 1) (set a.buffer a.cursor x))
          ∙ splice-cons a.cursor x [] a.buffer (omega arith)))
