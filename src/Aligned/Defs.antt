-- ===== src/Aligned/Defs.antt =====
-- The state and the operations of aligned.c.
use Prim.Native.Nat.{bit_and, bit_or}
use eqp.Common.{
  ℕ, zero, suc, ◌+◌, ◌-◌, ◌*◌, ◌/◌, ◌%◌, ◌^◌, Option, none, some, List, [], ◌∷◌, length, get_elem?,
  set, ltb, leb, ◌==◌, if◌then◌else◌, replicate, true, false, take, ◌++◌,
}

-- `struct Aligned`, less the handle of the allocator. `buffer` is the memory behind the pointer,
-- `length` what the owner said of it.
pub record Aligned : Type 0 where
  pub cursor : ℕ
  pub length_ : ℕ
  pub buffer : List ℕ

-- The three messages under which `ErrorOutOfBounds` is thrown.
pub data Error : Type 0 where
  err_advance err_reverse err_check : Error

pub data Outcome (A : Type 0) : Type 0 where
  ok : A → Aligned → Outcome A
  threw : Error → Aligned → Outcome A
  fault : Outcome A

abbrev pub M : Type 0 → Type 0
M A = Aligned → Outcome A

infixl 5 ◌>>=◌ ◌>>◌
abbrev pub ◌>>=◌ : {A B : Type 0} → M A → (A → M B) → M B
◌>>=◌ m f a = elim (m a) [ ok x b ↦ f x b | threw e b ↦ threw e b | fault ↦ fault ]

abbrev pub ◌>>◌ : {B : Type 0} → M (Unit {0}) → M B → M B
m >> k = m >>= λ _. k

abbrev pub pure : {A : Type 0} → A → M A
pure x a = ok x a

-- `uint32_t` addition.
abbrev pub add32 : ℕ → ℕ → ℕ
add32 a b = (a + b) % 2 ^ 32

unfoldable pub load : ℕ → M ℕ
load i a = elim (get_elem? a.buffer i) [ none ↦ fault | some b ↦ ok b a ]

unfoldable pub store : ℕ → ℕ → M (Unit {0})
store i v a =
    if ltb i (length a.buffer) then ok tt (record a { buffer = set a.buffer i v }) else fault

unfoldable pub init : List ℕ → ℕ → Aligned
init ptr len = record { cursor = 0; length_ = len; buffer = ptr }

unfoldable pub init_cursor : List ℕ → ℕ → ℕ → Aligned
init_cursor ptr len cursor = record { cursor = cursor; length_ = len; buffer = ptr }

-- The cursor moves before the test.
unfoldable pub advance : ℕ → M ℕ
advance len a =
    let b = record a { cursor = add32 a.cursor len } in
    if ltb b.length_ b.cursor then threw err_advance b else ok a.cursor b

-- `int` subtraction, on two's complement: negative from 2^31 on.
unfoldable pub reverse : ℕ → M ℕ
reverse len a =
    let cursor = (a.cursor + 2 ^ 32 - len) % 2 ^ 32 in
    if leb (2 ^ 31) cursor then threw err_reverse a else ok a.cursor (record a { cursor = cursor })

unfoldable pub check : ℕ → M (Unit {0})
check len a = if ltb a.length_ (add32 a.cursor len) then threw err_check a else ok tt a

-- The loop of `aligned_advance_null_terminator`, over the bytes left; `none` is -1.
unfoldable pub scan_null : ℕ → ℕ → M (Option ℕ)
scan_null zero len a = ok none a
scan_null (suc n) len a = elim (load a.cursor a) [
  | ok c b ↦
      let next = record b { cursor = b.cursor + 1 } in
      elim (c == 0) [ true ↦ ok (some len) next | false ↦ scan_null n (len + 1) next ]
  | threw e b ↦ threw e b
  | fault ↦ fault
]

unfoldable pub advance_null_terminator : M (Option ℕ)
advance_null_terminator a = scan_null (a.length_ - a.cursor) 0 a

unfoldable pub reset : M (Unit {0})
reset a = ok tt (record a { cursor = 0 })

-- `aligned_remaining`
unfoldable pub remaining : Aligned → ℕ
remaining a = (a.length_ + 2 ^ 32 - a.cursor) % 2 ^ 32

-- `aligned_reduce_size`
unfoldable pub reduce_size : ℕ → M (Unit {0})
reduce_size n a = ok tt (record a { length_ = (a.length_ + 2 ^ 32 - n) % 2 ^ 32 })

unfoldable pub read_uint8 : M ℕ
read_uint8 = do c ← advance 1; load c

unfoldable pub read_uint16 : M ℕ
read_uint16 = do
  c ← advance 2
  b0 ← load (add32 c 0)
  b1 ← load (add32 c 1)
  pure (bit_or b0 (b1 * 2 ^ 8))

unfoldable pub read_uint32 : M ℕ
read_uint32 = do
  c ← advance 4
  b0 ← load (add32 c 0)
  b1 ← load (add32 c 1)
  b2 ← load (add32 c 2)
  b3 ← load (add32 c 3)
  pure (bit_or (bit_or (bit_or b0 (b1 * 2 ^ 8)) (b2 * 2 ^ 16)) (b3 * 2 ^ 24))

unfoldable pub read_uint64 : M ℕ
read_uint64 = do
  c ← advance 8
  b0 ← load (add32 c 0)
  b1 ← load (add32 c 1)
  b2 ← load (add32 c 2)
  b3 ← load (add32 c 3)
  b4 ← load (add32 c 4)
  b5 ← load (add32 c 5)
  b6 ← load (add32 c 6)
  b7 ← load (add32 c 7)
  let r1 = bit_or b0 (b1 * 2 ^ 8)
  let r3 = bit_or (bit_or r1 (b2 * 2 ^ 16)) (b3 * 2 ^ 24)
  let r5 = bit_or (bit_or r3 (b4 * 2 ^ 32)) (b5 * 2 ^ 40)
  pure (bit_or (bit_or r5 (b6 * 2 ^ 48)) (b7 * 2 ^ 56))

-- The loop of `aligned_read_buffer`: bytes `i` to `i + n - 1` behind `c`.
unfoldable pub load_from : ℕ → ℕ → ℕ → M (List ℕ)
load_from c i zero = pure []
load_from c i (suc n) = load (add32 c i) >>= λ b. load_from c (i + 1) n >>= λ bs. pure (b ∷ bs)

unfoldable pub read_buffer : ℕ → M (List ℕ)
read_buffer len = do c ← advance len; load_from c 0 len

unfoldable pub peek_uint8 : M ℕ
peek_uint8 = do check 1; λ a. load a.cursor a

unfoldable pub write_uint8 : ℕ → M (Unit {0})
write_uint8 v = do c ← advance 1; store c v

unfoldable pub write_uint16 : ℕ → M (Unit {0})
write_uint16 v = do
  c ← advance 2
  store (add32 c 0) (bit_and v 0x00ff / 2 ^ 0 % 256)
  store (add32 c 1) (bit_and v 0xff00 / 2 ^ 8 % 256)

unfoldable pub write_uint32 : ℕ → M (Unit {0})
write_uint32 v = do
  c ← advance 4
  store (add32 c 0) (bit_and v 0x000000ff / 2 ^ 0 % 256)
  store (add32 c 1) (bit_and v 0x0000ff00 / 2 ^ 8 % 256)
  store (add32 c 2) (bit_and v 0x00ff0000 / 2 ^ 16 % 256)
  store (add32 c 3) (bit_and v 0xff000000 / 2 ^ 24 % 256)

unfoldable pub write_uint64 : ℕ → M (Unit {0})
write_uint64 v = do
  c ← advance 8
  store (add32 c 0) (bit_and v 0x00000000000000ff / 2 ^ 0 % 256)
  store (add32 c 1) (bit_and v 0x000000000000ff00 / 2 ^ 8 % 256)
  store (add32 c 2) (bit_and v 0x0000000000ff0000 / 2 ^ 16 % 256)
  store (add32 c 3) (bit_and v 0x00000000ff000000 / 2 ^ 24 % 256)
  store (add32 c 4) (bit_and v 0x000000ff00000000 / 2 ^ 32 % 256)
  store (add32 c 5) (bit_and v 0x0000ff0000000000 / 2 ^ 40 % 256)
  store (add32 c 6) (bit_and v 0x00ff000000000000 / 2 ^ 48 % 256)
  store (add32 c 7) (bit_and v 0xff00000000000000 / 2 ^ 56 % 256)

-- The loop of `aligned_write_buffer`: `dst[c + i] = src[i]`.
unfoldable pub store_from : ℕ → ℕ → List ℕ → M (Unit {0})
store_from c i [] = pure tt
store_from c i (b ∷ bs) = store (add32 c i) b >>= λ _. store_from c (i + 1) bs

unfoldable pub write_buffer : List ℕ → M (Unit {0})
write_buffer src = do c ← advance (length src); store_from c 0 src

-- `memset` of `len` bytes, the value cut to a byte.
unfoldable pub write_memset : ℕ → ℕ → M (Unit {0})
write_memset val len = do c ← advance len; store_from c 0 (replicate len (val % 256))

unfoldable pub write_zeroes : ℕ → M (Unit {0})
write_zeroes count = do c ← advance count; store_from c 0 (replicate count 0)

unfoldable pub write_reverse_uint8 : ℕ → M (Unit {0})
write_reverse_uint8 v = do c ← reverse 1; store ((c + 2 ^ 32 - 1) % 2 ^ 32) v

unfoldable pub write_reverse_uint16 : ℕ → M (Unit {0})
write_reverse_uint16 v = do
  c ← reverse 2
  store ((c + 2 ^ 32 - 2) % 2 ^ 32) (bit_and v 0x00ff / 2 ^ 0 % 256)
  store ((c + 2 ^ 32 - 1) % 2 ^ 32) (bit_and v 0xff00 / 2 ^ 8 % 256)

-- `aligned_write_snprintf_full_advance`; `text` is what the format and its arguments come to, without
-- the terminator. `vsnprintf` writes at most `n` bytes, the last of them the terminator.
unfoldable pub write_snprintf_full_advance : ℕ → List ℕ → M (Unit {0})
write_snprintf_full_advance n text = do
  c ← advance n
  store_from c 0 (if n == 0 then [] else take (n - 1) text ++ 0 ∷ [])
