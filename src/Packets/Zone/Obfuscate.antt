-- ===== src/Packets/Zone/Obfuscate.antt =====
-- `client_trilogy_player_profile_obfuscate` and `client_trilogy_spawn_obfuscate`.
pub mod Inverse
use Prim.Native.Nat.{bit_or, digits, bitwise}
use eqp.Common.{
  ℕ, zero, suc, ◌+◌, ◌-◌, ◌*◌, ◌/◌, ◌%◌, ◌^◌, ◌≤◌, ◌<◌, ◌≡◌, refl, sym, ap, ◌∙◌, List, [], ◌∷◌,
  length, arith, get_or, set, ◌++◌,
}
use eqp.Common.Bits.{bit_or_high}
use eqp.Aligned.Bytes.{le_bytes}

-- The numbers that the two functions have in their loops.
pub record Cipher : Type 0 where
  pub left1 : ℕ
  pub right1 : ℕ
  pub add : ℕ
  pub left2 : ℕ
  pub right2 : ℕ

abbrev pub player_profile : Cipher
player_profile = record { left1 = 0x07; right1 = 0x19; add = 0x37a9; left2 = 0x0f; right2 = 0x11 }

abbrev pub spawn : Cipher
spawn = record { left1 = 0x09; right1 = 0x17; add = 0x65e7; left2 = 0x0d; right2 = 0x13 }

-- `(w << left) | (w >> right)` on `uint32_t`.
unfoldable pub rotate : (left right w : ℕ) → ℕ
rotate left right w = bit_or (w * 2 ^ left % 2 ^ 32) (w / 2 ^ right)

unfoldable pub scramble : Cipher → ℕ → ℕ → ℕ
scramble c cur w =
    let first = (rotate c.left1 c.right1 w + c.add) % 2 ^ 32 in
    (rotate c.left2 c.right2 first + 2 ^ 32 - cur) % 2 ^ 32

-- `next`
unfoldable pub following : Cipher → ℕ → ℕ → ℕ
following c cur w = (cur + w + 2 ^ 32 - c.add) % 2 ^ 32

-- The loop, over the 32-bit words of the data.
unfoldable pub scramble_all : Cipher → ℕ → List ℕ → List ℕ
scramble_all c cur [] = []
scramble_all c cur (w ∷ ws) = scramble c cur w ∷ scramble_all c (following c cur w) ws

-- The whole words of a run of bytes, on a machine with the lowest byte first.
abbrev pub words : List ℕ → List ℕ
words (a ∷ (b ∷ (c ∷ (d ∷ bs)))) = (a + b * 2 ^ 8 + c * 2 ^ 16 + d * 2 ^ 24) ∷ words bs
words _ = []

abbrev pub bytes : List ℕ → List ℕ
bytes [] = []
bytes (w ∷ ws) = le_bytes 4 w ++ bytes ws

-- `client_trilogy_spawn_obfuscate`, for a length that is a multiple of four.
unfoldable pub spawn_obfuscate : List ℕ → List ℕ
spawn_obfuscate data_ = bytes (scramble_all spawn 0 (words data_))

-- The words at 0 and at `i` change places.
unfoldable pub swap_words : ℕ → List ℕ → List ℕ
swap_words i ws = set (set ws 0 (get_or ws i 0)) i (get_or ws 0 0)

-- `client_trilogy_player_profile_obfuscate`, on the words of `len` bytes.
unfoldable pub player_profile_obfuscate : ℕ → List ℕ → List ℕ
player_profile_obfuscate len ws = scramble_all player_profile 0x65e7 (swap_words (len / 8) ws)
