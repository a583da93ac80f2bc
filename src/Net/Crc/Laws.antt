-- ===== src/Net/Crc/Laws.antt =====
-- The table of src/non_master/crc.c against the polynomial it stands for.
use Prim.Native.Nat.{bit_xor}
use eqp.Common.{
  ℕ, zero, suc, ◌+◌, ◌/◌, ◌%◌, ◌<◌, ◌≡◌, refl, ap, ◌∙◌, List, [], ◌∷◌, get_or, ◌==◌, if◌then◌else◌,
  arith,
}
use eqp.Net.Crc.{crc_table, crc_update, crc_calc32}

-- One binary digit of the division by the reversed polynomial 0xEDB88320.
abbrev pub divide : ℕ → ℕ
divide crc = if crc % 2 == 1 then bit_xor (crc / 2) 0xEDB88320 else crc / 2

abbrev pub remainder : ℕ → ℕ
remainder byte = divide (divide (divide (divide (divide (divide (divide (divide byte)))))))

abbrev remainders : ℕ → ℕ → List ℕ
remainders zero i = []
remainders (suc n) i = remainder i ∷ remainders n (i + 1)

crc_table-eq : crc_table ≡ remainders 256 0
unfolding crc_table
crc_table-eq = refl

get_or-remainders : (n i k : ℕ) → i < n → get_or (remainders n k) i 0 ≡ remainder (k + i)
get_or-remainders zero i k h = absurd (omega arith)
get_or-remainders (suc n) zero k h = ap remainder (omega arith)
get_or-remainders (suc n) (suc i) k h =
    get_or-remainders n i (k + 1) (omega arith) ∙ ap remainder (omega arith)

-- The entry of every byte is the remainder of the byte's eight binary digits by the polynomial of
-- CRC-32.
pub crc_table_lem : (byte : ℕ) → byte < 256 → get_or crc_table byte 0 ≡ remainder byte
crc_table_lem byte h =
    ap (λ t. get_or t byte 0) crc_table-eq
    ∙ get_or-remainders 256 byte 0 h
    ∙ ap remainder (omega arith)

-- The usual check value: the bytes of "123456789".
crc_calc32_check :
    crc_calc32 (0x31 ∷ 0x32 ∷ 0x33 ∷ 0x34 ∷ 0x35 ∷ 0x36 ∷ 0x37 ∷ 0x38 ∷ 0x39 ∷ []) ≡ 0xCBF43926
unfolding crc_calc32 crc_update crc_table
crc_calc32_check = refl
