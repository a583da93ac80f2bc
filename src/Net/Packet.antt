-- ===== src/Net/Packet.antt =====
-- src/non_master/net/packet_trilogy.c: an outgoing packet, and how it is cut into fragments in place.
-- The data area is a list of bytes from `data[0]` on; a read outside of it gives 0, and a write
-- changes nothing.
pub mod Sizes
pub mod Copy
pub mod Layout
use eqp.Common.{
  ℕ, zero, suc, ◌+◌, ◌-◌, ◌*◌, ◌/◌, ◌%◌, ◌^◌, Bool, true, false, not, List, ltb, leb, ◌==◌,
  if◌then◌else◌, get_or, set,
}

-- `EQP_PACKET_TRILOGY_HEADER_SIZE` and `EQP_PACKET_TRILOGY_DATA_OFFSET`.
abbrev pub header_size : ℕ
header_size = 18

abbrev pub data_space : ℕ
data_space = 512

abbrev pub crc_size : ℕ
crc_size = 4

-- `sizeof(PacketTrilogy)`: two `uint16_t`, a `uint32_t` and an `atomic_int`.
abbrev pub struct_size : ℕ
struct_size = 12

-- `freed` tells that the block has been given back to the allocator.
pub record Packet : Type 0 where
  pub opcode : ℕ
  pub frag_count : ℕ
  pub data_length : ℕ
  pub ref_count : ℕ
  pub freed : Bool
  pub bytes : List ℕ

-- The bytes to allocate, and the number of fragments beyond the first.
unfoldable pub calc_length_and_frag_count : ℕ → ℕ × ℕ
calc_length_and_frag_count length =
    let rem = length % data_space in
    let count = if rem == 0 then length / data_space else length / data_space + 1 in
    if leb length data_space
    then ((struct_size + header_size + length + crc_size) % 2 ^ 32, 0)
    else (
      (struct_size + header_size * count + length + crc_size * count) % 2 ^ 32,
      (count - 1) % 2 ^ 16,
    )

-- The content of the new block is the argument `fresh`.
unfoldable pub create : ℕ → ℕ → List ℕ → Packet
unfolding calc_length_and_frag_count
create opcode length fresh = record {
  opcode = opcode;
  frag_count = (calc_length_and_frag_count length).1;
  data_length = length;
  ref_count = 0;
  freed = false;
  bytes = fresh;
}

unfoldable pub grab : Packet → Packet
grab p = record p { ref_count = p.ref_count + 1 }

-- The count is tested as it was before the subtraction.
unfoldable pub drop : Packet → Packet
drop p = record p { ref_count = p.ref_count - 1; freed = leb p.ref_count 1 }

-- `packet_trilogy_length_raw`
unfoldable pub length_raw : Packet → ℕ
length_raw p = p.data_length + (header_size + crc_size) * (p.frag_count + 1)

-- `uint32_t` decrement.
abbrev pub minus : ℕ → ℕ → ℕ
minus x k = (x + 2 ^ 32 - k) % 2 ^ 32

-- `data[dst--] = data[src--];`, `count` times; the bytes, `dst` and `src` after it.
unfoldable pub copy_back : ℕ → List ℕ → ℕ → ℕ → List ℕ × ℕ × ℕ
copy_back zero xs dst src = (xs, dst, src)
copy_back (suc n) xs dst src =
    copy_back n (set xs dst (get_or xs src 0)) (minus dst 1) (minus src 1)

-- The outer loop, `n` fragments left, the first of them of `len` bytes.
unfoldable pub spread : ℕ → ℕ → List ℕ → ℕ → ℕ → List ℕ
spread zero len xs dst src = xs
spread (suc n) len xs dst src =
    let out = copy_back len xs dst src in
    spread n data_space out.0 (minus out.1 (header_size + crc_size)) out.2

-- The bytes of the last fragment, the opcode counted in the first.
unfoldable pub last_length : ℕ → ℕ
last_length length = let rem = (length + 2) % data_space in if rem == 0 then data_space else rem

unfoldable pub fragmentize : Packet → Packet
fragmentize p =
    let src = p.data_length + header_size - 1 in
    let dst = length_raw p - crc_size - 1 in
    if p.frag_count == 0
    then p
    else record p { bytes = spread p.frag_count (last_length p.data_length) p.bytes dst src }
