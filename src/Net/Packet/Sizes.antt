-- ===== src/Net/Packet/Sizes.antt =====
-- The size of a packet's allocation, its number of fragments, and what they can carry.
use eqp.Common.{ℕ, ◌+◌, ◌-◌, ◌*◌, ◌%◌, ◌^◌, ◌≤◌, ◌<◌, ◌≡◌, ◌↔◌, List, arith}
use eqp.Net.Packet.{struct_size, calc_length_and_frag_count, create, length_raw}

-- The data of a packet whose fragments can be counted in 16 bits.
abbrev pub max_length : ℕ
max_length = 512 * 2 ^ 16

-- The block holds the structure and exactly `packet_trilogy_length_raw` bytes of data.
pub allocation_lem :
    (opcode length : ℕ) (fresh : List ℕ)
    → length ≤ max_length
    → (calc_length_and_frag_count length).0 ≡ struct_size + length_raw (create opcode length fresh)
unfolding calc_length_and_frag_count create length_raw
allocation_lem opcode length fresh h = ground arith

-- The fragments of a packet carry 512 bytes each, less the two of the opcode.
abbrev pub capacity : ℕ → ℕ
capacity frag_count = 512 * (frag_count + 1) - 2

-- For a packet with some data, at most `max_length` bytes: the fragments that `packet_trilogy_create`
-- plans have room for the data, except where the length is a multiple of 512, when they lack two
-- bytes, or one less than a multiple, when they lack one.
pub capacity_iff :
    (opcode length : ℕ) (fresh : List ℕ)
    → 0 < length
    → length ≤ max_length
    → ((length ≤ capacity (create opcode length fresh).frag_count)
        ↔ ((0 < length % 512) × (length % 512 < 511)))
      × (length % 512 ≡ 0 → length ≡ capacity (create opcode length fresh).frag_count + 2)
      × (length % 512 ≡ 511 → length ≡ capacity (create opcode length fresh).frag_count + 1)
unfolding calc_length_and_frag_count create
capacity_iff opcode length fresh p h =
    ((ground arith, ground arith), λ e. ground arith, λ e. ground arith)
