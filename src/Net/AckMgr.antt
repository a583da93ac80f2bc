-- ===== src/Net/AckMgr.antt =====
-- src/non_master/net/ack_mgr_trilogy.c: incoming packets are put in order and fragments joined;
-- outgoing ones get their sequence numbers.
-- The two `Array`s of packets are the lists of their contents: `array_push_back` appends and
-- `array_shift_left` drops, up to the length where the memory of the array goes round. What the code hands on, by `client_recv_packet_trilogy`, is the list of
-- deliveries. `none` is a fault: a buffer is used after it was freed, the joined fragments do not have
-- the length that was counted, or an array of packets gets too long for its memory.
pub mod Drain
pub mod Recv
pub mod Schedule
use Prim.Native.Nat.{bit_or}
use mathlib.Core.List.{reverse, flatten}
use eqp.Common.{
  ℕ, zero, suc, ◌+◌, ◌-◌, ◌%◌, ◌^◌, Bool, true, false, not, ◌&&◌, Option, none, some, List, [], ◌∷◌,
  ◌++◌, map, length, get_elem?, set, take, drop, replicate, ltb, leb, ◌==◌, if◌then◌else◌,
}
use eqp.Net.AckCommon.{AckRelativity, present, future, past, ack_compare}

infixl 5 ◌>>=◌
abbrev pub ◌>>=◌ : {A B : Type 0} → Option A → (A → Option B) → Option B
none >>= f = none
some a >>= f = f a

-- The `data` pointer of an incoming packet.
pub data Data : Type 0 where
  null : Data
  bytes : List ℕ → Data
  dangling : Data

-- `struct InputPacketTrilogy`
pub record InputPacket : Type 0 where
  pub ack_request : ℕ
  pub frag_count : ℕ
  pub opcode : ℕ
  pub length_ : ℕ
  pub data_ : Data

-- `memset(&input, 0, ...)`
abbrev pub no_packet : InputPacket
no_packet = record { ack_request = 0; frag_count = 0; opcode = 0; length_ = 0; data_ = null }

pub record Delivery : Type 0 where
  pub opcode : ℕ
  pub payload : List ℕ

-- `struct OutputPacketTrilogy`, less the time of sending; `packet` is the number of fragments that
-- `packet_trilogy_frag_count` reports of the packet, and an identifier for it.
pub record OutputPacket : Type 0 where
  pub header : ℕ
  pub ack_request : ℕ
  pub frag_group : ℕ
  pub frag_count : ℕ
  pub ack_counter_always_one : ℕ
  pub ack_counter_request : ℕ
  pub packet : ℕ

-- `struct AckMgrTrilogy`, with the fields of its `NetworkClientTrilogy` that it uses.
pub record AckMgr : Type 0 where
  pub next_ack_request_expected : ℕ
  pub input_packets : List InputPacket
  pub next_ack_to_request : ℕ
  pub next_frag_group : ℕ
  pub ack_counter_always_one : ℕ
  pub ack_counter_request : ℕ
  pub output_packets : List OutputPacket

abbrev pub next16 : ℕ → ℕ
next16 a = (a + 1) % 2 ^ 16

abbrev pub contents_of : Data → Option (List ℕ)
contents_of null = some []
contents_of (bytes bs) = some bs
contents_of dangling = none

abbrev pub free : InputPacket → InputPacket
free p = record p { data_ = elim p.data_ [ null ↦ null | _ ↦ dangling ] }

-- The buffers one behind the other.
abbrev pub gather : List InputPacket → Option (List ℕ)
gather [] = some []
gather (p ∷ ps) = elim (contents_of p.data_) [
  | none ↦ none
  | some bs ↦ elim (gather ps) [ none ↦ none | some rest ↦ some (bs ++ rest) ]
]

abbrev pub first_opcode : List InputPacket → ℕ
first_opcode [] = 0
first_opcode (q ∷ _) = q.opcode

-- The variables of the second half of `ack_mgr_trilogy_recv_packet`; `seen` are the packets before
-- index `i`, the latest first.
pub record Loop : Type 0 where
  pub seen : List InputPacket
  pub diff : ℕ
  pub frags : ℕ
  pub length_ : ℕ
  pub next_ack : ℕ
  pub out : List Delivery

-- `ack_mgr_trilogy_complete_input_packet`, on the packet at index `i`.
unfoldable pub complete_input_packet : InputPacket → Loop → Option Loop
complete_input_packet p st = elim (contents_of p.data_) [
  | none ↦ none
  | some bs ↦ some (record st {
    seen = free p ∷ st.seen;
    diff = st.diff + 1;
    next_ack = next16 p.ack_request;
    out = st.out ++ record { opcode = p.opcode; payload = bs } ∷ [];
  })
]

-- `ack_mgr_trilogy_complete_input_fragments`, on the last `frags` packets up to index `i`; the
-- opcode is that of the first.
unfoldable pub complete_input_fragments : InputPacket → Loop → Option Loop
complete_input_fragments p st =
    let all = p ∷ st.seen in
    let range = reverse (take st.frags all) in
    elim (gather range) [
      | none ↦ none
      | some joined ↦
          if length joined == st.length_
          then some (record {
            seen = map free (take st.frags all) ++ drop st.frags all;
            diff = st.diff + st.frags;
            frags = 0;
            length_ = 0;
            next_ack = next16 p.ack_request;
            out = st.out ++ record { opcode = first_opcode range; payload = joined } ∷ [];
          })
          else none
    ]

-- One round for a packet that is there; `none` is a fault, `some none` the `break`.
unfoldable pub round : ℕ → InputPacket → Loop → Option (Option Loop)
round n p st =
    let counted = record st { length_ = (st.length_ + p.length_) % 2 ^ 32; frags = st.frags + 1 } in
    if p.ack_request == 0
    then some none
    else if p.frag_count == 0
    then elim (complete_input_packet p st) [ none ↦ none | some next ↦ some (some next) ]
    else if ltb n p.frag_count
    then some none
    else if counted.frags == p.frag_count
    then elim (complete_input_fragments p counted) [ none ↦ none | some next ↦ some (some next) ]
    else some (some (record counted { seen = p ∷ st.seen }))

-- The loop over the packets from index `i` on: the variables at its end, and what was not reached.
unfoldable pub run : ℕ → List InputPacket → Loop → Option (Loop × List InputPacket)
run n [] st = some (st, [])
run n (p ∷ ps) st = elim (round n p st) [
  | none ↦ none
  | some none ↦ some (st, p ∷ ps)
  | some (some next) ↦ run n ps next
]

-- The second half: deliver what is complete, and shift it out of the array.
unfoldable pub drain : AckMgr → ℕ → Option (AckMgr × List Delivery)
drain s next_ack =
    let start : Loop = record {
      seen = [];
      diff = 0;
      frags = 0;
      length_ = 0;
      next_ack = next_ack;
      out = [];
    } in
    elim (run (length s.input_packets) s.input_packets start) [
      | none ↦ none
      | some (st, rest) ↦
          let all = reverse st.seen ++ rest in
          if ltb 0 st.diff
          then some (
            record s { next_ack_request_expected = st.next_ack; input_packets = drop st.diff all },
            st.out,
          )
          else some (record s { input_packets = all }, st.out)
    ]

-- `uint32_t diff = ackRequest - nextAck;`
abbrev pub diff_of : ℕ → ℕ → ℕ
diff_of ack next_ack = (ack + 2 ^ 32 - next_ack) % 2 ^ 32

-- The most packets of 24 bytes that an `Array` holds: its capacity is a power of two, and for 2^28
-- of them the size of the memory, a `uint32_t`, goes round.
abbrev pub most_packets : ℕ
most_packets = 2 ^ 27

-- `while (diff >= n) array_push_back(...)`; `none` where a packet is written behind the memory.
abbrev pub expand : ℕ → List InputPacket → Option (List InputPacket)
expand diff ps =
    if ltb diff (length ps)
    then some ps
    else if leb (diff + 1) most_packets
    then some (ps ++ replicate (diff + 1 - length ps) no_packet)
    else none

abbrev pub input_of : ℕ → ℕ → ℕ → List ℕ → InputPacket
input_of opcode ack frag_count payload = record {
  ack_request = ack;
  frag_count = frag_count;
  opcode = opcode;
  length_ = length payload;
  data_ = if ltb 0 (length payload) then bytes payload else null;
}

-- The payload is what `a` has left behind its cursor.
unfoldable pub recv_packet :
    AckMgr → List ℕ → (opcode ack_request frag_count : ℕ) → Option (AckMgr × List Delivery)
recv_packet s payload opcode ack frag_count =
    let next_ack = s.next_ack_request_expected in
    let diff = diff_of ack next_ack in
    if ack == next_ack && frag_count == 0
    then some (
      record s { next_ack_request_expected = next16 next_ack },
      record { opcode = opcode; payload = payload } ∷ [],
    )
    else elim (ack_compare ack next_ack) [
      | past ↦ some (s, [])
      | _ ↦ expand diff s.input_packets >>= λ slots. elim (get_elem? slots diff) [
        | none ↦ none
        | some old ↦
            if not (old.ack_request == 0)
            then some (record s { input_packets = slots }, [])
            else drain
                (record s {
                  input_packets = set slots diff (input_of opcode ack frag_count payload);
                })
                next_ack
      ]
    ]

-- `PacketTrilogyHasAckRequest`, `IsFragment` and `HasAckCounter`.
abbrev pub has_ack_request : ℕ
has_ack_request = 0x0002

abbrev pub is_fragment : ℕ
is_fragment = 0x0008

abbrev pub has_ack_counter : ℕ
has_ack_counter = 0x0010

-- The packet and the number of its fragments beyond the first; the flag is `noAckRequest`.
-- `network_client_trilogy_schedule_packet` appends the wrapper to the queue.
unfoldable pub schedule_packet : AckMgr → (packet frags : ℕ) → Bool → AckMgr
schedule_packet s packet frags flag =
    let no_ack = flag && frags == 0 in
    let frag_count = (frags + 1) % 2 ^ 16 in
    let first = if s.next_ack_to_request == 0 then 1 else s.next_ack_to_request in
    let split = ltb 1 frag_count in
    let ack_bits = if no_ack then 0 else bit_or has_ack_request has_ack_counter in
    let wrapper : OutputPacket = record {
      header = if split then bit_or ack_bits is_fragment else ack_bits;
      ack_request = if no_ack then 0 else first;
      frag_group = if split then s.next_frag_group else 0;
      frag_count = frag_count;
      ack_counter_always_one = if no_ack then 0 else s.ack_counter_always_one;
      ack_counter_request = if no_ack then 0 else s.ack_counter_request;
      packet = packet;
    } in
    record s {
      next_ack_to_request = if no_ack then s.next_ack_to_request else (first + frag_count) % 2 ^ 16;
      next_frag_group = if split then (s.next_frag_group + 1) % 2 ^ 16 else s.next_frag_group;
      ack_counter_request =
          if no_ack then s.ack_counter_request else (s.ack_counter_request + 1) % 256;
      output_packets = s.output_packets ++ wrapper ∷ [];
    }
