-- ===== src/Net/AckMgr/Recv.antt =====
-- `ack_mgr_trilogy_recv_packet` on packets that are early, late and in order.
use eqp.Common.{
  ℕ, ◌+◌, ◌%◌, ◌^◌, ◌<◌, ◌≡◌, ◌≢◌, refl, ◌⊎◌, true, false, not, ◌&&◌, some, List, [], ◌∷◌, ◌++◌,
  map, length, get_elem?, set, ◌==◌, arith, inl, inr, ==_refl, ◌≤◌, none,
}
use eqp.Net.AckCommon.{AckRelativity, present, future, past, ack_compare, half_size}
use eqp.Net.AckMgr.{
  ◌>>=◌, most_packets, InputPacket, AckMgr, no_packet, next16, input_of, diff_of, expand,
  recv_packet, most_packets,
}
use eqp.Net.AckMgr.Drain.{
  Message, IsStopped, AllComplete, queue_of, delivery_of, expected, drain-queue,
}

relative : (r : AckRelativity) → (r ≡ past) ⊎ ((r ≡ present) ⊎ (r ≡ future))
relative present = inr (inl refl)
relative future = inr (inr refl)
relative past = inl refl

-- A packet that is not the unfragmented one expected, and not from the past, goes to the free slot
-- at its distance from the expected number, where the array can be made that long. When the queue
-- then begins with complete messages, and behind them it ends or has an empty slot first, exactly
-- these are delivered, and what is behind them stays.
pub recv_packet-completes :
    (s : AckMgr) (payload : List ℕ) (opcode ack frag_count : ℕ) (ms : List Message)
    (rest slots : List InputPacket) (old : InputPacket)
    → (ack == s.next_ack_request_expected && frag_count == 0) ≡ false
    → ack_compare ack s.next_ack_request_expected ≢ past
    → expand (diff_of ack s.next_ack_request_expected) s.input_packets ≡ some slots
    → get_elem? slots (diff_of ack s.next_ack_request_expected) ≡ some old
    → old.ack_request ≡ 0
    → set slots (diff_of ack s.next_ack_request_expected) (input_of opcode ack frag_count payload)
      ≡ queue_of ms ++ rest
    → AllComplete (length (queue_of ms ++ rest)) ms
    → IsStopped rest
    → recv_packet s payload opcode ack frag_count
      ≡ some (
        record s {
          next_ack_request_expected = expected s.next_ack_request_expected ms;
          input_packets = rest;
        },
        map delivery_of ms,
      )
unfolding recv_packet
recv_packet-completes s payload opcode ack frag_count ms rest slots old slow current more slot free
      q c stop =
    let next = s.next_ack_request_expected in
    let f : not (old.ack_request == 0) ≡ false = rw free refl in
    let t = record s { input_packets = queue_of ms ++ rest } in
    let d = drain-queue t next ms rest refl c stop refl in
    elim (relative (ack_compare ack next)) [
      | inl p ↦ absurd (current p)
      | inr (inl p) ↦ rw (recv_packet, slow, p, more, ◌>>=◌, slot, f, q, d)
      | inr (inr p) ↦ rw (recv_packet, slow, p, more, ◌>>=◌, slot, f, q, d)
    ]

ack_compare_round :
    (e k : ℕ) → e < 2 ^ 16 → 2 ^ 16 ≤ e + k → k < 1024 → ack_compare ((e + k) % 2 ^ 16) e ≡ future
unfolding ack_compare
ack_compare_round e k h g l = ground arith

-- Where the sequence numbers go round, the distance of a packet is computed as nearly 2^32: a packet
-- whose number is ahead of the expected one by less than half the window, but below it since the
-- numbers have gone round, makes the code write behind the memory of its array, unless the array has
-- more than 2^27 slots already.
pub recv_packet_wraps :
    (s : AckMgr) (payload : List ℕ) (opcode k frag_count : ℕ)
    → s.next_ack_request_expected < 2 ^ 16
    → 2 ^ 16 ≤ s.next_ack_request_expected + k
    → k < half_size
    → length s.input_packets ≤ most_packets
    → recv_packet s payload opcode ((s.next_ack_request_expected + k) % 2 ^ 16) frag_count ≡ none
unfolding recv_packet
recv_packet_wraps s payload opcode k frag_count h g l n =
    let e = s.next_ack_request_expected in
    let ack = (e + k) % 2 ^ 16 in
    let slow : (ack == e && frag_count == 0) ≡ false = ground arith in
    let f = ack_compare_round e k h g l in
    let far : most_packets < diff_of ack e = omega arith in
    let full : expand (diff_of ack e) s.input_packets ≡ none = ground arith in
    rw (recv_packet, slow, f, full, ◌>>=◌)

recv_packet-fast :
    (s : AckMgr) (payload : List ℕ) (opcode ack : ℕ)
    → s.next_ack_request_expected ≡ ack
    → recv_packet s payload opcode ack 0
      ≡ some (
        record s { next_ack_request_expected = next16 s.next_ack_request_expected },
        record { opcode = opcode; payload = payload } ∷ [],
      )
unfolding recv_packet
recv_packet-fast s payload opcode ack e =
    let t : (ack == s.next_ack_request_expected && 0 == 0) ≡ true = rw (e, ==_refl ack) in
    rw (recv_packet, t)

recv_packet-occupied :
    (s : AckMgr) (payload : List ℕ) (opcode ack frag_count d : ℕ) (old : InputPacket)
    (slots : List InputPacket)
    → (ack == s.next_ack_request_expected && frag_count == 0) ≡ false
    → ack_compare ack s.next_ack_request_expected ≡ future
    → diff_of ack s.next_ack_request_expected ≡ d
    → expand d s.input_packets ≡ some slots
    → get_elem? slots d ≡ some old
    → 0 < old.ack_request
    → recv_packet s payload opcode ack frag_count ≡ some (record s { input_packets = slots }, [])
unfolding recv_packet
recv_packet-occupied s payload opcode ack frag_count d old slots slow f e more slot a =
    let t : not (old.ack_request == 0) ≡ true = ground arith in
    rw (recv_packet, slow, f, e, more, ◌>>=◌, slot, t)

ack_compare_ahead : (e k : ℕ) → 0 < k → k < 1024 → ack_compare (e + k) e ≡ future
unfolding ack_compare
ack_compare_ahead e k p h = ground arith

ack_compare_plus : (e : ℕ) → ack_compare (e + 2) (e + 1) ≡ future
unfolding ack_compare
ack_compare_plus e = ground arith

future≢past : future ≢ past
future≢past e = cc

-- The slots stay where they are when the expected packet itself comes: a packet that waited in slot
-- 1 is then in the way of the one after it. From an empty queue at number `e`, the packets `e + 1`,
-- `e` and `e + 2`, none of them a fragment, come to one delivery, of `e`; `e + 2` is dropped.
pub recv_packet_stale :
    (s : AckMgr) (e o1 o2 o3 : ℕ) (p1 p2 p3 : List ℕ)
    → s.next_ack_request_expected ≡ e
    → s.input_packets ≡ []
    → e + 2 < 2 ^ 16
    → (t u v : AckMgr) × (recv_packet s p1 o1 (e + 1) 0 ≡ some (t, []))
      × (recv_packet t p2 o2 e 0 ≡ some (u, record { opcode = o2; payload = p2 } ∷ []))
      × (recv_packet u p3 o3 (e + 2) 0 ≡ some (v, []))
      × (v.input_packets ≡ no_packet ∷ input_of o1 (e + 1) 0 p1 ∷ [])
      × (v.next_ack_request_expected ≡ e + 1)
unfolding recv_packet
recv_packet_stale s e o1 o2 o3 p1 p2 p3 n q w =
    let slots = no_packet ∷ input_of o1 (e + 1) 0 p1 ∷ [] in
    let next = s.next_ack_request_expected in
    let t = record s { input_packets = slots } in
    let u = record t { next_ack_request_expected = next16 next } in
    let v = record u { input_packets = slots } in
    let d : diff_of (e + 1) next ≡ 1 = rw n (omega arith) in
    let slow : (e + 1 == next && 0 == 0) ≡ false = rw n (ground arith) in
    let slow' : (e + 2 == next16 next && 0 == 0) ≡ false = rw n (ground arith) in
    let d' : diff_of (e + 2) (next16 next) ≡ 1 = rw n (omega arith) in
    let ahead : ack_compare (e + 1) next ≡ future =
      rw n (ack_compare_ahead e 1 (omega arith) (omega arith)) in
    let m : next16 next ≡ e + 1 = rw n (omega arith) in
    let ahead' : ack_compare (e + 2) (next16 next) ≡ future = rw (m, ack_compare_plus e) in
    (
      t,
      u,
      v,
      recv_packet-completes s p1 o1 (e + 1) 0 [] slots (no_packet ∷ no_packet ∷ []) no_packet slow
          (rw ahead future≢past) (rw (d, q) refl) (rw d refl) refl (rw d refl) tt refl,
      recv_packet-fast t p2 o2 e n,
      recv_packet-occupied u p3 o3 (e + 2) 0 1 (input_of o1 (e + 1) 0 p1) slots slow' ahead' d' refl
          refl (omega arith),
      refl,
      m,
    )
