-- ===== src/Net/AckMgr/Schedule.antt =====
-- The sequence numbers `ack_mgr_trilogy_schedule_packet` gives out.
use eqp.Common.{
  ℕ, suc, ◌+◌, ◌%◌, ◌^◌, ◌<◌, ◌≡◌, refl, sym, ap, ◌∙◌, true, false, List, [], ◌∷◌, ◌++◌, ltb, ◌==◌,
  if◌then◌else◌, arith, inl, inr, Bool-cases,
}
use mathlib.Core.List.{append_assoc, append-nil}
use eqp.Net.AckMgr.{AckMgr, OutputPacket, schedule_packet}

-- A packet and the number of its fragments beyond the first.
pub record Sent : Type 0 where
  pub packet : ℕ
  pub frags : ℕ

abbrev pub schedule_all : AckMgr → List Sent → AckMgr
schedule_all s [] = s
schedule_all s (p ∷ ps) = schedule_all (schedule_packet s p.packet p.frags false) ps

abbrev pub fragments : List Sent → ℕ
fragments [] = 0
fragments (p ∷ ps) = suc p.frags + fragments ps

abbrev wrapper : (always ack group counter : ℕ) → Sent → OutputPacket
wrapper always ack group counter p = record {
  header = if ltb 0 p.frags then 0x001A else 0x0012;
  ack_request = ack;
  frag_group = if ltb 0 p.frags then group else 0;
  frag_count = suc p.frags;
  ack_counter_always_one = always;
  ack_counter_request = counter % 256;
  packet = p.packet;
}

abbrev next_group : ℕ → Sent → ℕ
next_group group p = if ltb 0 p.frags then group + 1 else group

-- One range of numbers behind the other from `ack` on; the groups from `group`, one for each packet
-- that is split; the counters from `counter`.
abbrev pub numbered : (always ack group counter : ℕ) → List Sent → List OutputPacket
numbered always ack group counter [] = []
numbered always ack group counter (p ∷ ps) =
    wrapper always ack group counter p
    ∷ numbered always (ack + suc p.frags) (next_group group p) (counter + 1) ps

abbrev scheduled : AckMgr → (ack counter : ℕ) → Sent → AckMgr
scheduled s ack counter p = record s {
  next_ack_to_request = ack + suc p.frags;
  next_frag_group = next_group s.next_frag_group p;
  ack_counter_request = (counter + 1) % 256;
  output_packets =
      s.output_packets ++ wrapper s.ack_counter_always_one ack s.next_frag_group counter p ∷ [];
}

schedule_packet_lem :
    (s : AckMgr) (ack counter : ℕ) (p : Sent)
    → (if s.next_ack_to_request == 0 then 1 else s.next_ack_to_request) ≡ ack
    → s.ack_counter_request ≡ counter % 256
    → ack + suc p.frags < 2 ^ 16
    → s.next_frag_group + suc p.frags < 2 ^ 16
    → schedule_packet s p.packet p.frags false ≡ scheduled s ack counter p
unfolding schedule_packet
schedule_packet_lem s ack counter p a c h g =
    let count : (p.frags + 1) % 2 ^ 16 ≡ suc p.frags = omega arith in
    let next : (ack + suc p.frags) % 2 ^ 16 ≡ ack + suc p.frags = omega arith in
    let turn : (counter % 256 + 1) % 256 ≡ (counter + 1) % 256 = omega arith in
    elim (Bool-cases (ltb 0 p.frags)) [
      | inl several ↦
          let t : ltb 1 (suc p.frags) ≡ true = ground arith in
          let group : (s.next_frag_group + 1) % 2 ^ 16 ≡ s.next_frag_group + 1 = ground arith in
          rw (schedule_packet, a, c, count, t, several, next, turn, group)
      | inr one ↦
          let t : ltb 1 (suc p.frags) ≡ false = ground arith in
          rw (schedule_packet, a, c, count, t, one, next, turn)
    ]

-- Packets scheduled one after the other get adjoining ranges of sequence numbers, one number for
-- each fragment, when the numbers in use stay within `uint16_t`; a packet of several fragments gets
-- a group of its own; and what was in the queue stays before them. A counter that has not started is
-- at 1.
pub schedule_all-numbered :
    (ps : List Sent) (s : AckMgr) (ack counter : ℕ)
    → (if s.next_ack_to_request == 0 then 1 else s.next_ack_to_request) ≡ ack
    → s.ack_counter_request ≡ counter % 256
    → ack + fragments ps < 2 ^ 16
    → s.next_frag_group + fragments ps < 2 ^ 16
    → (schedule_all s ps).output_packets
      ≡ s.output_packets ++ numbered s.ack_counter_always_one ack s.next_frag_group counter ps
schedule_all-numbered [] s ack counter a c h g = sym (append-nil s.output_packets)
schedule_all-numbered (p ∷ ps) s ack counter a c h g =
    let t = scheduled s ack counter p in
    let high : 0 < ack = ground arith in
    let e = schedule_packet_lem s ack counter p a c (omega arith) (omega arith) in
    let started : (ack + suc p.frags == 0) ≡ false = ground arith in
    let small : next_group s.next_frag_group p + fragments ps < 2 ^ 16 = ground arith in
    let rest =
      schedule_all-numbered ps t (ack + suc p.frags) (counter + 1) (rw started) refl (omega arith)
        small in
    let w = wrapper s.ack_counter_always_one ack s.next_frag_group counter p in
    let ws =
      numbered s.ack_counter_always_one (ack + suc p.frags) (next_group s.next_frag_group p)
        (counter + 1) ps in
    ap (λ u. (schedule_all u ps).output_packets) e
    ∙ rest
    ∙ append_assoc s.output_packets (w ∷ []) ws
