-- ===== src/Net/Tests.antt =====
-- Sequence numbers round the wrap, a packet of three fragments, and short conversations.
use eqp.Common.{
  ℕ, ◌≤◌, ◌<◌, ◌≡◌, ◌≢◌, ◌↔◌, refl, false, none, some, List, [], ◌∷◌, ◌++◌, map, length, replicate,
  get_or, arith, ◌+◌, ◌%◌,
}
use eqp.Net.AckCommon.{future, past, ack_compare, ack_compare_window}
use eqp.Net.Packet.{Packet, create, length_raw, fragmentize}
use eqp.Net.Packet.Sizes.{capacity, capacity_iff}
use eqp.Net.Packet.Layout.{IsPlanned, fragmentize_lem}
use eqp.Net.AckMgr.{
  AckMgr, InputPacket, Delivery, OutputPacket, no_packet, input_of, drain, recv_packet,
}
use eqp.Net.AckMgr.Drain.{Fragment, Message, single, split, AllComplete, queue_of, drain-queue}
use eqp.Net.AckMgr.Recv.{recv_packet-completes, recv_packet_wraps, recv_packet_stale}
use eqp.Net.AckMgr.Schedule.{Sent, schedule_all, numbered, schedule_all-numbered}
use eqp.Net.Crc.{crc_table}
use eqp.Net.Crc.Laws.{remainder, crc_table_lem}

crc_table_example : get_or crc_table 255 0 ≡ remainder 255
crc_table_example = crc_table_lem 255 (omega arith)

ack_compare_window_example :
    (1024 < 1024 → ack_compare 1022 65534 ≡ future) × (ack_compare 64510 65534 ≡ past)
ack_compare_window_example = ack_compare_window 65534 1024 (omega arith) (omega arith) (omega arith)

capacity_example :
    ((1023 ≤ capacity (create 7 1023 []).frag_count) ↔ ((0 < 511) × (511 < 511)))
    × (1023 % 512 ≡ 0 → 1023 ≡ capacity (create 7 1023 []).frag_count + 2)
    × (1023 % 512 ≡ 511 → 1023 ≡ capacity (create 7 1023 []).frag_count + 1)
capacity_example = capacity_iff 7 1023 [] (omega arith) (omega arith)

abbrev planned : Packet
planned = record {
  opcode = 7;
  frag_count = 2;
  data_length = 1030;
  ref_count = 0;
  freed = false;
  bytes = replicate 18 0 ++ replicate 1030 5 ++ replicate 48 0;
}

planned-IsPlanned : IsPlanned planned
unfolding length_raw
planned-IsPlanned = omega arith

fragmentize_example :
    (length (fragmentize planned).bytes ≡ 1096) × (get_or (fragmentize planned).bytes 1049 0 ≡ 5)
fragmentize_example = fragmentize_lem planned 1009 planned-IsPlanned (omega arith)

abbrev payload : List ℕ
payload = 1 ∷ 2 ∷ []

abbrev fragment : ℕ → Fragment
fragment n = record { opcode = 9; ack_request = n; payload = n ∷ n ∷ [] }

-- The number 5 is expected; the fragments 6 and 7 and the packet 8 have come, 10 is early.
abbrev waiting : AckMgr
waiting = record {
  next_ack_request_expected = 5;
  input_packets =
      no_packet
      ∷ input_of 9 6 3 (6 ∷ 6 ∷ [])
      ∷ input_of 9 7 3 (7 ∷ 7 ∷ [])
      ∷ input_of 4 8 0 (1 ∷ 2 ∷ [])
      ∷ no_packet
      ∷ input_of 4 10 0 (3 ∷ [])
      ∷ [];
  next_ack_to_request = 0;
  next_frag_group = 3;
  ack_counter_always_one = 1;
  ack_counter_request = 255;
  output_packets = [];
}

abbrev messages : List Message
messages =
    split (fragment 5) (fragment 6 ∷ fragment 7 ∷ [])
    ∷ single (record { opcode = 4; ack_request = 8; payload = 1 ∷ 2 ∷ [] })
    ∷ []

abbrev early : List InputPacket
early = no_packet ∷ input_of 4 10 0 (3 ∷ []) ∷ []

abbrev delivered : List Delivery
delivered =
    record { opcode = 9; payload = 5 ∷ 5 ∷ 6 ∷ 6 ∷ 7 ∷ 7 ∷ [] }
    ∷ record { opcode = 4; payload = 1 ∷ 2 ∷ [] }
    ∷ []

abbrev completed : AckMgr
completed = record waiting { input_packets = queue_of messages ++ early }

all_complete : AllComplete 6 messages
all_complete =
    (((omega arith, (omega arith, (omega arith, tt))), omega arith, omega arith), (omega arith, tt))

drain_example :
    drain completed 5
    ≡ some (record waiting { next_ack_request_expected = 9; input_packets = early }, delivered)
drain_example = drain-queue completed 5 messages early refl all_complete refl refl

present≢past : ack_compare 5 5 ≢ past
unfolding ack_compare
present≢past e = cc

recv_packet_example :
    recv_packet waiting (5 ∷ 5 ∷ []) 9 5 3
    ≡ some (record waiting { next_ack_request_expected = 9; input_packets = early }, delivered)
recv_packet_example =
    recv_packet-completes waiting (5 ∷ 5 ∷ []) 9 5 3 messages early waiting.input_packets no_packet
      refl present≢past refl refl refl refl all_complete refl

abbrev idle : AckMgr
idle = record waiting { input_packets = [] }

wrap_example : recv_packet (record idle { next_ack_request_expected = 65535 }) [] 4 1 0 ≡ none
wrap_example =
    recv_packet_wraps (record idle { next_ack_request_expected = 65535 }) [] 4 2 0 (omega arith)
      (omega arith) (omega arith) (omega arith)

stale_example :
    (t u v : AckMgr) × (recv_packet idle (1 ∷ []) 4 6 0 ≡ some (t, []))
    × (recv_packet t (2 ∷ []) 4 5 0 ≡ some (u, record { opcode = 4; payload = 2 ∷ [] } ∷ []))
    × (recv_packet u (3 ∷ []) 4 7 0 ≡ some (v, []))
    × (v.input_packets ≡ no_packet ∷ input_of 4 6 0 (1 ∷ []) ∷ [])
    × (v.next_ack_request_expected ≡ 6)
stale_example = recv_packet_stale idle 5 4 4 4 (1 ∷ []) (2 ∷ []) (3 ∷ []) refl refl (omega arith)

abbrev sent : List Sent
sent =
    record { packet = 70; frags = 0 }
    ∷ record { packet = 71; frags = 2 }
    ∷ record { packet = 72; frags = 0 }
    ∷ []

schedule_example : (schedule_all idle sent).output_packets ≡ numbered 1 1 3 255 sent
schedule_example = schedule_all-numbered sent idle 1 255 refl refl (omega arith) (omega arith)

numbered-sent : map (λ (w : OutputPacket). w.ack_request) (numbered 1 1 3 255 sent) ≡ 1 ∷ 2 ∷ 5 ∷ []
numbered-sent = refl
