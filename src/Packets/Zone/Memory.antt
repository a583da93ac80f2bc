-- ===== src/Packets/Zone/Memory.antt =====
-- What the memory of a new packet has to do with what is sent in it: the functions of
-- src/zone_cluster/mob/client_packet_trilogy_output.c that clear a packet, or write all of it.
use eqp.Common.{
  ℕ, ◌≡◌, refl, sym, ap, ◌∙◌, Bool, true, false, List, ◌++◌, length, replicate, drop_all, arith,
}
use eqp.Aligned.Defs.{Outcome, ok}
use eqp.Packets.Body.{full-memory}
use eqp.Packets.Struct.{sizeof, writes, zero_all}
use eqp.Packets.Zone.Entry.{send_zone_entry}
use eqp.Packets.Zone.Info.{make_op_zone_info}
use eqp.Packets.Zone.Spawn.{make_op_spawn}
use eqp.Packets.Zone.Item.{make_item_packet}
use eqp.Packets.Zone.Message.{
  weather_steps, spawn_appearance_steps, make_op_weather, make_op_spawn_appearance,
}
use eqp.Packets.Zone.Laws.{
  Body, zone_entry_of, weather_of, zone_info_of, spawn_appearance_of, spawn_of, item_of, struct_of,
  write_body_lem,
}

-- The function that makes the packet of a body.
abbrev pub send_of : Body → List ℕ → Outcome (Unit {0})
send_of (zone_entry_of f c) = send_zone_entry f c
send_of (weather_of t i) = make_op_weather t i
send_of (zone_info_of z) = make_op_zone_info z
send_of (spawn_appearance_of e a v) = make_op_spawn_appearance e a v
send_of (spawn_of f m) = make_op_spawn f m
send_of (item_of v s) = make_item_packet v s

abbrev pub is_item : Body → Bool
is_item (zone_entry_of f c) = false
is_item (weather_of t i) = false
is_item (zone_info_of z) = false
is_item (spawn_appearance_of e a v) = false
is_item (spawn_of f m) = false
is_item (item_of v s) = true

-- Clearing leaves nothing of the memory.
zero_all-memory :
    (size : ℕ) (m n : List ℕ)
    → length m ≡ size
    → length n ≡ size
    → zero_all size m ≡ zero_all size n
zero_all-memory size m n h k =
    ap (λ t. record { cursor = 0; length_ = size; buffer = replicate size 0 ++ t })
      (drop_all size m (omega arith) ∙ sym (drop_all size n (omega arith)))

-- A packet other than an item's is the same whatever the memory of its structure's size held that
-- it was made in: nothing of that memory is sent.
pub send_of-memory :
    (b : Body) (m n : List ℕ)
    → is_item b ≡ false
    → length m ≡ sizeof (struct_of b)
    → length n ≡ sizeof (struct_of b)
    → send_of b m ≡ send_of b n
unfolding send_zone_entry make_op_weather make_op_zone_info make_op_spawn_appearance make_op_spawn
    weather_steps spawn_appearance_steps
send_of-memory (zone_entry_of f c) m n i h k = rw (zero_all-memory _ m n h k) refl
send_of-memory (weather_of t i) m n e h k =
    write_body_lem (weather_of t i) m h
    ∙ ap (ok tt) (full-memory (writes (weather_steps t i)) 8 m n refl refl h k)
    ∙ sym (write_body_lem (weather_of t i) n k)
send_of-memory (zone_info_of z) m n i h k = rw (zero_all-memory _ m n h k) refl
send_of-memory (spawn_appearance_of e a v) m n i h k =
    write_body_lem (spawn_appearance_of e a v) m h
    ∙ ap (ok tt) (full-memory (writes (spawn_appearance_steps e a v)) 12 m n refl refl h k)
    ∙ sym (write_body_lem (spawn_appearance_of e a v) n k)
send_of-memory (spawn_of f j) m n i h k = rw (zero_all-memory _ m n h k) refl
send_of-memory (item_of v s) m n i h k = absurd (cc)
