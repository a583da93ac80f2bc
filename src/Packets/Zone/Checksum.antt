-- ===== src/Packets/Zone/Checksum.antt =====
-- The zone entry with its checksum: `client_trilogy_send_zone_entry` of
-- src/zone_cluster/mob/client_packet_trilogy_output.c.
use eqp.Common.{
  ℕ, ◌-◌, ◌^◌, ◌≤◌, ◌<◌, ◌≡◌, refl, ap, ◌∙◌, List, ◌++◌, length, take, drop, arith, replicate,
  length-append, length-replicate, length-drop, length-splice, take_all, true,
}
use eqp.Aligned.Defs.{Aligned, ok, ◌>>=◌, reset}
use eqp.Aligned.Bytes.{IsValid, le_bytes, write_buffer_lem, write_uint32-eq}
use eqp.Aligned.RoundTrip.{written}
use eqp.Net.Crc.{crc_calc32, complement}
use eqp.Packets.Body.{prepare-IsValid}
use eqp.Packets.Plain.{overlay, length-overlay}
use eqp.Packets.Struct.{sizeof, writes, zero_all, lands-fits}
use eqp.Packets.Structs.Zone.{zone_entry}
use eqp.Packets.Zone.Mobs.{Floats, Client}
use eqp.Packets.Zone.Entry.{zone_entry_steps, write_crc, send_zone_entry}
use eqp.Packets.Zone.Laws.{zone_entry_of, write_body_lem, steps_of-lands}

-- What stands in the packet before the checksum is written.
abbrev pub entry_body : Floats → Client → List ℕ → List ℕ
entry_body f c fresh =
    let a = zero_all (sizeof zone_entry) fresh in
    (written a (overlay (writes (zone_entry_steps f c)) a.buffer)).buffer

write_crc_lem :
    (a : Aligned)
    → length a.buffer ≡ a.length_
    → 4 ≤ a.length_
    → a.length_ < 2 ^ 31
    → write_crc a
      ≡ ok tt (record {
        cursor = 4;
        length_ = a.length_;
        buffer = le_bytes 4 (complement (crc_calc32 (drop 4 a.buffer))) ++ drop 4 a.buffer;
      })
unfolding write_crc reset
write_crc_lem a h k j =
    let front = record a { cursor = 0 } in
    let valid : IsValid front = record {
      within = omega arith;
      backed = omega arith;
      small = omega arith;
    } in
    let behind : take (a.length_ - 4) (drop 4 a.buffer) ≡ drop 4 a.buffer =
      take_all (a.length_ - 4) (drop 4 a.buffer) (rw (length-drop 4 a.buffer) (omega arith)) in
    let crc = complement (crc_calc32 (take (a.length_ - 4) (drop 4 a.buffer))) in
    ap (λ m. m front) (write_uint32-eq crc)
    ∙ write_buffer_lem (le_bytes 4 crc) valid k
    ∙ rw behind refl

-- The packet of a zone entry is its body, with the complement of the checksum of all that stands
-- behind the first four bytes in place of these.
pub send_zone_entry_lem :
    (f : Floats) (c : Client) (fresh : List ℕ)
    → length fresh ≡ sizeof zone_entry
    → let behind = drop 4 (entry_body f c fresh) in
      send_zone_entry f c fresh
      ≡ ok tt (record {
        cursor = 4;
        length_ = sizeof zone_entry;
        buffer = le_bytes 4 (complement (crc_calc32 behind)) ++ behind;
      })
unfolding send_zone_entry
send_zone_entry_lem f c fresh h =
    let a = zero_all (sizeof zone_entry) fresh in
    let steps = zone_entry_steps f c in
    let bs = overlay (writes steps) a.buffer in
    let valid : IsValid a = prepare-IsValid true (sizeof zone_entry) fresh h (omega arith) in
    let whole : length a.buffer ≡ sizeof zone_entry =
      length-append (replicate (sizeof zone_entry) 0) (drop (sizeof zone_entry) fresh)
      ∙ rw (length-replicate {A = ℕ} (sizeof zone_entry) 0, length-drop (sizeof zone_entry) fresh)
          (omega arith) in
    let fits = lands-fits zone_entry steps (steps_of-lands (zone_entry_of f c)) in
    let long = length-overlay (writes steps) a.buffer (omega arith) in
    let size : length (written a bs).buffer ≡ sizeof zone_entry =
      length-splice 0 bs a.buffer (omega arith) ∙ whole in
    rw (◌>>=◌, write_body_lem (zone_entry_of f c) fresh h)
      (write_crc_lem (written a bs) size (omega arith) (omega arith))
