-- ===== src/Aligned/Tests.antt =====
-- A small message in the middle of a buffer, a reverse write and a search for a terminator.
use eqp.Common.{some, ◌≡◌, List, [], ◌∷◌, take, drop, replicate, arith}
use eqp.Aligned.Defs.{Aligned, ok, write_reverse_uint16, advance_null_terminator}
use eqp.Aligned.Bytes.{IsValid}
use eqp.Aligned.RoundTrip.{
  Field, u8, u16, u32, raw, s8, s16, s32, bytes, read_fields, write_fields,
  read_fields-write_fields,
}
use eqp.Aligned.Bounds.{write_reverse_uint16_lem, advance_null_terminator_lem}

abbrev start : Aligned
start = record { cursor = 2; length_ = 12; buffer = 65 ∷ 66 ∷ 67 ∷ 0 ∷ replicate 10 9 }

start-IsValid : IsValid start
start-IsValid = omega arith

abbrev message : List Field
message = u16 0x4141 ∷ u32 70000 ∷ raw (7 ∷ 8 ∷ 9 ∷ []) ∷ u8 1 ∷ []

round_trip_example :
    (b : Aligned) × (write_fields message start ≡ ok tt b)
    × (b.cursor ≡ 12)
    × (read_fields (s16 ∷ s32 ∷ bytes 3 ∷ s8 ∷ []) (record b { cursor = 2 }) ≡ ok message b)
    × (take 2 b.buffer ≡ 65 ∷ 66 ∷ [])
    × (drop b.cursor b.buffer ≡ drop b.cursor start.buffer)
round_trip_example =
    read_fields-write_fields {a = start} message start-IsValid
      (omega arith, (omega arith, (tt, (omega arith, tt)))) (omega arith)

write_reverse_uint16_example :
    write_reverse_uint16 0x1234 (record start { cursor = 4 })
    ≡ ok tt (record start { buffer = 65 ∷ 66 ∷ 0x34 ∷ 0x12 ∷ replicate 10 9 })
write_reverse_uint16_example =
    write_reverse_uint16_lem {a = record start { cursor = 4 }} 0x1234 (omega arith) (omega arith)

advance_null_terminator_example :
    advance_null_terminator start ≡ ok (some 1) (record start { cursor = 4 })
advance_null_terminator_example = advance_null_terminator_lem {a = start} start-IsValid
