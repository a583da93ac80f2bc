-- ===== src/Aligned/RoundTrip.antt =====
-- Messages as sequences of fields: their bytes, their writer and their reader. The packet builders of
-- the servers are such sequences, and so are the parsers of the clients.
use eqp.Common.{
  ℕ, ◌+◌, ◌^◌, ◌≤◌, ◌<◌, ◌≡◌, refl, ap, sym, ◌∙◌, List, [], ◌∷◌, ◌++◌, map, length, take, drop,
  splice, splice-nil, splice-append, length-splice, take-splice, drop-splice, drop-drop, take-drop,
  take-take, drop-length, take-drop-splice, length-append, take-append_of_le, take_all, arith, ◌-◌,
}
use eqp.Aligned.Defs.{
  Aligned, ok, M, ◌>>=◌, pure, read_uint8, read_uint16, read_uint32, read_uint64, read_buffer,
  write_uint8, write_uint16, write_uint32, write_uint64, write_buffer,
}
use eqp.Aligned.Bytes.{
  IsValid, le_bytes, write_buffer_lem, write_uint16-eq, write_uint32-eq, write_uint64-eq,
  write_uint8_lem,
}
use eqp.Aligned.Reads.{
  Ahead, read_buffer_lem, read_uint8_lem, read_uint16_lem, read_uint32_lem, read_uint64_lem,
}

pub data Field : Type 0 where
  u8 u16 u32 u64 : ℕ → Field
  raw : List ℕ → Field

-- What a reader knows of a field beforehand.
pub data Shape : Type 0 where
  s8 s16 s32 s64 : Shape
  bytes : ℕ → Shape

abbrev pub shape : Field → Shape
shape (u8 x) = s8
shape (u16 x) = s16
shape (u32 x) = s32
shape (u64 x) = s64
shape (raw bs) = bytes (length bs)

abbrev pub Fits : Field → Type 0
Fits (u8 x) = x < 2 ^ 8
Fits (u16 x) = x < 2 ^ 16
Fits (u32 x) = x < 2 ^ 32
Fits (u64 x) = x < 2 ^ 64
Fits (raw bs) = Unit

abbrev pub AllFit : List Field → Type 0
AllFit [] = Unit
AllFit (f ∷ fs) = Fits f × AllFit fs

abbrev pub bytes_of : Field → List ℕ
bytes_of (u8 x) = le_bytes 1 x
bytes_of (u16 x) = le_bytes 2 x
bytes_of (u32 x) = le_bytes 4 x
bytes_of (u64 x) = le_bytes 8 x
bytes_of (raw bs) = bs

abbrev pub encode : List Field → List ℕ
encode [] = []
encode (f ∷ fs) = bytes_of f ++ encode fs

abbrev pub size : List Field → ℕ
size fs = length (encode fs)

unfoldable pub write_field : Field → M (Unit {0})
write_field (u8 x) = write_uint8 x
write_field (u16 x) = write_uint16 x
write_field (u32 x) = write_uint32 x
write_field (u64 x) = write_uint64 x
write_field (raw bs) = write_buffer bs

unfoldable pub write_fields : List Field → M (Unit {0})
write_fields [] = pure tt
write_fields (f ∷ fs) = write_field f >>= λ _. write_fields fs

unfoldable pub read_field : Shape → M Field
read_field s8 = read_uint8 >>= λ x. pure (u8 x)
read_field s16 = read_uint16 >>= λ x. pure (u16 x)
read_field s32 = read_uint32 >>= λ x. pure (u32 x)
read_field s64 = read_uint64 >>= λ x. pure (u64 x)
read_field (bytes n) = read_buffer n >>= λ bs. pure (raw bs)

unfoldable pub read_fields : List Shape → M (List Field)
read_fields [] = pure []
read_fields (s ∷ ss) = read_field s >>= λ f. read_fields ss >>= λ fs. pure (f ∷ fs)

-- The state after `bs` has been written at the cursor.
abbrev pub written : Aligned → List ℕ → Aligned
written a bs = record a { cursor = a.cursor + length bs; buffer = splice a.cursor bs a.buffer }

pub written-IsValid :
    {a : Aligned} (bs : List ℕ)
    → IsValid a
    → a.cursor + length bs ≤ a.length_
    → IsValid (written a bs)
written-IsValid {a} bs v h = omega (arith, length-splice a.cursor bs a.buffer (omega arith))

write_field_lem :
    {a : Aligned} (f : Field)
    → IsValid a
    → Fits f
    → a.cursor + length (bytes_of f) ≤ a.length_
    → write_field f a ≡ ok tt (written a (bytes_of f))
unfolding write_field
write_field_lem (u8 x) v fit h = write_uint8_lem x v fit h
write_field_lem {a} (u16 x) v fit h =
    ap (λ m. m a) (write_uint16-eq x) ∙ write_buffer_lem (le_bytes 2 x) v h
write_field_lem {a} (u32 x) v fit h =
    ap (λ m. m a) (write_uint32-eq x) ∙ write_buffer_lem (le_bytes 4 x) v h
write_field_lem {a} (u64 x) v fit h =
    ap (λ m. m a) (write_uint64-eq x) ∙ write_buffer_lem (le_bytes 8 x) v h
write_field_lem (raw bs) v fit h = write_buffer_lem bs v h

write_fields_lem :
    (fs : List Field) {a : Aligned}
    → IsValid a
    → AllFit fs
    → a.cursor + size fs ≤ a.length_
    → write_fields fs a ≡ ok tt (written a (encode fs))
unfolding write_fields
write_fields_lem [] {a} v fit h =
    let still : a.cursor ≡ a.cursor + 0 = omega arith in rw (splice-nil, ← still)
write_fields_lem (f ∷ fs) {a} v fit h =
    let room : a.cursor + length (bytes_of f) + size fs ≤ a.length_ =
      omega (arith, length-append (bytes_of f) (encode fs)) in
    let total : a.cursor + length (bytes_of f) + size fs
        ≡ a.cursor + length (bytes_of f ++ encode fs) =
      omega (arith, length-append (bytes_of f) (encode fs)) in
    rw (◌>>=◌, write_field_lem f v fit.0 (omega arith))
      (write_fields_lem fs (written-IsValid (bytes_of f) v (omega arith)) fit.1 (omega arith)
        ∙ ap
            (λ k. ok tt (record a {
              cursor = k;
              buffer =
                  splice (a.cursor + length (bytes_of f)) (encode fs)
                    (splice a.cursor (bytes_of f) a.buffer);
            }))
            total
        ∙ ap
            (λ t.
              ok tt (record a { cursor = a.cursor + length (bytes_of f ++ encode fs); buffer = t }))
            (sym (splice-append a.cursor (bytes_of f) (encode fs) a.buffer (omega arith))))

Ahead-left : (a : Aligned) (bs cs : List ℕ) → Ahead a (bs ++ cs) → Ahead a bs
Ahead-left a bs cs h =
    let n = length (bs ++ cs) in
    sym (take-take (length bs) n (drop a.cursor a.buffer) (omega (arith, length-append bs cs)))
    ∙ ap (take (length bs)) h
    ∙ take-append_of_le (length bs) bs cs (omega arith)
    ∙ take_all (length bs) bs (omega arith)

Ahead-right :
    (a : Aligned) (bs cs : List ℕ)
    → Ahead a (bs ++ cs)
    → Ahead (record a { cursor = a.cursor + length bs }) cs
Ahead-right a bs cs h =
    let n = length (bs ++ cs) in
    let rest : length cs ≡ n - length bs = omega (arith, length-append bs cs) in
    ap (take (length cs)) (sym (drop-drop (length bs) a.cursor a.buffer))
    ∙ ap (λ k. take k (drop (length bs) (drop a.cursor a.buffer))) rest
    ∙ take-drop n (length bs) (drop a.cursor a.buffer) (omega (arith, length-append bs cs))
    ∙ ap (drop (length bs)) h
    ∙ drop-length bs cs

read_field_lem :
    {a : Aligned} (f : Field)
    → IsValid a
    → Fits f
    → a.cursor + length (bytes_of f) ≤ a.length_
    → Ahead a (bytes_of f)
    → read_field (shape f) a ≡ ok f (record a { cursor = a.cursor + length (bytes_of f) })
unfolding read_field
read_field_lem (u8 x) v fit h ahead = rw (◌>>=◌, read_uint8_lem x v h ahead fit)
read_field_lem (u16 x) v fit h ahead = rw (◌>>=◌, read_uint16_lem x v h ahead fit)
read_field_lem (u32 x) v fit h ahead = rw (◌>>=◌, read_uint32_lem x v h ahead fit)
read_field_lem (u64 x) v fit h ahead = rw (◌>>=◌, read_uint64_lem x v h ahead fit)
read_field_lem (raw bs) v fit h ahead = rw (◌>>=◌, read_buffer_lem (length bs) v h, ahead)

-- A message at the cursor reads back as its fields, and the cursor moves past it.
read_fields_lem :
    (fs : List Field) {a : Aligned}
    → IsValid a
    → AllFit fs
    → a.cursor + size fs ≤ a.length_
    → Ahead a (encode fs)
    → read_fields (map shape fs) a ≡ ok fs (record a { cursor = a.cursor + size fs })
unfolding read_fields
read_fields_lem [] {a} v fit h ahead =
    let still : a.cursor ≡ a.cursor + 0 = omega arith in rw (← still)
read_fields_lem (f ∷ fs) {a} v fit h ahead =
    let both = length-append (bytes_of f) (encode fs) in
    let total : a.cursor + length (bytes_of f) + size fs
        ≡ a.cursor + length (bytes_of f ++ encode fs) =
      omega (arith, both) in
    let next = record a { cursor = a.cursor + length (bytes_of f) } in
    let rest =
      read_fields_lem fs {a = next} (omega arith) fit.1 (omega arith)
        (Ahead-right a (bytes_of f) (encode fs) ahead) in
    rw (
      ◌>>=◌,
      read_field_lem f v fit.0 (omega arith) (Ahead-left a (bytes_of f) (encode fs) ahead),
      rest,
      total,
    )

-- A message whose fields are in range, written where it fits, leaves the cursor behind it; read
-- back from where it began it gives the same fields, ends at the same place, and no byte before or
-- behind it has changed.
pub read_fields-write_fields :
    {a : Aligned} (fs : List Field)
    → IsValid a
    → AllFit fs
    → a.cursor + size fs ≤ a.length_
    → (b : Aligned) × (write_fields fs a ≡ ok tt b)
      × (b.cursor ≡ a.cursor + size fs)
      × (read_fields (map shape fs) (record b { cursor = a.cursor }) ≡ ok fs b)
      × (take a.cursor b.buffer ≡ take a.cursor a.buffer)
      × (drop b.cursor b.buffer ≡ drop b.cursor a.buffer)
read_fields-write_fields {a} fs v fit h =
    let b = written a (encode fs) in
    let bv = written-IsValid (encode fs) v h in
    (
      b,
      write_fields_lem fs v fit h,
      refl,
      read_fields_lem fs {a = record b { cursor = a.cursor }} (omega arith) fit h
          (take-drop-splice a.cursor (encode fs) a.buffer (omega arith)),
      take-splice a.cursor (encode fs) a.buffer (omega arith),
      drop-splice a.cursor (encode fs) a.buffer (omega arith),
    )
