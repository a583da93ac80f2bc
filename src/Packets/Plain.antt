-- ===== src/Packets/Plain.antt =====
-- The calls of the `Aligned` writer that packet bodies are made of (src/common/aligned.h), as a list.
use eqp.Common.{
  ℕ, ◌+◌, ◌-◌, ◌%◌, ◌≤◌, ◌≡◌, refl, sym, ap, ◌∙◌, List, [], ◌∷◌, ◌++◌, length, take, drop,
  replicate, splice, splice-nil, splice-append, length-splice, drop-splice, length-append,
  length-take, length-drop, drop-drop, length-replicate, ◌==◌, if◌then◌else◌, Bool-cases, inl, inr,
  arith, take-append-drop,
}
use eqp.Aligned.Defs.{
  Aligned, ok, M, ◌>>=◌, pure, advance, write_uint8, write_uint16, write_uint32, write_zeroes,
  write_memset, write_buffer, write_snprintf_full_advance, store_from,
}
use eqp.Aligned.Bytes.{
  IsValid, le_bytes, advance_lem, store_from_lem, write_buffer_lem, write_uint16-eq,
  write_uint32-eq, write_uint8_lem,
}
use eqp.Aligned.RoundTrip.{written, written-IsValid}

-- Numbers are cut to their width by the conversion at the call; a signed number is its two's
-- complement, a `float` the 32 bits of its representation.
pub data Plain : Type 0 where
  uint8 uint16 uint32 skip zeroes : ℕ → Plain
  fill : ℕ → ℕ → Plain
  chars : ℕ → List ℕ → Plain
  buffer : List ℕ → Plain

abbrev pub width : Plain → ℕ
width (uint8 v) = 1
width (uint16 v) = 2
width (uint32 v) = 4
width (skip n) = n
width (zeroes n) = n
width (fill b n) = n
width (chars n s) = n
width (buffer bs) = length bs

abbrev pub total : List Plain → ℕ
total [] = 0
total (p ∷ ps) = width p + total ps

unfoldable pub write_plain : Plain → M (Unit {0})
write_plain (uint8 v) = write_uint8 (v % 256)
write_plain (uint16 v) = write_uint16 v
write_plain (uint32 v) = write_uint32 v
write_plain (skip n) = advance n >>= λ _. pure tt
write_plain (zeroes n) = write_zeroes n
write_plain (fill b n) = write_memset b n
write_plain (chars n s) = write_snprintf_full_advance n s
write_plain (buffer bs) = write_buffer bs

unfoldable pub write_plains : List Plain → M (Unit {0})
write_plains [] = pure tt
write_plains (p ∷ ps) = write_plain p >>= λ _. write_plains ps

-- A text cut to `n` bytes with its terminator.
abbrev pub terminated : ℕ → List ℕ → List ℕ
terminated n s = if n == 0 then [] else take (n - 1) s ++ 0 ∷ []

-- The bytes a call leaves, where `old` stood.
abbrev pub emit : Plain → List ℕ → List ℕ
emit (uint8 v) old = le_bytes 1 (v % 256)
emit (uint16 v) old = le_bytes 2 v
emit (uint32 v) old = le_bytes 4 v
emit (skip n) old = take n old
emit (zeroes n) old = replicate n 0
emit (fill b n) old = replicate n (b % 256)
emit (chars n s) old =
    let text = terminated n s in text ++ take (n - length text) (drop (length text) old)
emit (buffer bs) old = bs

abbrev pub overlay : List Plain → List ℕ → List ℕ
overlay [] old = []
overlay (p ∷ ps) old = emit p old ++ overlay ps (drop (width p) old)

pub total-append : (ps qs : List Plain) → total (ps ++ qs) ≡ total ps + total qs
total-append [] qs = omega arith
total-append (p ∷ ps) qs = omega (arith, total-append ps qs)

length-terminated : (n : ℕ) (s : List ℕ) → length (terminated n s) ≤ n
length-terminated n s = elim (Bool-cases (n == 0)) [
  | inl none_left ↦ rw none_left (omega arith)
  | inr more ↦
      rw (more, length-append (take (n - 1) s) (0 ∷ []), length-take (n - 1) s) (ground arith)
]

pub length-emit : (p : Plain) (old : List ℕ) → width p ≤ length old → length (emit p old) ≡ width p
length-emit (uint8 v) old h = refl
length-emit (uint16 v) old h = refl
length-emit (uint32 v) old h = refl
length-emit (skip n) old h = length-take n old ∙ omega arith
length-emit (zeroes n) old h = length-replicate n 0
length-emit (fill b n) old h = length-replicate n (b % 256)
length-emit (chars n s) old h =
    let text = terminated n s in
    let short = length-terminated n s in
    length-append text (take (n - length text) (drop (length text) old))
    ∙ rw (length-take (n - length text) (drop (length text) old), length-drop (length text) old)
        (omega arith)
length-emit (buffer bs) old h = refl

-- Writing what is there already changes nothing.
splice-take : (p n : ℕ) (xs : List ℕ) → p + n ≤ length xs → splice p (take n (drop p xs)) xs ≡ xs
splice-take p n xs h =
    let e : p + length (take n (drop p xs)) ≡ p + n =
      rw (length-take n (drop p xs), length-drop p xs) (omega arith) in
    rw (e, sym (drop-drop n p xs), take-append-drop n (drop p xs), take-append-drop p xs)

-- A shorter text written where `n` bytes are passed over.
splice-short :
    (p n : ℕ) (bs xs : List ℕ)
    → length bs ≤ n
    → p + n ≤ length xs
    → splice p bs xs ≡ splice p (bs ++ take (n - length bs) (drop (length bs) (drop p xs))) xs
splice-short p n bs xs k h =
    let k' = n - length bs in
    let old = drop (length bs) (drop p xs) in
    let same : old ≡ drop (p + length bs) (splice p bs xs) =
      drop-drop (length bs) p xs ∙ sym (drop-splice p bs xs (omega arith)) in
    let size : length (take k' old) ≡ k' =
      rw (length-take k' old, length-drop (length bs) (drop p xs), length-drop p xs)
        (omega arith) in
    sym (
      splice-take (p + length bs) k' (splice p bs xs)
        (rw (length-splice p bs xs (omega arith)) (omega arith)))
    ∙ ap (λ t. splice (p + length bs) (take k' t) (splice p bs xs)) (sym same)
    ∙ sym (splice-append p bs (take k' old) xs (omega arith))

-- The cursor goes `n` bytes ahead and `bs` is stored where it stood.
store_after :
    {a : Aligned} (n : ℕ) (bs : List ℕ)
    → IsValid a
    → length bs ≤ n
    → a.cursor + n ≤ a.length_
    → (advance n >>= λ c. store_from c 0 bs) a
      ≡ ok tt (record a { cursor = a.cursor + n; buffer = splice a.cursor bs a.buffer })
store_after {a} n bs v k h =
    let moved = record a { cursor = a.cursor + n } in
    rw (◌>>=◌, advance_lem n v h)
      (store_from_lem moved a.cursor 0 bs (omega arith) (omega arith)
        ∙ ap (λ j. ok tt (record moved { buffer = splice j bs a.buffer })) (omega arith))

-- The same state, with the bytes behind `bs` written as they were.
written-short :
    {a : Aligned} (n : ℕ) (bs : List ℕ)
    → IsValid a
    → length bs ≤ n
    → a.cursor + n ≤ a.length_
    → let all = bs ++ take (n - length bs) (drop (length bs) (drop a.cursor a.buffer)) in
      ok tt (record a { cursor = a.cursor + n; buffer = splice a.cursor bs a.buffer })
      ≡ ok tt (written a all)
written-short {a} n bs v k h =
    let old = drop (length bs) (drop a.cursor a.buffer) in
    let size : n ≡ length (bs ++ take (n - length bs) old) = sym (
      length-append bs (take (n - length bs) old)
      ∙ rw
          (
            length-take (n - length bs) old,
            length-drop (length bs) (drop a.cursor a.buffer),
            length-drop a.cursor a.buffer,
          )
          (omega arith)) in
    ap (λ t. ok tt (record a { cursor = a.cursor + n; buffer = t }))
      (splice-short a.cursor n bs a.buffer k (omega arith))
    ∙ ap
        (λ m. ok tt (record a {
          cursor = a.cursor + m;
          buffer = splice a.cursor (bs ++ take (n - length bs) old) a.buffer;
        }))
        size

-- A run of one byte.
store_run :
    {a : Aligned} (n b : ℕ)
    → IsValid a
    → a.cursor + n ≤ a.length_
    → (advance n >>= λ c. store_from c 0 (replicate n b)) a ≡ ok tt (written a (replicate n b))
store_run {a} n b v h =
    let size = length-replicate n b in
    store_after n (replicate n b) v (omega arith) h
    ∙ ap
        (λ m.
          ok tt
            (record a { cursor = a.cursor + m; buffer = splice a.cursor (replicate n b) a.buffer }))
        (sym size)

pub write_plain_lem :
    {a : Aligned} (p : Plain)
    → IsValid a
    → a.cursor + width p ≤ a.length_
    → write_plain p a ≡ ok tt (written a (emit p (drop a.cursor a.buffer)))
unfolding write_plain write_zeroes write_memset write_snprintf_full_advance
write_plain_lem {a} (uint8 v) i h = write_uint8_lem (v % 256) i (omega arith) h
write_plain_lem {a} (uint16 v) i h =
    ap (λ m. m a) (write_uint16-eq v) ∙ write_buffer_lem (le_bytes 2 v) i h
write_plain_lem {a} (uint32 v) i h =
    ap (λ m. m a) (write_uint32-eq v) ∙ write_buffer_lem (le_bytes 4 v) i h
write_plain_lem {a} (skip n) i h =
    rw (◌>>=◌, advance_lem n i h)
      (ap (λ t. ok tt (record a { cursor = a.cursor + n; buffer = t }))
          (sym (splice-nil a.cursor a.buffer))
        ∙ written-short n [] i (omega arith) h
        ∙ ap (λ m. ok tt (written a (take m (drop a.cursor a.buffer)))) (omega arith))
write_plain_lem {a} (zeroes n) i h = store_run n 0 i h
write_plain_lem {a} (fill b n) i h = store_run n (b % 256) i h
write_plain_lem {a} (chars n s) i h =
    let short = length-terminated n s in
    store_after n (terminated n s) i short h ∙ written-short n (terminated n s) i short h
write_plain_lem {a} (buffer bs) i h = write_buffer_lem bs i h

pub length-overlay :
    (ps : List Plain) (old : List ℕ) → total ps ≤ length old → length (overlay ps old) ≡ total ps
length-overlay [] old h = refl
length-overlay (p ∷ ps) old h =
    let rest =
      length-overlay ps (drop (width p) old) (rw (length-drop (width p) old) (omega arith)) in
    length-append (emit p old) (overlay ps (drop (width p) old))
    ∙ rw (length-emit p old (omega arith), rest) refl

written-append :
    (a : Aligned) (bs cs : List ℕ)
    → a.cursor + length bs + length cs ≤ length a.buffer
    → written (written a bs) cs ≡ written a (bs ++ cs)
written-append a bs cs h =
    let far : a.cursor + length bs + length cs ≡ a.cursor + length (bs ++ cs) =
      omega (arith, length-append bs cs) in
    ap
      (λ m. record a {
        cursor = m;
        buffer = splice (a.cursor + length bs) cs (splice a.cursor bs a.buffer);
      })
      far
    ∙ ap (λ t. record a { cursor = a.cursor + length (bs ++ cs); buffer = t })
        (sym (splice-append a.cursor bs cs a.buffer h))

-- The calls one after another: none throws where all have room, and together they leave their bytes.
pub write_plains_lem :
    (ps : List Plain) {a : Aligned}
    → IsValid a
    → a.cursor + total ps ≤ a.length_
    → write_plains ps a ≡ ok tt (written a (overlay ps (drop a.cursor a.buffer)))
unfolding write_plains
write_plains_lem [] {a} v h =
    let still : a.cursor ≡ a.cursor + 0 = omega arith in rw (splice-nil, ← still)
write_plains_lem (p ∷ ps) {a} v h =
    let old = drop a.cursor a.buffer in
    let bs = emit p old in
    let size : length bs ≡ width p =
      length-emit p old (rw (length-drop a.cursor a.buffer) (omega arith)) in
    let b = written a bs in
    let rest = overlay ps (drop (width p) old) in
    let next : drop (a.cursor + length bs) (splice a.cursor bs a.buffer) ≡ drop (width p) old =
      drop-splice a.cursor bs a.buffer (omega arith)
      ∙ sym (drop-drop (length bs) a.cursor a.buffer)
      ∙ ap (λ m. drop m old) size in
    let tail = write_plains_lem ps {a = b} (written-IsValid bs v (omega arith)) (omega arith) in
    let long : length rest ≡ total ps =
      length-overlay ps (drop (width p) old)
        (rw (length-drop (width p) old, length-drop a.cursor a.buffer) (omega arith)) in
    rw (◌>>=◌, write_plain_lem p v (omega arith))
      (tail
        ∙ ap (λ t. ok tt (written b (overlay ps t))) next
        ∙ ap (ok tt) (written-append a bs rest (omega arith)))
