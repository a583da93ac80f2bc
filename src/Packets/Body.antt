-- ===== src/Packets/Body.antt =====
-- A body written over the memory of its new packet, cleared or not.
use eqp.Common.{
  ℕ, ◌+◌, ◌<◌, ◌≡◌, refl, sym, ap, ◌∙◌, Bool, true, false, ◌&&◌, List, [], ◌∷◌, ◌++◌, length, arith,
  replicate, drop, length-append, length-replicate, length-drop, drop_all, both-true, ◌^◌,
}
use eqp.Aligned.Defs.{Aligned, ok}
use eqp.Aligned.Bytes.{IsValid}
use eqp.Aligned.RoundTrip.{written}
use eqp.Packets.Plain.{
  Plain, uint8, uint16, uint32, skip, zeroes, fill, chars, buffer, width, emit, total, write_plains,
  overlay, length-overlay, write_plains_lem,
}
use eqp.Packets.Struct.{Fields, Steps, sizeof, writes, lands, start, zero_all, lands-fits}

-- Whether the packet is cleared first.
abbrev pub prepare : Bool → ℕ → List ℕ → Aligned
prepare true size fresh = zero_all size fresh
prepare false size fresh = start size fresh

pub prepare-IsValid :
    (cleared : Bool) (size : ℕ) (fresh : List ℕ)
    → length fresh ≡ size
    → size < 2 ^ 31
    → IsValid (prepare cleared size fresh)
prepare-IsValid true size fresh h k =
    let whole : length (replicate size 0 ++ drop size fresh) ≡ size =
      length-append (replicate size 0) (drop size fresh)
      ∙ rw (length-replicate {A = ℕ} size 0, length-drop size fresh) (omega arith) in
    record { within = omega arith; backed = omega arith; small = omega arith }
prepare-IsValid false size fresh h k = record {
  within = omega arith;
  backed = omega arith;
  small = omega arith;
}

-- A body that lands on its fields is written without an error.
pub write_steps_lem :
    (fs : Fields) (ss : Steps) (cleared : Bool) (fresh : List ℕ)
    → lands fs ss ≡ true
    → length fresh ≡ sizeof fs
    → sizeof fs < 2 ^ 31
    → let a = prepare cleared (sizeof fs) fresh in
      write_plains (writes ss) a ≡ ok tt (written a (overlay (writes ss) a.buffer))
write_steps_lem fs ss true fresh l h k =
    let fits = lands-fits fs ss l in
    write_plains_lem (writes ss) {a = zero_all (sizeof fs) fresh}
      (prepare-IsValid true (sizeof fs) fresh h k) (omega arith)
write_steps_lem fs ss false fresh l h k =
    let fits = lands-fits fs ss l in
    write_plains_lem (writes ss) {a = start (sizeof fs) fresh}
      (prepare-IsValid false (sizeof fs) fresh h k) (omega arith)

-- The calls that write every byte that they pass.
abbrev is_full : Plain → Bool
is_full (uint8 v) = true
is_full (uint16 v) = true
is_full (uint32 v) = true
is_full (skip n) = false
is_full (zeroes n) = true
is_full (fill b n) = true
is_full (chars n s) = false
is_full (buffer bs) = true

abbrev pub are_full : List Plain → Bool
are_full [] = true
are_full (p ∷ ps) = is_full p && are_full ps

full-emit : (p : Plain) (m n : List ℕ) → is_full p ≡ true → emit p m ≡ emit p n
full-emit (uint8 v) m n h = refl
full-emit (uint16 v) m n h = refl
full-emit (uint32 v) m n h = refl
full-emit (skip k) m n h = absurd (cc)
full-emit (zeroes k) m n h = refl
full-emit (fill b k) m n h = refl
full-emit (chars k s) m n h = absurd (cc)
full-emit (buffer bs) m n h = refl

full-overlay : (ps : List Plain) (m n : List ℕ) → are_full ps ≡ true → overlay ps m ≡ overlay ps n
full-overlay [] m n h = refl
full-overlay (p ∷ ps) m n h =
    let (x, y) = both-true (is_full p) (are_full ps) h in
    ap (λ bs. bs ++ overlay ps (drop (width p) m)) (full-emit p m n x)
    ∙ ap (λ bs. emit p n ++ bs) (full-overlay ps (drop (width p) m) (drop (width p) n) y)

-- What is written over all of a packet does not depend on what was there.
pub full-memory :
    (ps : List Plain) (size : ℕ) (m n : List ℕ)
    → are_full ps ≡ true
    → total ps ≡ size
    → length m ≡ size
    → length n ≡ size
    → written (start size m) (overlay ps m) ≡ written (start size n) (overlay ps n)
full-memory ps size m n f t h k =
    covered ps size m h t ∙ ap whole (full-overlay ps m n f) ∙ sym (covered ps size n k t)
  where
    whole : List ℕ → Aligned
    whole bs = record { cursor = size; length_ = size; buffer = bs ++ [] }

    covered :
        (ps : List Plain) (size : ℕ) (m : List ℕ)
        → length m ≡ size
        → total ps ≡ size
        → written (start size m) (overlay ps m)
          ≡ record { cursor = size; length_ = size; buffer = overlay ps m ++ [] }
    covered ps size m h t =
        let long = length-overlay ps m (omega arith) in
        let end_ : 0 + length (overlay ps m) ≡ size = omega arith in
        ap (λ c. record { cursor = c; length_ = size; buffer = overlay ps m ++ drop c m }) end_
        ∙ ap (λ t. record { cursor = size; length_ = size; buffer = overlay ps m ++ t })
            (drop_all size m (omega arith))
