-- ===== src/Packets/Parts/Laws.antt =====
-- Writing ahead does not throw where there is room, and the cursor comes back.
use eqp.Common.{
  ℕ, ◌+◌, ◌-◌, ◌*◌, ◌%◌, ◌≤◌, ◌≡◌, refl, sym, ap, subst, ◌∙◌, Bool, true, false, ◌&&◌, not, List,
  [], ◌∷◌, map, length, replicate, length-replicate, leb, ◌==◌, arith, both-true, Bool-cases, inl,
  inr, length-splice, splice, drop, length-drop,
}
use eqp.Aligned.Defs.{Aligned, ok, ◌>>=◌}
use eqp.Aligned.Bytes.{IsValid, advance_lem, store_from_lem}
use eqp.Aligned.RoundTrip.{written, written-IsValid}
use eqp.Packets.Plain.{
  Plain, total, write_plains, overlay, length-overlay, write_plains_lem, emit, length-emit,
  write_plain_lem,
}
use eqp.Packets.Parts.{
  Slot, Part, plain, fill_ahead, ahead, ids, charges, spells, is_picked, picked, in_book, id_of,
  charges_of, reset_to, scatter, write_part, write_parts, moves, stays, all_stay,
}

-- The writer went `n` bytes ahead in the same memory.
pub record Went (a b : Aligned) (n : ℕ) : Type 0 where
  pub moved : b.cursor ≡ a.cursor + n
  pub same_length : b.length_ ≡ a.length_
  pub valid : IsValid b

plains-Went :
    (ps : List Plain) {a : Aligned}
    → IsValid a
    → a.cursor + total ps ≤ a.length_
    → (b : Aligned) × (write_plains ps a ≡ ok tt b) × Went a b (total ps)
plains-Went ps {a} v h =
    let old = drop a.cursor a.buffer in
    let long = length-overlay ps old (rw (length-drop a.cursor a.buffer) (omega arith)) in
    (
      written a (overlay ps old),
      write_plains_lem ps v h,
      record {
        moved = omega arith;
        same_length = refl;
        valid = written-IsValid (overlay ps old) v (omega arith);
      },
    )

-- Every entry has room.
abbrev Rooms : ℕ → ℕ → ℕ → List (ℕ × List Plain) → Type 0
Rooms size c stride [] = Unit {0}
Rooms size c stride ((i, ps) ∷ es) = (c + stride * i + total ps ≤ size) × Rooms size c stride es

scatter-Went :
    (stride : ℕ) (es : List (ℕ × List Plain)) {a : Aligned}
    → IsValid a
    → Rooms a.length_ a.cursor stride es
    → (b : Aligned) × (scatter a.cursor stride es a ≡ ok tt b) × Went a b 0
unfolding scatter reset_to
scatter-Went stride [] {a} v h =
    (a, refl, record { moved = omega arith; same_length = refl; valid = v })
scatter-Went stride ((i, ps) ∷ es) {a} v (room, rooms) =
    let there = record a { cursor = a.cursor + stride * i } in
    let valid : IsValid there = record {
      within = omega arith;
      backed = omega arith;
      small = omega arith;
    } in
    let (b, wrote, went) = plains-Went ps {a = there} valid room in
    let back = record b { cursor = a.cursor } in
    let size = went.same_length in
    let held = went.valid in
    let again : IsValid back = record {
      within = omega arith;
      backed = omega arith;
      small = omega arith;
    } in
    let (d, rest, went_on) =
      scatter-Went stride es {a = back} again
        (subst (λ n. Rooms n a.cursor stride es) (sym size) rooms) in
    (
      d,
      rw (◌>>=◌, advance_lem (stride * i) v (omega arith), wrote, rest) refl,
      record {
        moved = went_on.moved;
        same_length = went_on.same_length ∙ size;
        valid = went_on.valid;
      },
    )

first_two : (a b c d : Bool) → (a && b && c && d) ≡ true → (a ≡ true) × (b ≡ true)
first_two true true c d h = (refl, refl)
first_two true false c d h = absurd (cc)
first_two false b c d h = absurd (cc)

picked-Rooms_ids :
    (from to c size : ℕ) (slots : List Slot)
    → c + 2 * (to - from) + 2 ≤ size
    → Rooms size c 2 (map (id_of from) (picked from to slots))
picked-Rooms_ids from to c size [] h = tt
picked-Rooms_ids from to c size (s ∷ ss) h = elim (Bool-cases (is_picked from to s)) [
  | inl yes_ ↦
      let (low, high) =
        first_two (leb from s.slot_id) (leb s.slot_id to) (not (s.item_id == 0))
          (s.aug_slot_id == 0) yes_ in
      rw yes_ (ground arith, picked-Rooms_ids from to c size ss h)
  | inr no_ ↦ rw no_ (picked-Rooms_ids from to c size ss h)
]

picked-Rooms_charges :
    (from to c size : ℕ) (slots : List Slot)
    → c + 10 * (to - from) + 3 ≤ size
    → Rooms size c 10 (map (charges_of from) (picked from to slots))
picked-Rooms_charges from to c size [] h = tt
picked-Rooms_charges from to c size (s ∷ ss) h = elim (Bool-cases (is_picked from to s)) [
  | inl yes_ ↦
      let (low, high) =
        first_two (leb from s.slot_id) (leb s.slot_id to) (not (s.item_id == 0))
          (s.aug_slot_id == 0) yes_ in
      rw yes_ (ground arith, picked-Rooms_charges from to c size ss h)
  | inr no_ ↦ rw no_ (picked-Rooms_charges from to c size ss h)
]

in_book-Rooms :
    (n c size : ℕ) (entries : List (ℕ × ℕ)) → c + 2 * n ≤ size → Rooms size c 2 (in_book n entries)
in_book-Rooms n c size [] h = tt
in_book-Rooms n c size ((place, spell_id) ∷ es) h = elim (Bool-cases (leb n place)) [
  | inl beyond ↦ rw beyond (in_book-Rooms n c size es h)
  | inr inside ↦ rw inside (ground arith, in_book-Rooms n c size es h)
]

part-Went :
    (p : Part) {a : Aligned}
    → IsValid a
    → a.cursor + total (moves (p ∷ [])) ≤ a.length_
    → stays a.length_ a.cursor p ≡ true
    → (b : Aligned) × (write_part p a ≡ ok tt b) × Went a b (total (moves (p ∷ [])))
unfolding write_part reset_to
part-Went (plain p) {a} v h k =
    let old = drop a.cursor a.buffer in
    let size = length-emit p old (rw (length-drop a.cursor a.buffer) (omega arith)) in
    (
      written a (emit p old),
      write_plain_lem p v (omega arith),
      record {
        moved = omega arith;
        same_length = refl;
        valid = written-IsValid (emit p old) v (omega arith);
      },
    )
part-Went (fill_ahead b n) {a} v h k =
    let run = replicate n (b % 256) in
    let inside : a.cursor + n ≤ a.length_ = ground arith in
    let size : length run ≡ n = length-replicate n (b % 256) in
    let long = length-splice (a.cursor + 0) run a.buffer (omega arith) in
    (
      record a { buffer = splice (a.cursor + 0) run a.buffer },
      store_from_lem a a.cursor 0 run (omega arith) (omega arith),
      record {
        moved = omega arith;
        same_length = refl;
        valid = record { within = v.within; backed = omega arith; small = omega arith };
      },
    )
part-Went (ahead ps) {a} v h k =
    let (b, wrote, went) = plains-Went ps {a = a} v (ground arith) in
    let size = went.same_length in
    let held = went.valid in
    (
      record b { cursor = a.cursor },
      rw (◌>>=◌, wrote) refl,
      record {
        moved = omega arith;
        same_length = size;
        valid = record { within = omega arith; backed = omega arith; small = omega arith };
      },
    )
part-Went (ids from to slots) {a} v h k =
    scatter-Went 2 _ {a = a} v (picked-Rooms_ids from to a.cursor a.length_ slots (ground arith))
part-Went (charges from to slots) {a} v h k =
    scatter-Went 10 _ {a = a} v
      (picked-Rooms_charges from to a.cursor a.length_ slots (ground arith))
part-Went (spells n entries) {a} v h k =
    scatter-Went 2 _ {a = a} v (in_book-Rooms n a.cursor a.length_ entries (ground arith))

moves_cons :
    (p : Part) (ps : List Part) → total (moves (p ∷ ps)) ≡ total (moves (p ∷ [])) + total (moves ps)
moves_cons (plain p) ps = omega arith
moves_cons (fill_ahead b n) ps = omega arith
moves_cons (ahead qs) ps = omega arith
moves_cons (ids from to slots) ps = omega arith
moves_cons (charges from to slots) ps = omega arith
moves_cons (spells n entries) ps = omega arith

-- Parts that all stay inside the memory are written without an error, and the cursor is then behind
-- those that move it.
pub parts-Went :
    (ps : List Part) {a : Aligned}
    → IsValid a
    → a.cursor + total (moves ps) ≤ a.length_
    → all_stay a.length_ a.cursor ps ≡ true
    → (b : Aligned) × (write_parts ps a ≡ ok tt b) × Went a b (total (moves ps))
unfolding write_parts
parts-Went [] {a} v h k = (a, refl, record { moved = omega arith; same_length = refl; valid = v })
parts-Went (p ∷ ps) {a} v h k =
    let sum = moves_cons p ps in
    let (here, later) = both-true (stays a.length_ a.cursor p) _ k in
    let (b, wrote, went) = part-Went p {a = a} v (omega arith) here in
    let at = went.moved in
    let size = went.same_length in
    let (d, rest, went_on) =
      parts-Went ps {a = b} went.valid (omega arith)
        (ap (λ n. all_stay n b.cursor ps) size ∙ ap (λ c. all_stay a.length_ c ps) at ∙ later) in
    let at_end = went_on.moved in
    (
      d,
      rw (◌>>=◌, wrote, rest) refl,
      record {
        moved = omega arith;
        same_length = went_on.same_length ∙ size;
        valid = went_on.valid;
      },
    )
