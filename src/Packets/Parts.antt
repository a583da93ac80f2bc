-- ===== src/Packets/Parts.antt =====
-- The calls of the `Aligned` writer that go back after writing ahead (src/common/aligned.h):
-- `aligned_write_memset_no_advance`, and loops that end with `aligned_reset_to`.
pub mod Laws
use eqp.Common.{
  ℕ, zero, suc, ◌+◌, ◌-◌, ◌*◌, ◌%◌, ◌^◌, ◌≤◌, ◌<◌, ◌≡◌, refl, sym, ap, ◌∙◌, Bool, true, false, ◌&&◌,
  not, List, [], ◌∷◌, ◌++◌, map, length, replicate, length-replicate, leb, ◌==◌, if◌then◌else◌,
  arith, both-true, Bool-cases, inl, inr, length-splice, drop, length-drop,
}
use eqp.Aligned.Defs.{Aligned, ok, M, ◌>>=◌, pure, advance, store_from}
use eqp.Aligned.Bytes.{IsValid, advance_lem, store_from_lem}
use eqp.Aligned.RoundTrip.{written, written-IsValid}
use eqp.Packets.Plain.{
  Plain, uint8, uint16, skip, total, write_plain, write_plains, overlay, length-overlay,
  write_plains_lem,
}
use eqp.Packets.Struct.{Steps}

-- Of `InventorySlot` what is read.
pub record Slot : Type 0 where
  pub slot_id : ℕ
  pub item_id : ℕ
  pub aug_slot_id : ℕ
  pub charges : ℕ

-- A call, a run of one byte ahead of the cursor, writes after which the cursor is reset, and the three
-- loops: over the slots from one to another, of which the item's number or its charges are written,
-- and over the spells of a book with so many places.
pub data Part : Type 0 where
  plain : Plain → Part
  fill_ahead : ℕ → ℕ → Part
  ahead : List Plain → Part
  ids charges : (from to : ℕ) → List Slot → Part
  spells : ℕ → List (ℕ × ℕ) → Part

-- `inventory_iterate_no_augs`
abbrev pub is_picked : (from to : ℕ) → Slot → Bool
is_picked from to s =
    leb from s.slot_id && leb s.slot_id to && not (s.item_id == 0) && s.aug_slot_id == 0

abbrev pub picked : (from to : ℕ) → List Slot → List Slot
picked from to [] = []
picked from to (s ∷ ss) =
    let rest = picked from to ss in if is_picked from to s then s ∷ rest else rest

abbrev pub in_book : ℕ → List (ℕ × ℕ) → List (ℕ × List Plain)
in_book n [] = []
in_book n ((place, spell_id) ∷ ss) =
    let rest = in_book n ss in if leb n place then rest else (place, uint16 spell_id ∷ []) ∷ rest

abbrev pub id_of : ℕ → Slot → ℕ × List Plain
id_of from s = (s.slot_id - from, uint16 s.item_id ∷ [])

-- Within a `Trilogy_PPItem`, of ten bytes.
abbrev pub charges_of : ℕ → Slot → ℕ × List Plain
charges_of from s = (s.slot_id - from, skip 2 ∷ uint8 s.charges ∷ [])

-- `aligned_reset_to`
unfoldable pub reset_to : ℕ → M (Unit {0})
reset_to c a = ok tt (record a { cursor = c })

unfoldable pub scatter : (reset stride : ℕ) → List (ℕ × List Plain) → M (Unit {0})
scatter reset stride [] = pure tt
scatter reset stride ((i, ps) ∷ es) = advance (stride * i) >>= λ _.
    write_plains ps >>= λ _. reset_to reset >>= λ _. scatter reset stride es

unfoldable pub write_part : Part → M (Unit {0})
write_part (plain p) a = write_plain p a
write_part (fill_ahead b n) a = store_from a.cursor 0 (replicate n (b % 256)) a
write_part (ahead ps) a = (write_plains ps >>= λ _. reset_to a.cursor) a
write_part (ids from to slots) a = scatter a.cursor 2 (map (id_of from) (picked from to slots)) a
write_part (charges from to slots) a =
    scatter a.cursor 10 (map (charges_of from) (picked from to slots)) a
write_part (spells n entries) a = scatter a.cursor 2 (in_book n entries) a

unfoldable pub write_parts : List Part → M (Unit {0})
write_parts [] = pure tt
write_parts (p ∷ ps) = write_part p >>= λ _. write_parts ps

-- What moves the cursor for good.
abbrev pub moves : List Part → List Plain
moves [] = []
moves (plain p ∷ ps) = p ∷ moves ps
moves (_ ∷ ps) = moves ps

-- The part stays below `size` when it begins at `c`.
abbrev pub stays : ℕ → ℕ → Part → Bool
stays size c (plain p) = true
stays size c (fill_ahead b n) = leb (c + n) size
stays size c (ahead ps) = leb (c + total ps) size
stays size c (ids from to slots) = leb (c + 2 * (to - from) + 2) size
stays size c (charges from to slots) = leb (c + 10 * (to - from) + 3) size
stays size c (spells n entries) = leb (c + 2 * n) size

abbrev pub all_stay : ℕ → ℕ → List Part → Bool
all_stay size c [] = true
all_stay size c (p ∷ ps) = stays size c p && all_stay size (c + total (moves (p ∷ []))) ps
