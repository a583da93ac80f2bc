-- ===== src/Packets/Struct.antt =====
-- Packed structures, as their fields in order, and the check that a body's writes land on them.
use Prim.Native.String.{String}
use text.Mathlib.Text
use eqp.Common.{
  ℕ, ◌+◌, ◌≡◌, Bool, true, false, ◌&&◌, ◌||◌, Option, none, some, List, [], ◌∷◌, ◌++◌, ◌==◌,
  if◌then◌else◌, replicate, drop, Bool-cases, inl, inr, arith, ◌≤◌, both-true,
}
use eqp.Aligned.Defs.{Aligned}
use eqp.Packets.Plain.{Plain, total, total-append}

-- The name and the size of every field; `#pragma pack(1)` leaves no gaps.
abbrev pub Fields : Type 0
Fields = List (String × ℕ)

abbrev pub sizeof : Fields → ℕ
sizeof [] = 0
sizeof ((name, size) ∷ fs) = size + sizeof fs

-- `sizeof_field`
abbrev pub sizeof_field : Fields → String → ℕ
sizeof_field [] field = 0
sizeof_field ((name, size) ∷ fs) field =
    let rest = sizeof_field fs field in if Text.◌==◌ name field then size else rest

-- Where the field of that name begins.
abbrev pub offset_from : ℕ → Fields → String → Option ℕ
offset_from n [] field = none
offset_from n ((name, size) ∷ fs) field =
    let rest = offset_from (n + size) fs field in if Text.◌==◌ name field then some n else rest

abbrev pub is_at : Option ℕ → ℕ → Bool
is_at none n = false
is_at (some m) n = m == n

-- Whether a field ends there.
abbrev pub ends_from : ℕ → Fields → ℕ → Bool
ends_from n [] at = false
ends_from n ((name, size) ∷ fs) at = n + size == at || ends_from (n + size) fs at

-- The writes of a body, grouped by the field that each group begins with.
abbrev pub Steps : Type 0
Steps = List (String × List Plain)

abbrev pub writes : Steps → List Plain
writes [] = []
writes ((name, ps) ∷ ss) = ps ++ writes ss

-- Every group begins where its field does, and the last ends where a field does.
abbrev pub lands_from : Fields → ℕ → Steps → Bool
lands_from fs at [] = ends_from 0 fs at
lands_from fs at ((name, ps) ∷ ss) =
    is_at (offset_from 0 fs name) at && lands_from fs (at + total ps) ss

abbrev pub lands : Fields → Steps → Bool
lands fs ss = lands_from fs 0 ss

-- `aligned_init` over the memory of a new packet.
abbrev pub start : ℕ → List ℕ → Aligned
start size fresh = record { cursor = 0; length_ = size; buffer = fresh }

-- `aligned_init`, then `aligned_write_zero_all`.
abbrev pub zero_all : ℕ → List ℕ → Aligned
zero_all size fresh = record {
  cursor = 0;
  length_ = size;
  buffer = replicate size 0 ++ drop size fresh;
}

ends_from-within : (n : ℕ) (fs : Fields) (at : ℕ) → ends_from n fs at ≡ true → at ≤ n + sizeof fs
ends_from-within n [] at h = absurd (cc)
ends_from-within n ((name, size) ∷ fs) at h = elim (Bool-cases (n + size == at)) [
  | inl here ↦ ground arith
  | inr later ↦ let deeper = ends_from-within (n + size) fs at (cc) in omega (arith, deeper)
]

lands_from-fits :
    (fs : Fields) (at : ℕ) (ss : Steps)
    → lands_from fs at ss ≡ true
    → at + total (writes ss) ≤ sizeof fs
lands_from-fits fs at [] h = let within = ends_from-within 0 fs at h in omega arith
lands_from-fits fs at ((name, ps) ∷ ss) h =
    let deeper : lands_from fs (at + total ps) ss ≡ true =
      (both-true (is_at (offset_from 0 fs name) at) (lands_from fs (at + total ps) ss) h).1 in
    let rest = lands_from-fits fs (at + total ps) ss deeper in
    omega (arith, total-append ps (writes ss))

-- A body that lands on its fields is not longer than the structure.
pub lands-fits : (fs : Fields) (ss : Steps) → lands fs ss ≡ true → total (writes ss) ≤ sizeof fs
lands-fits fs ss h = let fits = lands_from-fits fs 0 ss h in omega arith
