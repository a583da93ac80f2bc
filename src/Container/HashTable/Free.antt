-- ===== src/Container/HashTable/Free.antt =====
-- The free index of src/common/container/eqp_hash_table.c: what is known of the empty slots.
use eqp.Common.{
  ℕ, zero, suc, ◌+◌, ◌-◌, ◌≤◌, ◌<◌, ◌≡◌, ◌⊎◌, refl, sym, ap, subst, ◌∙◌, Bool, true, false, some,
  ◌==◌, if◌then◌else◌, arith, inl, inr, Bool-cases, ltb,
}
use eqp.Container.HashTable.{HashTable, invalid, is_null, advance_free_index, skip_taken}
use eqp.Container.HashTable.Seg.{Memory}
use eqp.Container.HashTable.Loops.{next_null_lem}

-- The index is that of an empty slot, or none. An empty slot before it is one of a hash of its own.
pub record IsFree (c : ℕ) (home : ℕ → ℕ) (E : Memory) (n : ℕ) : Type 0 where
  pub empty : (n ≡ invalid) ⊎ ((n < c) × (is_null (E n).key ≡ true))
  pub lost : (s : ℕ) → s < c → is_null (E s).key ≡ true → s < n → home (E s).hash ≡ s

-- What is empty in `F` is of a hash of its own, or as in `E`.
abbrev pub Fills : (ℕ → ℕ) → Memory → Memory → Type 0
Fills home E F =
    (s : ℕ)
    → is_null (F s).key ≡ true
    → (home (F s).hash ≡ s) ⊎ ((is_null (E s).key ≡ true) × ((F s).hash ≡ (E s).hash))

pub three_ways : (s n : ℕ) → (s < n) ⊎ ((s ≡ n) ⊎ (n < s))
three_ways s n = elim (Bool-cases (ltb s n)) [
  | inl a ↦ inl (ground arith)
  | inr a ↦ elim (Bool-cases (s == n)) [
    | inl b ↦ inr (inl (ground arith))
    | inr b ↦ inr (inr (ground arith))
  ]
]

module _ (c : ℕ) (home : ℕ → ℕ) (E F : Memory) (n : ℕ) (free : IsFree c home E n)
    (fills : Fills home E F) where
  below_lost : (s : ℕ) → s < c → is_null (F s).key ≡ true → s < n → home (F s).hash ≡ s
  below_lost s b m l = elim (fills s m) [
    | inl own ↦ own
    | inr (me, he) ↦ ap home he ∙ free.lost s b me l
  ]

  -- Another slot was filled.
  pub stays-IsFree : (n ≡ invalid) ⊎ (is_null (F n).key ≡ true) → IsFree c home F n
  stays-IsFree still = record {
    empty = elim still [
      | inl e ↦ inl e
      | inr m ↦ elim free.empty [ inl e ↦ inl e | inr (b, _) ↦ inr (b, m) ]
    ];
    lost = below_lost;
  }

  -- The slot itself was filled, and no empty one stands before `j`.
  pub next-IsFree :
      (j : ℕ)
      → (is_null (F n).key ≡ true → home (F n).hash ≡ n)
      → (j ≡ invalid) ⊎ ((j < c) × (is_null (F j).key ≡ true))
      → ((s : ℕ) → n < s → s < c → s < j → is_null (F s).key ≡ false)
      → IsFree c home F j
  next-IsFree j taken at between = record {
    empty = at;
    lost = λ s b m l. elim (three_ways s n) [
      | inl low ↦ below_lost s b m low
      | inr (inl same) ↦
          subst (λ y. home (F y).hash ≡ y) (sym same)
            (taken (subst (λ y. is_null (F y).key ≡ true) same m))
      | inr (inr high) ↦ absurd (let z = between s high b l in cc)
    ];
  }

-- Advancing in `t`, where the slots above the index are as in `F`.
pub advance_lem :
    (t : HashTable) (home : ℕ → ℕ) (E F : Memory)
    → t.free_index < t.capacity
    → t.capacity ≤ invalid
    → IsFree t.capacity home E t.free_index
    → Fills home E F
    → is_null (F t.free_index).key ≡ false
    → ((s : ℕ) → t.free_index < s → is_null (t.entries s).key ≡ is_null (F s).key)
    → (j : ℕ) × (advance_free_index t ≡ record t { free_index = j }) × IsFree t.capacity home F j
unfolding advance_free_index
advance_lem t home E F b ci free fills taken above =
    let f = t.free_index in
    elim (next_null_lem t (t.capacity - (f + 1)) (f + 1)) [
      | inl (e, all) ↦ (
        invalid,
        rw (advance_free_index, e) refl,
        next-IsFree t.capacity home E F f free fills invalid (λ m. absurd (cc)) (inl refl)
            (λ s l b2 _. sym (above s l) ∙ all s (omega arith) (omega arith)),
      )
      | inr (j, e, lo, hi, m, all) ↦ (
        j,
        rw (advance_free_index, e) refl,
        next-IsFree t.capacity home E F f free fills j (λ m. absurd (cc))
            (inr (omega arith, sym (above j (omega arith)) ∙ m))
            (λ s l b2 l2. sym (above s l) ∙ all s (omega arith) l2),
      )
    ]

-- How many of `left` slots from `i` on are empty.
abbrev pub empties : (left i : ℕ) → Memory → ℕ
empties zero i E = 0
empties (suc left) i E = (if is_null (E i).key then 1 else 0) + empties left (i + 1) E

pub empties_all :
    (left i : ℕ) (E : Memory) → ((s : ℕ) → is_null (E s).key ≡ true) → empties left i E ≡ left
empties_all zero i E all = refl
empties_all (suc left) i E all = rw (all i, empties_all left (i + 1) E all) (omega arith)

pub empties_taken :
    (left i : ℕ) (E : Memory)
    → ((s : ℕ) → i ≤ s → s < i + left → is_null (E s).key ≡ false)
    → empties left i E ≡ 0
empties_taken zero i E all = refl
empties_taken (suc left) i E all =
    rw
      (
        all i (omega arith) (omega arith),
        empties_taken left (i + 1) E (λ s a b. all s (omega arith) (omega arith)),
      )
      refl

-- The empty slots up to the first one.
pub empties_next :
    (left i j : ℕ) (E : Memory)
    → i ≤ j
    → j < i + left
    → ((s : ℕ) → i ≤ s → s < j → is_null (E s).key ≡ false)
    → empties left i E ≤ 1 + empties (i + left - (j + 1)) (j + 1) E
empties_next zero i j E a b all = absurd (omega arith)
empties_next (suc left) i j E a b all = elim (Bool-cases (i == j)) [
  | inl e ↦
      let same : i ≡ j = ground arith in
      let size : left ≡ i + suc left - (j + 1) = omega arith in
      let here : empties left (i + 1) E ≡ empties (i + suc left - (j + 1)) (j + 1) E =
        ap (λ y. empties left (y + 1) E) same ∙ ap (λ y. empties y (j + 1) E) size in
      elim (Bool-cases (is_null (E i).key)) [
        | inl m ↦ rw m (omega (arith, here))
        | inr m ↦ rw m (omega (arith, here))
      ]
  | inr o ↦
      let deeper =
        empties_next left (i + 1) j E (ground arith) (omega arith)
          (λ s l h. all s (omega arith) h) in
      let taken = all i (omega arith) (ground arith) in
      let size : i + 1 + left - (j + 1) ≡ i + suc left - (j + 1) = omega arith in
      let count : empties (i + 1 + left - (j + 1)) (j + 1) E
          ≡ empties (i + suc left - (j + 1)) (j + 1) E =
        ap (λ y. empties y (j + 1) E) size in
      rw taken (omega (arith, deeper, count))
]

pub empties_keep :
    (left i : ℕ) (E F : Memory)
    → ((s : ℕ) → i ≤ s → is_null (E s).key ≡ true → is_null (F s).key ≡ true)
    → empties left i E ≤ empties left i F
empties_keep zero i E F keep = omega arith
empties_keep (suc left) i E F keep =
    let rest = empties_keep left (i + 1) E F (λ s l m. keep s (omega arith) m) in
    elim (Bool-cases (is_null (E i).key)) [
      | inl m ↦ let k = keep i (omega arith) m in rw (m, k) (omega arith)
      | inr m ↦ rw m (omega arith)
    ]

-- When at most one slot is filled, at most one is lost.
pub empties_fill :
    (left i p : ℕ) (E F : Memory)
    → ((s : ℕ) → (s == p) ≡ false → is_null (E s).key ≡ true → is_null (F s).key ≡ true)
    → empties left i E ≤ 1 + empties left i F
empties_fill zero i p E F keep = omega arith
empties_fill (suc left) i p E F keep = elim (Bool-cases (i == p)) [
  | inl e ↦
      let rest = empties_keep left (i + 1) E F (λ s l m. keep s (ground arith) m) in
      let bounds = (at_most (is_null (E i).key)) in omega (arith, rest, bounds)
  | inr o ↦
      let rest = empties_fill left (i + 1) p E F keep in
      elim (Bool-cases (is_null (E i).key)) [
        | inl m ↦ let k = keep i o m in rw (m, k) (omega arith)
        | inr m ↦ rw m (omega arith)
      ]
]
  where
    at_most : (b : Bool) → (if b then 1 else 0) ≤ 1
    at_most true = omega arith
    at_most false = omega arith

-- The loop at the end of `hash_table_realloc`, where some slot behind the index is empty.
pub skip_lem :
    (t : HashTable) (home : ℕ → ℕ) (E : Memory)
    → t.free_index < t.capacity
    → IsFree t.capacity home E t.free_index
    → Fills home E t.entries
    → (is_null (t.entries t.free_index).key ≡ true
        → home (t.entries t.free_index).hash ≡ t.free_index)
    → 1 ≤ empties (t.capacity - (t.free_index + 1)) (t.free_index + 1) t.entries
    → (j : ℕ) × (skip_taken t ≡ some (record t { free_index = j }))
      × (j < t.capacity)
      × (is_null (t.entries j).key ≡ true)
      × IsFree t.capacity home t.entries j
      × (empties (t.capacity - (t.free_index + 1)) (t.free_index + 1) t.entries
          ≤ 1 + empties (t.capacity - (j + 1)) (j + 1) t.entries)
unfolding skip_taken
skip_lem t home E b free fills own some_left =
    let f = t.free_index in
    let c = t.capacity in
    elim (next_null_lem t (c - (f + 1)) (f + 1)) [
      | inl (e, all) ↦
          absurd (let z = empties_taken (c - (f + 1)) (f + 1) t.entries all in omega arith)
      | inr (j, e, lo, hi, m, all) ↦
          let size : f + 1 + (c - (f + 1)) - (j + 1) ≡ c - (j + 1) = omega arith in
          let count = empties_next (c - (f + 1)) (f + 1) j t.entries lo hi all in
          (
            j,
            rw (skip_taken, e) refl,
            omega arith,
            m,
            next-IsFree c home E t.entries f free fills j own (inr (omega arith, m))
                (λ s l b2 l2. all s (omega arith) l2),
            omega (arith, count, ap (λ y. empties y (j + 1) t.entries) size),
          )
    ]
