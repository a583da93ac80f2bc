-- ===== src/Container/HashTable/Sound.antt =====
-- The invariant of a hash table, and what storing a new key comes to
-- (src/common/container/eqp_hash_table.c).
use Prim.Native.Nat.{bit_and}
use eqp.Common.{
  ℕ, ◌+◌, ◌-◌, ◌%◌, ◌^◌, ◌≤◌, ◌<◌, ◌≡◌, ◌⊎◌, ◌↔◌, sym, ap, subst, ◌∙◌, Bool, true, false, none,
  some, List, arith, inl, inr,
}
use eqp.Common.Bits.{bit_and_low}
use native.Mathlib.Nat.{one-le-pow}
use eqp.Container.HashTable.{HashTable, invalid, is_null, main_pos, calc_hash}
use eqp.Container.HashTable.Seg.{Memory, head-Seg}
use eqp.Container.HashTable.Valid.{IsAt, IsValid}
use eqp.Container.HashTable.Content.{Holds, IsKeyed, Grows, kept, split_holds, grow-IsKeyed}
use eqp.Container.HashTable.Free.{IsFree}

-- The capacity is a power of 2 of at most 2^31; chains, keys and the free index are in order.
pub record IsSound (t : HashTable) : Type 0 where
  pub size : ℕ
  pub sized : t.capacity ≡ 2 ^ size
  pub bounded : t.capacity ≤ 2 ^ 31
  pub valid : IsValid t.capacity (main_pos t) t.entries
  pub keyed : IsKeyed t.capacity t.entries
  pub free : IsFree t.capacity (main_pos t) t.entries t.free_index

abbrev pub Has : HashTable → List ℕ → List ℕ → Type 0
Has t k v = Holds t.capacity t.entries k v

pub main_pos_mod :
    (t : HashTable) (size h : ℕ)
    → t.capacity ≡ 2 ^ size
    → t.capacity ≤ 2 ^ 31
    → main_pos t h ≡ h % 2 ^ size
main_pos_mod t size h e b =
    let some_one = one-le-pow size 2 (omega arith) in
    let mask : (t.capacity + 2 ^ 32 - 1) % 2 ^ 32 ≡ 2 ^ size - 1 = omega arith in
    ap (bit_and h) mask ∙ bit_and_low size h

pub main_pos_lt :
    (t : HashTable) (size h : ℕ)
    → t.capacity ≡ 2 ^ size
    → t.capacity ≤ 2 ^ 31
    → main_pos t h < t.capacity
main_pos_lt t size h e b =
    let some_one = one-le-pow size 2 (omega arith) in
    let m = main_pos_mod t size h e b in
    let low : h % 2 ^ size < 2 ^ size = ground arith in omega arith

-- The first slot of a chain is in use.
pub head_taken :
    (c : ℕ) (home : ℕ → ℕ) (E : Memory) (p s : ℕ)
    → IsValid c home E
    → IsAt c home E p s
    → IsAt c home E p p
head_taken c home E p s v at =
    let (xs, k, inside) = v.chain_of p s at in k.members p (head-Seg E p invalid s xs k.way inside)

-- A key is in a slot of its hash.
pub held-IsAt :
    (t : HashTable) (key v : List ℕ)
    → IsKeyed t.capacity t.entries
    → (h : Has t key v) → IsAt t.capacity (main_pos t) t.entries (main_pos t (calc_hash key)) h.0
held-IsAt t key v kd (s, b, e, w) = (b, (ap is_null e, ap (main_pos t) (kd.hashed s b key e)))

-- Whether the key was there already, and what the table holds afterwards.
abbrev pub SetResult : HashTable → HashTable → List ℕ → List ℕ → Bool → Type 0
SetResult t u key value b =
    ((b ≡ false) × ((v : List ℕ) × Has t key v) × ((k v : List ℕ) → Has u k v ↔ Has t k v))
    ⊎ ((b ≡ true)
        × ((v : List ℕ) → ¬ Has t key v)
        × ((k v : List ℕ) → Has u k v ↔ (Has t k v ⊎ ((k ≡ key) × (v ≡ value)))))

unwrap : (x y : List ℕ) → some x ≡ some y → x ≡ y
unwrap x y e = ap (λ o. elim o [ none ↦ x | some z ↦ z ]) e

-- `D` holds what `E` does, and `F` has one slot more than `D`.
module _ (c : ℕ) (E D F : Memory) (x : ℕ) (key value : List ℕ)
    (there : (k v : List ℕ) → Holds c E k v → Holds c D k v)
    (back : (k v : List ℕ) → Holds c D k v → Holds c E k v) (g : Grows c D F x)
    (fk : (F x).key ≡ some key) (fv : (F x).value ≡ value)
    (fresh : (v : List ℕ) → ¬ Holds c E key v) where
  pub stored : (k v : List ℕ) → Holds c F k v ↔ (Holds c E k v ⊎ ((k ≡ key) × (v ≡ value)))
  stored k v = (
    λ h. elim (split_holds c D F x g k v h) [
      | inl old ↦ inl (back k v old)
      | inr (e, w) ↦ inr (unwrap k key (sym e ∙ fk), sym w ∙ fv)
    ],
    λ h. elim h [
      | inl old ↦ kept c D F x g k v (there k v old)
      | inr (e, w) ↦ (x, g.inside, fk ∙ ap some (sym e), fv ∙ sym w)
    ],
  )

  pub stored-IsKeyed : (F x).hash ≡ calc_hash key → IsKeyed c D → IsKeyed c F
  stored-IsKeyed fh kd =
      grow-IsKeyed c D F x g (λ k e. fh ∙ ap calc_hash (unwrap key k (sym fk ∙ e)))
        (λ k v e held.
          fresh v (back key v (subst (λ y. Holds c D y v) (unwrap k key (sym e ∙ fk)) held)))
        kd
