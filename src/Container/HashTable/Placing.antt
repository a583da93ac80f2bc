-- ===== src/Container/HashTable/Placing.antt =====
-- Where an entry can be put: in an empty slot of its own, in the slot of an entry that has made room,
-- and at the end of a chain (src/common/container/eqp_hash_table.c).
use eqp.Common.{
  ℕ, ◌≤◌, ◌<◌, ◌≡◌, refl, sym, ap, subst, ◌∙◌, true, false, ◌==◌, inl, inr, Bool-cases, ==_refl,
  ==_iff, update, update_other,
}
use eqp.Container.HashTable.{Entry, HashTable, invalid, is_null, main_pos, fill_from}
use eqp.Container.HashTable.Slots.{==_other}
use eqp.Container.HashTable.Seg.{Memory}
use eqp.Container.HashTable.Valid.{IsAt, IsValid, add_first, still_empty, differ}
use eqp.Container.HashTable.Links.{add_after}
use eqp.Container.HashTable.Content.{IsCopy, IsCopy-of, Grows}
use eqp.Container.HashTable.Free.{Fills}
use eqp.Container.HashTable.Room.{Moved}

abbrev pub filled : Memory → ℕ → Entry → Memory
filled E i o = update E i (fill_from o.key o.hash o.value (E i))

-- The slot `pos` of `R` with the entry and no next one.
abbrev pub headed : Memory → ℕ → Entry → Memory
headed R pos o = update (filled R pos o) pos (record (filled R pos o pos) { next = invalid })

-- The slot `a` leads to the free one.
abbrev pub tied : HashTable → ℕ → Memory
tied t a = update t.entries a (record (t.entries a) { next = t.free_index })

-- The entry at its own slot, or nothing in its place when it has no key.
place_first :
    (c : ℕ) (home : ℕ → ℕ) (D F : Memory) (pos : ℕ)
    → pos < c
    → is_null (D pos).key ≡ true
    → home (F pos).hash ≡ pos
    → (F pos).next ≡ invalid
    → ((x : ℕ) → (x == pos) ≡ false → F x ≡ D x)
    → c ≤ invalid
    → IsValid c home D
    → IsValid c home F
place_first c home D F pos low nd hp nn others ci v = elim (Bool-cases (is_null (F pos).key)) [
  | inl m ↦ still_empty c home D F pos nd m nn others v
  | inr m ↦ add_first c home D F pos low nd m hp nn others ci v
]

-- What there is to know of `F`, which has the entry `o` in slot `x` that is empty in `D`; `E` is the
-- memory before.
pub record Placed (c : ℕ) (home : ℕ → ℕ) (E D F : Memory) (x : ℕ) (o : Entry) : Type 0 where
  pub valid : IsValid c home F
  pub grows : Grows c D F x
  pub copy : IsCopy (F x) o
  pub fills : Fills home E F

module _ (t : HashTable) (o : Entry) (small : t.capacity ≤ invalid)
    (v : IsValid t.capacity (main_pos t) t.entries) (low : main_pos t o.hash < t.capacity) where
  abbrev E : Memory
  E = t.entries

  abbrev pos : ℕ
  pos = main_pos t o.hash

  -- The slot is empty.
  module _ (np : is_null (E pos).key ≡ true) where
    abbrev first : Memory
    first = filled E pos o

    first_eq : first pos ≡ record o { next = invalid }
    first_eq = let e = v.cleared pos low np in rw (==_refl pos, e) refl

    pub first_other : (x : ℕ) → (x == pos) ≡ false → first x ≡ E x
    first_other x n = let n2 = ==_other x pos n in rw n2 refl

    pub first_home : main_pos t (first pos).hash ≡ pos
    first_home = ap (λ y. main_pos t y.hash) first_eq

    pub first-Placed : Placed t.capacity (main_pos t) E E first pos o
    first-Placed = record {
      valid =
          place_first t.capacity (main_pos t) E first pos low np first_home
            (ap (λ y. y.next) first_eq) first_other small v;
      grows = record {
        inside = low;
        empty = np;
        others = λ x n. IsCopy-of (first x) (E x) (first_other x n);
      };
      copy = (ap (λ y. y.key) first_eq, ap (λ y. y.hash) first_eq, ap (λ y. y.value) first_eq);
      fills = λ s m. elim (Bool-cases (s == pos)) [
        | inl e ↦
            let same = (==_iff s pos).0 e in
            inl (ap (λ y. main_pos t (first y).hash) same ∙ first_home ∙ sym same)
        | inr n ↦
            let w = first_other s n in inr (ap (λ y. is_null y.key) (sym w) ∙ m, ap (λ y. y.hash) w)
      ];
    }

  -- What stood there has moved to `f`.
  module _ (R D : Memory) (f : ℕ) (m : Moved t.capacity (main_pos t) E D pos f)
      (same : (x : ℕ) → (x == pos) ≡ false → R x ≡ D x) (fp : (f == pos) ≡ false)
      (np : is_null (E pos).key ≡ false) where
    abbrev head : Memory
    head = headed R pos o

    head_eq : head pos ≡ record o { next = invalid }
    head_eq = rw (==_refl pos) refl

    pub head_other : (x : ℕ) → (x == pos) ≡ false → head x ≡ D x
    head_other x n =
        let n2 = ==_other x pos n in
        update_other (filled R pos o) pos x (record (filled R pos o pos) { next = invalid }) n2
        ∙ update_other R pos x (fill_from o.key o.hash o.value (R pos)) n2
        ∙ same x n

    pub head_in_use : is_null (head f).key ≡ false
    head_in_use = ap (λ y. is_null y.key) (head_other f fp) ∙ m.target

    head_alike :
        (s : ℕ)
        → (s == pos) ≡ false
        → (s == f) ≡ false
        → ((head s).key ≡ (E s).key) × ((head s).hash ≡ (E s).hash)
    head_alike s n q =
        let (ak, ah) = m.rest s n q in
        let w = head_other s n in (ap (λ y. y.key) w ∙ ak, ap (λ y. y.hash) w ∙ ah)

    pub head_keeps :
        (s : ℕ) → (s == f) ≡ false → is_null (E s).key ≡ true → is_null (head s).key ≡ true
    head_keeps s q z =
        let (ak, _) =
          head_alike s (==_other pos s (differ t.capacity (main_pos t) E pos s np z)) q in
        ap is_null ak ∙ z

    pub head-Placed : Placed t.capacity (main_pos t) E D head pos o
    head-Placed =
        let dn : is_null (D pos).key ≡ true = ap (λ y. is_null y.key) m.vacated in
        let own = ap (λ y. main_pos t y.hash) head_eq in
        record {
          valid =
              place_first t.capacity (main_pos t) D head pos low dn own (ap (λ y. y.next) head_eq)
                head_other small m.valid;
          grows = record {
            inside = low;
            empty = dn;
            others = λ x n. IsCopy-of (head x) (D x) (head_other x n);
          };
          copy = (ap (λ y. y.key) head_eq, ap (λ y. y.hash) head_eq, ap (λ y. y.value) head_eq);
          fills = λ s z. elim (Bool-cases (s == pos)) [
            | inl e ↦
                let w = (==_iff s pos).0 e in
                inl (ap (λ y. main_pos t (head y).hash) w ∙ own ∙ sym w)
            | inr n ↦
                let q = ==_other f s (differ t.capacity (main_pos t) head f s head_in_use z) in
                let (ak, ah) = head_alike s n q in inr (ap is_null (sym ak) ∙ z, ah)
          ];
        }

  -- The chain of the slot ends at `a`.
  module _ (a : ℕ) (ata : IsAt t.capacity (main_pos t) E pos a) (last : (E a).next ≡ invalid)
      (live : is_null o.key ≡ false) (free_low : t.free_index < t.capacity)
      (free_empty : is_null (E t.free_index).key ≡ true) where
    abbrev f : ℕ
    f = t.free_index

    abbrev tail : Memory
    tail = filled (tied t a) f o

    af : (a == f) ≡ false
    af = differ t.capacity (main_pos t) E a f ata.1.0 free_empty

    tail_at_free : tail f ≡ record o { next = invalid }
    tail_at_free =
        let cleared = v.cleared f free_low free_empty in
        let n = af in rw (==_refl f, n, cleared) refl

    tail_at_end : tail a ≡ record (E a) { next = f }
    tail_at_end = let n = ==_other a f af in rw (n, ==_refl a) refl

    tail_other : (x : ℕ) → (x == a) ≡ false → (x == f) ≡ false → tail x ≡ E x
    tail_other x n q = let n2 = ==_other x a n in let q2 = ==_other x f q in rw (q2, n2) refl

    pub tail_in_use : is_null (tail f).key ≡ false
    tail_in_use = ap (λ y. is_null y.key) tail_at_free ∙ live

    tail_copies : (x : ℕ) → (x == f) ≡ false → IsCopy (tail x) (E x)
    tail_copies x q = elim (Bool-cases (x == a)) [
      | inl e ↦
          subst (λ y. IsCopy (tail y) (E y)) (sym ((==_iff x a).0 e))
            (
              ap (λ y. y.key) tail_at_end,
              ap (λ y. y.hash) tail_at_end,
              ap (λ y. y.value) tail_at_end,
            )
      | inr n ↦ IsCopy-of (tail x) (E x) (tail_other x n q)
    ]

    pub tail_keeps :
        (s : ℕ) → (s == f) ≡ false → is_null (E s).key ≡ true → is_null (tail s).key ≡ true
    tail_keeps s q z = let (ck, _, _) = tail_copies s q in ap is_null ck ∙ z

    pub tail-Placed : Placed t.capacity (main_pos t) E E tail f o
    tail-Placed = record {
      valid =
          add_after t.capacity (main_pos t) E tail a f pos ata free_low free_empty tail_in_use
            (ap (λ y. main_pos t y.hash) tail_at_free) (ap (λ y. y.next) tail_at_free ∙ sym last)
            (ap (λ y. y.next) tail_at_end)
            (ap (λ y. y.key) tail_at_end, ap (λ y. y.hash) tail_at_end) tail_other small v;
      grows = record { inside = free_low; empty = free_empty; others = tail_copies };
      copy = (
        ap (λ y. y.key) tail_at_free,
        ap (λ y. y.hash) tail_at_free,
        ap (λ y. y.value) tail_at_free,
      );
      fills = λ s z.
          let (ck, ch, _) =
            tail_copies s (==_other f s (differ t.capacity (main_pos t) tail f s tail_in_use z)) in
          inr (ap is_null (sym ck) ∙ z, ch);
    }
