-- ===== src/Container/HashTable/Loops.antt =====
-- What the loops of src/common/container/eqp_hash_table.c come to, on a chain.
use eqp.Common.{
  ℕ, zero, suc, ◌+◌, ◌≤◌, ◌<◌, ◌≡◌, ◌⊎◌, refl, sym, ap, subst, ◌∙◌, true, false, Option, none, some,
  List, [], ◌∷◌, length, ◌==◌, arith, inl, inr, Bool-cases, Option-cases, ==_refl, ==_iff, ltb, leb,
  lt→ltb, same_text, same_text-eq, same_text_refl,
}
use eqp.Container.HashTable.{
  Entry, HashTable, Place, invalid, is_null, walk, has_key, search_chain, next_null, calc_hash,
}
use eqp.Container.HashTable.Slots.{has, NoDup, ==_other, apart}
use eqp.Container.HashTable.Seg.{Memory, Seg}

-- Every hash is that of the key.
abbrev pub IsHashed : Entry → Type 0
IsHashed e = (k : List ℕ) → e.key ≡ some k → e.hash ≡ calc_hash k

-- The walk finds the slot before `target`, which is on the way or its end.
pub walk_lem :
    (t : HashTable) (fuel i target u : ℕ) (xs : List ℕ)
    → Seg t.entries i xs u
    → ((x : ℕ) → has x xs ≡ true → x < t.capacity)
    → (target ≡ u) ⊎ (has target xs ≡ true)
    → (i == target) ≡ false
    → length xs ≤ fuel
    → (a : ℕ) × (walk fuel t i target ≡ some a) × (has a xs ≡ true) × ((t.entries a).next ≡ target)
unfolding walk
walk_lem t fuel i target u [] e below (inl end) o l =
    absurd (let k = (==_iff i target).1 (e ∙ sym end) in cc)
walk_lem t fuel i target u [] e below (inr h) o l = absurd (cc)
walk_lem t zero i target u (x ∷ xs) h below on o l = absurd (omega arith)
walk_lem t (suc fuel) i target u (x ∷ xs) (e, h) below on o l =
    let inside : ltb i t.capacity ≡ true =
      lt→ltb i t.capacity (subst (λ y. y < t.capacity) (sym e) (below x (rw (==_refl x) refl))) in
    elim (Bool-cases ((t.entries i).next == target)) [
      | inl here ↦ (
        i,
        rw (walk, inside, here) refl,
        rw (e, ==_refl x) refl,
        (==_iff (t.entries i).next target).0 here,
      )
      | inr further ↦
          let on2 : (target ≡ u) ⊎ (has target xs ≡ true) = elim on [
            | inl end ↦ inl end
            | inr k ↦
                inr (let k2 = rw (==_other x target (ap (λ y. y == target) (sym e) ∙ o)) at k in k2)
          ] in
          let (a, w, k, n) =
            walk_lem t fuel (t.entries i).next target u xs
              (subst (λ y. Seg t.entries (t.entries y).next xs u) (sym e) h)
              (λ y k. below y (elim (Bool-cases (y == x)) [ inl b ↦ rw b refl | inr b ↦ rw b k ]))
              on2 further (omega arith) in
          (
            a,
            rw (walk, inside, further) w,
            elim (Bool-cases (a == x)) [ inl b ↦ rw b refl | inr b ↦ rw b k ],
            n,
          )
    ]

has_key_lem :
    (e : Entry) (key : List ℕ)
    → is_null e.key ≡ false
    → IsHashed e
    → ((has_key e (calc_hash key) key ≡ some true) × (e.key ≡ some key))
      ⊎ ((has_key e (calc_hash key) key ≡ some false) × ¬ (e.key ≡ some key))
has_key_lem e key n hashed = elim (Option-cases e.key) [
  | inl none_ ↦ absurd (let z : is_null e.key ≡ true = ap is_null none_ in cc)
  | inr (k, is_k) ↦ elim (Bool-cases (same_text k key)) [
    | inl same ↦
        let w : e.key ≡ some key = is_k ∙ ap some (same_text-eq k key same) in
        let h : (e.hash == calc_hash key) ≡ true =
          (==_iff e.hash (calc_hash key)).1 (hashed key w) in
        inl (rw (h, is_k, same) refl, w)
    | inr other ↦ inr (
      elim (Bool-cases (e.hash == calc_hash key)) [
        | inl h ↦ rw (h, is_k, other) refl
        | inr h ↦ rw h refl
      ],
      λ w.
          let z : some k ≡ some key = sym is_k ∙ w in
          let q : same_text k key ≡ same_text key key =
            ap (λ o. elim o [ none ↦ false | some y ↦ same_text y key ]) z in
          absurd (let y = same_text_refl key in cc),
    )
  ]
]

-- The key is in a slot of the chain: the first one, or the one behind the slot that comes with it.
abbrev pub IsFound : Memory → List ℕ → List ℕ → Option ℕ → ℕ → Place → Type 0
IsFound E key xs prev i p =
    (p.found ≡ true)
    × (has p.ent xs ≡ true)
    × ((E p.ent).key ≡ some key)
    × (((p.ent ≡ i) × (p.prev ≡ prev))
        ⊎ ((a : ℕ) × (p.prev ≡ some a)
            × (has a xs ≡ true)
            × ((E a).next ≡ p.ent)
            × ((i == p.ent) ≡ false)))

-- The key is in none, and the last slot comes back.
abbrev pub IsMissing : Memory → List ℕ → List ℕ → Place → Type 0
IsMissing E key xs p =
    (p.found ≡ false)
    × (has p.ent xs ≡ true)
    × ((E p.ent).next ≡ invalid)
    × ((x : ℕ) → has x xs ≡ true → ¬ ((E x).key ≡ some key))

pub search_chain_lem :
    (t : HashTable) (fuel : ℕ) (prev : Option ℕ) (i : ℕ) (key : List ℕ) (xs : List ℕ)
    → Seg t.entries i xs invalid
    → ((x : ℕ)
        → has x xs ≡ true
        → (x < t.capacity) × ((is_null (t.entries x).key ≡ false) × IsHashed (t.entries x)))
    → NoDup xs
    → has i xs ≡ true
    → length xs ≤ fuel
    → t.capacity ≤ invalid
    → (p : Place) × (search_chain fuel t prev i (calc_hash key) key ≡ some p)
      × (IsFound t.entries key xs prev i p ⊎ IsMissing t.entries key xs p)
unfolding search_chain
search_chain_lem t fuel prev i key [] s m d h l ci = absurd (cc)
search_chain_lem t zero prev i key (x ∷ xs) s m d h l ci = absurd (omega arith)
search_chain_lem t (suc fuel) prev i key (x ∷ xs) (e, s) m (n, d) h l ci =
    let first : has i (x ∷ xs) ≡ true = h in
    let (below, (taken, hashed)) = m i first in
    let inside : ltb i t.capacity ≡ true = lt→ltb i t.capacity below in
    elim (has_key_lem (t.entries i) key taken hashed) [
      | inl both ↦ (
        record { found = true; prev = prev; ent = i },
        rw (search_chain, inside, both.0) refl,
        inl (refl, first, both.1, inl (refl, refl)),
      )
      | inr both ↦ elim (Bool-cases ((t.entries i).next == invalid)) [
        | inl last ↦ (
          record { found = false; prev = prev; ent = i },
          rw (search_chain, inside, both.0, last) refl,
          inr (
            refl,
            first,
            (==_iff (t.entries i).next invalid).0 last,
            only xs s
                (λ y k.
                  (m y (elim (Bool-cases (y == x)) as (λ _. has y (x ∷ xs) ≡ true) [
                    | inl b ↦ rw b refl
                    | inr b ↦ rw b k
                  ])).0)
                last (both.1),
          ),
        )
        | inr more ↦
            let s2 : Seg t.entries (t.entries i).next xs invalid =
              subst (λ y. Seg t.entries (t.entries y).next xs invalid) (sym e) s in
            let grow = λ (y : ℕ) (k : has y xs ≡ true).
              elim (Bool-cases (y == x)) as (λ _. has y (x ∷ xs) ≡ true) [
                | inl b ↦ rw b refl
                | inr b ↦ rw b k
              ] in
            let (p, w, result) =
              search_chain_lem t fuel (some i) (t.entries i).next key xs s2 (λ y k. m y (grow y k))
                d (starts xs s2 more) (omega arith) ci in
            (
              p,
              rw (search_chain, inside, both.0, more) w,
              elim result [
                | inl (f, k, q, place) ↦ inl (
                  f,
                  grow p.ent k,
                  q,
                  inr (elim place [
                    | inl (a, b) ↦ (
                      i,
                      b,
                      first,
                      sym a,
                      ap (λ y. y == p.ent) e ∙ ==_other p.ent x (apart p.ent x xs k n),
                    )
                    | inr (a, b, ka, na, oa) ↦ (
                      a,
                      b,
                      grow a ka,
                      na,
                      ap (λ y. y == p.ent) e ∙ ==_other p.ent x (apart p.ent x xs k n),
                    )
                  ]),
                )
                | inr (f, k, q, none_) ↦ inr (
                  f,
                  grow p.ent k,
                  q,
                  λ y k2. elim (Bool-cases (y == x)) [
                    | inl b ↦ λ w2.
                        both.1
                          (subst (λ z. (t.entries z).key ≡ some key) ((==_iff y x).0 b ∙ sym e) w2)
                    | inr b ↦ none_ y (let k3 = rw b at k2 in k3)
                  ],
                )
              ],
            )
      ]
    ]
  where
    only :
        (ys : List ℕ)
        → Seg t.entries (t.entries x).next ys invalid
        → ((y : ℕ) → has y ys ≡ true → y < t.capacity)
        → ((t.entries i).next == invalid) ≡ true
        → ¬ ((t.entries i).key ≡ some key)
        → (y : ℕ) → has y (x ∷ ys) ≡ true
        → ¬ ((t.entries y).key ≡ some key)
    only ys q small last out y k = elim (Bool-cases (y == x)) [
      | inl b ↦ λ w. out (subst (λ z. (t.entries z).key ≡ some key) ((==_iff y x).0 b ∙ sym e) w)
      | inr b ↦ absurd (
          elim ys
              as (λ zs.
                Seg t.entries (t.entries x).next zs invalid
                → ((v : ℕ) → has v zs ≡ true → v < t.capacity)
                → has y zs ≡ true
                → ⊥) [
                  | [] ↦ λ _ _ k2. cc
                  | ◌∷◌ z zs ↦ λ q2 small2 _.
                      let low = small2 z (rw (==_refl z) refl) in
                      let end : z ≡ invalid =
                        sym q2.0
                        ∙ ap (λ v. (t.entries v).next) (sym e)
                        ∙ (==_iff (t.entries i).next invalid).0 last in
                      omega arith
                ]
            q small (let k2 = rw b at k in k2))
    ]

    starts :
        (ys : List ℕ)
        → Seg t.entries (t.entries i).next ys invalid
        → ((t.entries i).next == invalid) ≡ false
        → has (t.entries i).next ys ≡ true
    starts [] q more = absurd (let z = (==_iff (t.entries i).next invalid).1 q in cc)
    starts (y ∷ ys) (q, _) more = rw (q, ==_refl y) refl

-- The first slot from `i` on that is free, or none of `left`.
pub next_null_lem :
    (t : HashTable) (left i : ℕ)
    → ((next_null left i t ≡ none)
        × ((s : ℕ) → i ≤ s → s < i + left → is_null (t.entries s).key ≡ false))
      ⊎ ((j : ℕ) × (next_null left i t ≡ some j)
          × (i ≤ j)
          × (j < i + left)
          × (is_null (t.entries j).key ≡ true)
          × ((s : ℕ) → i ≤ s → s < j → is_null (t.entries s).key ≡ false))
unfolding next_null
next_null_lem t zero i = inl (refl, λ s a b. absurd (omega arith))
next_null_lem t (suc left) i = elim (Bool-cases (is_null (t.entries i).key)) [
  | inl here ↦
      inr (
        i,
        rw (next_null, here) refl,
        omega arith,
        omega arith,
        here,
        λ s a b. absurd (omega arith),
      )
  | inr taken ↦
      let first = λ (s : ℕ) (a : i ≤ s).
        elim (Bool-cases (leb (i + 1) s)) as (λ _. (i + 1 ≤ s) ⊎ (s ≡ i)) [
          | inl b ↦ inl (ground arith)
          | inr b ↦ inr (ground arith)
        ] in
      elim (next_null_lem t left (i + 1)) [
        | inl (e, all) ↦ inl (
          rw (next_null, taken) e,
          λ s a b. elim (first s a) [
            | inl c ↦ all s c (omega arith)
            | inr c ↦ ap (λ y. is_null (t.entries y).key) c ∙ taken
          ],
        )
        | inr (j, e, a, b, n, all) ↦ inr (
          j,
          rw (next_null, taken) e,
          omega arith,
          omega arith,
          n,
          λ s a2 b2. elim (first s a2) [
            | inl c ↦ all s c b2
            | inr c ↦ ap (λ y. is_null (t.entries y).key) c ∙ taken
          ],
        )
      ]
]
