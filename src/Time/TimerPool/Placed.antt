-- ===== src/Time/TimerPool/Placed.antt =====
-- That a timer knows its place in the pool, through the scan of src/common/time/timer_pool.c.
use eqp.Common.{
  ℕ, zero, suc, ◌+◌, ◌-◌, ◌≤◌, ◌<◌, ◌≡◌, refl, sym, ap, ◌∙◌, false, [], ◌∷◌, ◌++◌, length,
  length-set, get_or-set, leb, if◌then◌else◌, ◌⊎◌, ◌==◌, ==_refl, ==_iff, Bool-cases, inl, inr,
  arith, ◌⊎◌,
}
use eqp.Time.TimerPool.{
  Pool, Timer, stopped, time_at, object_at, timer_at, is_dead, live_part, swap_and_pop, scan,
}
use eqp.Time.TimerPool.Tally.{Popped, swap_and_pop-Popped}
use eqp.Time.TimerPool.Scan.{scan_lem}

-- The arrays hold the entries in use, each is of another timer of the process, and the timer of an
-- entry that is not dead knows the place of the entry.
pub record IsPlaced (p : Pool) : Type 0 where
  pub times : p.count ≤ length p.trigger_times
  pub objects : p.count ≤ length p.timer_objects
  pub inside : (j : ℕ) → j < p.count → object_at p j < length p.timers
  pub apart : (j k : ℕ) → j < p.count → k < p.count → object_at p j ≡ object_at p k → j ≡ k
  pub placed :
      (j : ℕ)
      → j < p.count
      → is_dead (time_at p j) ≡ false
      → (timer_at p (object_at p j)).pool_index ≡ j

module _ (p : Pool) (v : IsPlaced p) (i : ℕ) (low : i < p.count) where
  abbrev moving : Pool
  moving = swap_and_pop p i

  -- Where the last entry goes, its timer is told; the other timers are as before.
  told :
      (p.count - 1 == i) ≡ false
      → (t : ℕ)
      → timer_at moving t ≡ (
          if object_at p (p.count - 1) == t
          then record (timer_at p (object_at p (p.count - 1))) { pool_index = i }
          else timer_at p t)
  unfolding swap_and_pop
  told inner t =
      rw (swap_and_pop, inner)
        (get_or-set p.timers (object_at p (p.count - 1)) t _ stopped
          (v.inside (p.count - 1) (omega arith)))

  -- No other timer is told anything.
  untold : (t : ℕ) → (object_at p (p.count - 1) == t) ≡ false → timer_at moving t ≡ timer_at p t
  unfolding swap_and_pop
  untold t other = elim (Bool-cases (p.count - 1 == i)) [
    | inl last ↦ rw (swap_and_pop, last) refl
    | inr inner ↦ told inner t ∙ rw other refl
  ]

  as_many : length moving.timers ≡ length p.timers
  unfolding swap_and_pop
  as_many = elim (Bool-cases (p.count - 1 == i)) [
    | inl last ↦ rw (swap_and_pop, last) refl
    | inr inner ↦ rw (swap_and_pop, inner) (length-set p.timers (object_at p (p.count - 1)) _)
  ]

  -- The entry at `j` was the last one, or stood there before.
  origin :
      (pop : Popped i p moving) (j : ℕ)
      → j < moving.count
      → (k : ℕ) × (k < p.count)
        × (object_at moving j ≡ object_at p k)
        × (((j ≡ i) × (k ≡ p.count - 1)) ⊎ ((j ≡ k) × ((i == j) ≡ false)))
  origin pop j l = elim (Bool-cases (i == j)) [
    | inl same ↦
        let e : j ≡ i = sym ((==_iff i j).0 same) in
        let at : object_at moving i ≡ object_at p moving.count = (pop.moved (omega (arith, e))).1 in
        (
          p.count - 1,
          omega arith,
          ap (λ x. object_at moving x) e ∙ at ∙ ap (λ x. object_at p x) pop.fewer,
          inl (e, refl),
        )
    | inr other ↦ (j, omega (arith, pop.fewer), (pop.others j other).1, inr (refl, other))
  ]

  swap_and_pop-IsPlaced : IsPlaced moving
  swap_and_pop-IsPlaced =
      let pop = swap_and_pop-Popped p i (omega (arith, v.times)) (omega (arith, v.objects)) in
      record {
        times = omega (arith, v.times, pop.fewer, pop.times);
        objects = omega (arith, v.objects, pop.fewer, pop.objects);
        inside =
            λ j l. let (k, lk, e, _) = origin pop j l in let h = v.inside k lk in rw (e, as_many) h;
        apart = λ j k lj lk e.
            let (a, la, ea, wa) = origin pop j lj in
            let (b, lb, eb, wb) = origin pop k lk in
            let same = v.apart a b la lb (sym ea ∙ e ∙ eb) in
            let f = pop.fewer in
            elim wa [
              | inl (ja, ka) ↦ elim wb [
                | inl (jb, kb) ↦ omega arith
                | inr (jb, kb) ↦ absurd (omega arith)
              ]
              | inr (ja, ka) ↦ elim wb [
                | inl (jb, kb) ↦ absurd (omega arith)
                | inr (jb, kb) ↦ omega arith
              ]
            ];
        placed = λ j l live.
            let (k, lk, e, w) = origin pop j l in
            let f = pop.fewer in
            elim w [
              | inl (a, b) ↦
                  let inner : (p.count - 1 == i) ≡ false = ground (arith, a, f, l) in
                  let t = object_at p (p.count - 1) in
                  let at : object_at moving j ≡ t = e ∙ ap (λ x. object_at p x) b in
                  let hit : timer_at moving t ≡ record (timer_at p t) { pool_index = i } =
                    told inner t ∙ rw (==_refl t) refl in
                  ap (λ x. (timer_at moving x).pool_index) at
                  ∙ ap (λ (u : Timer). u.pool_index) hit
                  ∙ sym a
              | inr (a, b) ↦
                  let t = object_at p k in
                  let early : k < p.count - 1 = omega arith in
                  let other : (object_at p (p.count - 1) == t) ≡ false =
                    elim (Bool-cases (object_at p (p.count - 1) == t)) [
                      | inr differ ↦ differ
                      | inl agree ↦ absurd (
                          let both : p.count - 1 ≡ k =
                            v.apart (p.count - 1) k (omega arith) lk
                              ((==_iff (object_at p (p.count - 1)) t).0 agree) in
                          omega arith)
                    ] in
                  let hit : timer_at moving t ≡ timer_at p t = untold t other in
                  let still : is_dead (time_at p k) ≡ false =
                    ap is_dead (ap (λ x. time_at p x) (sym a) ∙ sym (pop.others j b).0) ∙ live in
                  ap (λ x. (timer_at moving x).pool_index) e
                  ∙ ap (λ (u : Timer). u.pool_index) hit
                  ∙ v.placed k lk still
                  ∙ sym a
            ];
      }

scan_rest-IsPlaced :
    (now rest i : ℕ) (p : Pool) → rest + i ≡ p.count → IsPlaced p → IsPlaced (scan now rest i p)
unfolding scan swap_and_pop
scan_rest-IsPlaced now zero i p e v = v
scan_rest-IsPlaced now (suc rest) i p e v = elim (Bool-cases (is_dead (time_at p i))) [
  | inl dead ↦
      let low : i < p.count = omega arith in
      let pop = swap_and_pop-Popped p i (omega (arith, v.times)) (omega (arith, v.objects)) in
      rw (scan, dead)
        (scan_rest-IsPlaced now rest i (swap_and_pop p i) (omega (arith, pop.fewer))
          (swap_and_pop-IsPlaced p v i low))
  | inr live ↦
      let q = record p { triggered = p.triggered ++ i ∷ [] } in
      let w : IsPlaced q = record {
        times = v.times;
        objects = v.objects;
        inside = v.inside;
        apart = v.apart;
        placed = v.placed;
      } in
      elim (Bool-cases (leb (live_part (time_at p i)) now)) [
        | inl is_due ↦
            rw (scan, live, is_due) (scan_rest-IsPlaced now rest (i + 1) q (omega arith) w)
        | inr early ↦ rw (scan, live, early) (scan_rest-IsPlaced now rest (i + 1) p (omega arith) v)
      ]
]

-- In a pool where every entry in use is of another timer, and the timer of each entry that is not
-- dead knows its place, the scan moves entries and tells their timers: after it every timer that has
-- an entry in use knows the place of its entry. No timers are left over to be called before.
pub scan-IsPlaced :
    (now : ℕ) (p : Pool)
    → IsPlaced p
    → p.triggered ≡ []
    → let q = scan now p.count 0 p in
      IsPlaced q × ((j : ℕ) → j < q.count → (timer_at q (object_at q j)).pool_index ≡ j)
scan-IsPlaced now p v e =
    let r = scan_rest-IsPlaced now p.count 0 p (omega arith) v in
    let (live, _, _) = scan_lem now p v.times v.objects e in (r, λ j l. r.placed j l (live j l))
