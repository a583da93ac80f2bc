-- ===== src/Time/TimerPool/Scan.antt =====
-- What the first loop of `timer_pool_execute_callbacks` leaves in the pool, and which timers it finds.
use mathlib.Core.List.{append-nil, append_assoc}
use eqp.Common.{
  ℕ, zero, suc, ◌+◌, ◌-◌, ◌≤◌, ◌<◌, ◌≡◌, refl, sym, ap, ◌∙◌, true, false, List, [], ◌∷◌, ◌++◌,
  length, get_or, leb, ◌==◌, if◌then◌else◌, Bool-cases, inl, inr, arith, Bool,
}
use eqp.Time.TimerPool.Tally.{tally, SameAt, tally-same, Popped, swap_and_pop-Popped, tally-Popped}
use eqp.Time.TimerPool.{Pool, time_at, is_dead, live_part, swap_and_pop, scan}

-- The entries from `i` on, `n` of them, whose time has come, in order.
abbrev pub due : ℕ → (n i : ℕ) → Pool → List ℕ
due now zero i p = []
due now (suc n) i p =
    let rest = due now n (i + 1) p in if leb (live_part (time_at p i)) now then i ∷ rest else rest

record Scanned (now i : ℕ) (p q : Pool) : Type 0 where
  reached : i ≤ q.count
  shorter : q.count ≤ p.count
  below : (j : ℕ) → j < i → SameAt q p j j
  live : (j : ℕ) → i ≤ j → j < q.count → is_dead (time_at q j) ≡ false
  kept : (f : ℕ → ℕ → Bool) → tally f (q.count - i) i q ≡ tally f (p.count - i) i p
  found : q.triggered ≡ p.triggered ++ due now (q.count - i) i q

module _ (now i : ℕ) (p : Pool) where
  after_pop :
      (q s : Pool)
      → i < p.count
      → is_dead (time_at p i) ≡ true
      → Popped i p q
      → Scanned now i q s
      → Scanned now i p s
  after_pop q s l dead pop r = record {
    reached = r.reached;
    shorter = omega (arith, r.shorter, pop.fewer);
    below =
        λ j l. let a = r.below j l in let b = pop.others j (ground arith) in (a.0 ∙ b.0, a.1 ∙ b.1);
    live = r.live;
    kept = λ f.
        let m : p.count - i ≡ suc (q.count - i) = omega (arith, pop.fewer) in
        r.kept f
        ∙ tally-Popped f (q.count - i) i p q pop dead (omega (arith, pop.fewer))
        ∙ ap (λ n. tally f n i p) (sym m);
    found = r.found ∙ ap (λ xs. xs ++ due now (s.count - i) i s) pop.same;
  }

  -- The entries from `i` on, the one at `i` seen first.
  due_first :
      (s : Pool)
      → i + 1 ≤ s.count
      → time_at s i ≡ time_at p i
      → due now (s.count - i) i s ≡ (
          if leb (live_part (time_at p i)) now
          then i ∷ due now (s.count - (i + 1)) (i + 1) s
          else due now (s.count - (i + 1)) (i + 1) s)
  due_first s h e = let n : s.count - i ≡ suc (s.count - (i + 1)) = omega arith in rw (n, e)

  after_keep :
      (q s : Pool)
      → is_dead (time_at p i) ≡ false
      → q.count ≡ p.count
      → q.trigger_times ≡ p.trigger_times
      → q.timer_objects ≡ p.timer_objects
      → ((xs : List ℕ)
          → q.triggered ++ xs
            ≡ p.triggered ++ (if leb (live_part (time_at p i)) now then i ∷ xs else xs))
      → Scanned now (i + 1) q s
      → Scanned now i p s
  after_keep q s live c t o f r =
      let as_before : (j : ℕ) → SameAt q p j j =
        λ j. (ap (λ xs. get_or xs j 0) t, ap (λ xs. get_or xs j 0) o) in
      let below : (j : ℕ) → j < i + 1 → SameAt s p j j =
        λ j l. ((r.below j l).0 ∙ (as_before j).0, (r.below j l).1 ∙ (as_before j).1) in
      let (here, there) = below i (omega arith) in
      let high = r.reached in
      record {
        reached = omega arith;
        shorter = omega (arith, r.shorter);
        below = λ j l. below j (omega arith);
        live = λ j l k. elim (Bool-cases (j == i)) [
          | inl same ↦ let e : j ≡ i = ground arith in rw e (ap is_dead here ∙ live)
          | inr other ↦ r.live j (ground arith) k
        ];
        kept = λ g.
            let n : s.count - i ≡ suc (s.count - (i + 1)) = omega arith in
            let m : p.count - i ≡ suc (q.count - (i + 1)) = omega (arith, r.shorter) in
            let rest =
              r.kept g ∙ tally-same g (q.count - (i + 1)) (i + 1) q p (λ j l. as_before j) in
            rw (n, m, here, there, rest) refl;
        found =
            r.found
            ∙ f (due now (s.count - (i + 1)) (i + 1) s)
            ∙ ap (λ xs. p.triggered ++ xs) (sym (due_first s high here));
      }

scan-Scanned :
    (now rest i : ℕ) (p : Pool)
    → rest + i ≡ p.count
    → p.count ≤ length p.trigger_times
    → p.count ≤ length p.timer_objects
    → Scanned now i p (scan now rest i p)
unfolding scan
scan-Scanned now zero i p e h k =
    let none_left : p.count - i ≡ 0 = omega arith in
    record {
      reached = omega arith;
      shorter = omega arith;
      below = λ j l. (refl, refl);
      kept = λ f. refl;
      live = λ j l k. absurd (omega arith);
      found = rw none_left (sym (append-nil p.triggered));
    }
scan-Scanned now (suc rest) i p e h k = elim (Bool-cases (is_dead (time_at p i))) [
  | inl dead ↦
      let q = swap_and_pop p i in
      let s = swap_and_pop-Popped p i (omega arith) (omega arith) in
      let r =
        scan-Scanned now rest i q (rw s.fewer (omega arith)) (rw (s.fewer, s.times) (omega arith))
          (rw (s.fewer, s.objects) (omega arith)) in
      rw (scan, dead) (after_pop now i p q (scan now rest i q) (omega arith) dead s r)
  | inr live ↦ elim (Bool-cases (leb (live_part (time_at p i)) now)) [
    | inl is_due ↦
        let q = record p { triggered = p.triggered ++ i ∷ [] } in
        let r = scan-Scanned now rest (i + 1) q (omega arith) h k in
        let f : (xs : List ℕ)
            → q.triggered ++ xs
              ≡ p.triggered ++ (if leb (live_part (time_at p i)) now then i ∷ xs else xs) =
          λ xs. rw is_due (append_assoc p.triggered (i ∷ []) xs) in
        rw (scan, live, is_due)
          (after_keep now i p q (scan now rest (i + 1) q) live refl refl refl f r)
    | inr early ↦
        let r = scan-Scanned now rest (i + 1) p (omega arith) h k in
        let f : (xs : List ℕ)
            → p.triggered ++ xs
              ≡ p.triggered ++ (if leb (live_part (time_at p i)) now then i ∷ xs else xs) =
          λ xs. rw early refl in
        rw (scan, live, early)
          (after_keep now i p p (scan now rest (i + 1) p) live refl refl refl f r)
  ]
]

-- The scan of a pool whose arrays hold its entries, with no timers left over to be called. After it
-- no entry in use is dead. Whatever the test on the time and the timer of an entry, as many entries
-- pass it as passed it before and were not dead: so the dead ones have gone, no other was lost, and
-- none was added. And the timers to be called are exactly the entries whose time has come, in order.
pub scan_lem :
    (now : ℕ) (p : Pool)
    → p.count ≤ length p.trigger_times
    → p.count ≤ length p.timer_objects
    → p.triggered ≡ []
    → let q = scan now p.count 0 p in
      ((j : ℕ) → j < q.count → is_dead (time_at q j) ≡ false)
      × ((f : ℕ → ℕ → Bool) → tally f q.count 0 q ≡ tally f p.count 0 p)
      × (q.triggered ≡ due now q.count 0 q)
scan_lem now p h k e =
    let q = scan now p.count 0 p in
    let r = scan-Scanned now p.count 0 p (omega arith) h k in
    let all : q.count - 0 ≡ q.count = omega arith in
    let all' : p.count - 0 ≡ p.count = omega arith in
    let found : q.triggered ≡ [] ++ due now (q.count - 0) 0 q =
      r.found ∙ ap (λ xs. xs ++ due now (q.count - 0) 0 q) e in
    (
      λ j l. r.live j (omega arith) l,
      λ f. ap (λ n. tally f n 0 q) (sym all) ∙ r.kept f ∙ ap (λ n. tally f n 0 p) all',
      found ∙ ap (λ n. due now n 0 q) all,
    )
