-- ===== src/Time/TimerPool/Tally.antt =====
-- Counting the entries of a pool that are not dead (src/common/time/timer_pool.c): the count does not
-- change when `timer_pool_swap_and_pop` takes a dead one out.
use eqp.Common.{
  ℕ, zero, suc, ◌+◌, ◌-◌, ◌≤◌, ◌<◌, ◌≡◌, refl, ap, ◌∙◌, Bool, true, false, length, length-set,
  get_or-set, ◌==◌, ==_refl, if◌then◌else◌, Bool-cases, inl, inr, arith,
}
use eqp.Time.TimerPool.{Pool, time_at, object_at, is_dead, swap_and_pop}

abbrev weigh : (ℕ → ℕ → Bool) → (time object : ℕ) → ℕ
weigh f time object = if is_dead time then 0 else if f time object then 1 else 0

-- Of the entries from `i` on, `n` of them, how many are not dead and pass the test on their time and
-- their timer.
abbrev pub tally : (ℕ → ℕ → Bool) → (n i : ℕ) → Pool → ℕ
tally f zero i p = 0
tally f (suc n) i p = weigh f (time_at p i) (object_at p i) + tally f n (i + 1) p

-- The same time and timer in a place.
abbrev pub SameAt : Pool → Pool → (k j : ℕ) → Type 0
SameAt q p k j = (time_at q k ≡ time_at p j) × (object_at q k ≡ object_at p j)

weigh-same :
    (f : ℕ → ℕ → Bool) (q p : Pool) (k j : ℕ)
    → SameAt q p k j
    → weigh f (time_at q k) (object_at q k) ≡ weigh f (time_at p j) (object_at p j)
weigh-same f q p k j (t, o) = rw (t, o) refl

pub tally-same :
    (f : ℕ → ℕ → Bool) (n i : ℕ) (q p : Pool)
    → ((j : ℕ) → i ≤ j → SameAt q p j j)
    → tally f n i q ≡ tally f n i p
tally-same f zero i q p same = refl
tally-same f (suc n) i q p same =
    let here = weigh-same f q p i i (same i (omega arith)) in
    let rest = tally-same f n (i + 1) q p (λ j l. same j (omega arith)) in omega arith

tally-last :
    (f : ℕ → ℕ → Bool) (n i : ℕ) (p : Pool)
    → tally f (suc n) i p ≡ tally f n i p + weigh f (time_at p (i + n)) (object_at p (i + n))
tally-last f zero i p = let e : i + 0 ≡ i = omega arith in rw e (omega arith)
tally-last f (suc n) i p =
    let e : i + 1 + n ≡ i + suc n = omega arith in
    let rest : tally f (suc n) (i + 1) p
        ≡ tally f n (i + 1) p + weigh f (time_at p (i + suc n)) (object_at p (i + suc n)) =
      tally-last f n (i + 1) p
      ∙ ap (λ j. tally f n (i + 1) p + weigh f (time_at p j) (object_at p j)) e in
    omega (arith, rest)

-- The last entry takes the place of the one at `i`, and the others stay.
pub record Popped (i : ℕ) (p q : Pool) : Type 0 where
  pub fewer : q.count ≡ p.count - 1
  pub times : length q.trigger_times ≡ length p.trigger_times
  pub objects : length q.timer_objects ≡ length p.timer_objects
  pub moved : i < q.count → SameAt q p i q.count
  pub others : (j : ℕ) → (i == j) ≡ false → SameAt q p j j
  pub same : q.triggered ≡ p.triggered

pub swap_and_pop-Popped :
    (p : Pool) (i : ℕ)
    → i < length p.trigger_times
    → i < length p.timer_objects
    → Popped i p (swap_and_pop p i)
unfolding swap_and_pop
swap_and_pop-Popped p i h k = elim (Bool-cases (p.count - 1 == i)) [
  | inl last ↦
      rw (swap_and_pop, last)
        (record {
          fewer = refl;
          times = refl;
          objects = refl;
          moved = λ l. absurd (ground arith);
          others = λ j l. (refl, refl);
          same = refl;
        })
  | inr inner ↦
      let back = p.count - 1 in
      rw (swap_and_pop, inner)
        (record {
          fewer = refl;
          times = length-set p.trigger_times i (time_at p back);
          objects = length-set p.timer_objects i (object_at p back);
          moved = λ l. (
            get_or-set p.trigger_times i i (time_at p back) 0 h ∙ rw (==_refl i) refl,
            get_or-set p.timer_objects i i (object_at p back) 0 k ∙ rw (==_refl i) refl,
          );
          others = λ j l. (
            get_or-set p.trigger_times i j (time_at p back) 0 h ∙ rw l refl,
            get_or-set p.timer_objects i j (object_at p back) 0 k ∙ rw l refl,
          );
          same = refl;
        })
]

-- No entry that is not dead is lost, and none is added.
pub tally-Popped :
    (f : ℕ → ℕ → Bool) (m i : ℕ) (p q : Pool)
    → Popped i p q
    → is_dead (time_at p i) ≡ true
    → p.count ≡ i + suc m
    → tally f m i q ≡ tally f (suc m) i p
tally-Popped f zero i p q pop dead c = rw dead refl
tally-Popped f (suc m) i p q pop dead c =
    let back : q.count ≡ i + 1 + m = omega (arith, pop.fewer) in
    let (t, o) = pop.moved (omega (arith, pop.fewer)) in
    let here =
      weigh-same f q p i (i + 1 + m)
        (t ∙ ap (λ j. time_at p j) back, o ∙ ap (λ j. object_at p j) back) in
    let behind = tally-same f m (i + 1) q p (λ j l. pop.others j (ground arith)) in
    let none_ : weigh f (time_at p i) (object_at p i) ≡ 0 = rw dead refl in
    let last = tally-last f m (i + 1) p in omega arith
