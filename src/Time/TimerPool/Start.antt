-- ===== src/Time/TimerPool/Start.antt =====
-- A timer that is started has a place in the pool, and the others keep theirs.
use eqp.Common.{
  ℕ, zero, suc, ◌+◌, ◌-◌, ◌*◌, ◌%◌, ◌^◌, ◌≤◌, ◌<◌, ◌≡◌, refl, ap, ◌∙◌, false, List, [], ◌∷◌, ◌++◌,
  length, get_or, set, take, take_all, replicate, length-append, length-replicate, length-set,
  get_or-set, leb, ◌==◌, if◌then◌else◌, Bool-cases, inl, inr, arith, ==_refl,
}
use eqp.Time.TimerPool.{Pool, Timer, stopped, time_at, object_at, timer_at, realloc, start_timer}

get_or-append : (xs ys : List ℕ) (i d : ℕ) → i < length xs → get_or (xs ++ ys) i d ≡ get_or xs i d
get_or-append [] ys i d h = absurd (omega arith)
get_or-append (x ∷ xs) ys zero d h = refl
get_or-append (x ∷ xs) ys (suc i) d h = get_or-append xs ys i d (omega arith)

-- What a reallocation does to one of the two arrays.
abbrev extend : ℕ → List ℕ → List ℕ
extend c xs = take c xs ++ replicate (c - length xs) 0

get_or-extend :
    (c : ℕ) (xs : List ℕ) (i : ℕ)
    → length xs ≤ c
    → i < length xs
    → get_or (extend c xs) i 0 ≡ get_or xs i 0
get_or-extend c xs i h l =
    rw (take_all c xs h) (get_or-append xs (replicate (c - length xs) 0) i 0 l)

length-extend : (c : ℕ) (xs : List ℕ) → length xs ≤ c → length (extend c xs) ≡ c
length-extend c xs h =
    rw
      (
        take_all c xs h,
        length-append xs (replicate (c - length xs) 0),
        length-replicate {A = ℕ} (c - length xs) 0,
      )
      (omega arith)

-- The two arrays have as many entries as the pool says, and those in use are among them.
pub record IsAllocated (p : Pool) : Type 0 where
  pub within : p.count ≤ p.capacity
  pub times : length p.trigger_times ≡ p.capacity
  pub objects : length p.timer_objects ≡ p.capacity
  pub some_room : 0 < p.capacity

-- The pool with a place behind the entries in use.
record Roomy (p q : Pool) : Type 0 where
  counted : q.count ≡ p.count + 1
  room : p.count < q.capacity
  times : length q.trigger_times ≡ q.capacity
  objects : length q.timer_objects ≡ q.capacity
  time : (j : ℕ) → j < p.count → time_at q j ≡ time_at p j
  object : (j : ℕ) → j < p.count → object_at q j ≡ object_at p j
  same : q.timers ≡ p.timers

abbrev made_room : Pool → Pool
made_room p =
    let counted = record p { count = (p.count + 1) % 2 ^ 32 } in
    if leb p.capacity p.count then realloc counted else counted

made_room-Roomy : (p : Pool) → IsAllocated p → p.capacity < 2 ^ 31 → Roomy p (made_room p)
unfolding realloc
made_room-Roomy p v c =
    let one : (p.count + 1) % 2 ^ 32 ≡ p.count + 1 = omega (arith, v.within) in
    let twice : p.capacity * 2 % 2 ^ 32 ≡ p.capacity * 2 = omega arith in
    let low : length p.trigger_times ≤ p.capacity * 2 = omega (arith, v.times) in
    let low' : length p.timer_objects ≤ p.capacity * 2 = omega (arith, v.objects) in
    elim (Bool-cases (leb p.capacity p.count)) [
      | inl full ↦
          rw (full, one, realloc, twice)
            (record {
              counted = refl;
              room = omega (arith, v.within, v.some_room);
              times = length-extend (p.capacity * 2) p.trigger_times low;
              objects = length-extend (p.capacity * 2) p.timer_objects low';
              time = λ j l.
                  get_or-extend (p.capacity * 2) p.trigger_times j low
                    (omega (arith, v.times, v.within));
              object = λ j l.
                  get_or-extend (p.capacity * 2) p.timer_objects j low'
                    (omega (arith, v.objects, v.within));
              same = refl;
            })
      | inr free ↦
          rw (free, one)
            (record {
              counted = refl;
              room = ground arith;
              times = v.times;
              objects = v.objects;
              time = λ j l. refl;
              object = λ j l. refl;
              same = refl;
            })
    ]

get_or_new :
    {A : Type 0} (xs : List A) (i : ℕ) (v d : A) → i < length xs → get_or (set xs i v) i d ≡ v
get_or_new xs i v d h = get_or-set xs i i v d h ∙ rw (==_refl i) refl

get_or_old :
    {A : Type 0} (xs : List A) (i j : ℕ) (v d : A)
    → i < length xs
    → j < i
    → get_or (set xs i v) j d ≡ get_or xs j d
get_or_old xs i j v d h l =
    let apart : (i == j) ≡ false = ground arith in get_or-set xs i j v d h ∙ rw apart refl

-- Starting a timer, whether or not the pool has to grow, gives it the next place in the pool: there
-- stand the timer and the time of its first call, and the timer knows the place. The entries in use
-- before keep their times and their timers. The pool's arrays are as long as it says and not empty,
-- with less than 2^31 entries, and the timer is one of the process.
pub start_timer_lem :
    (now t : ℕ) (p : Pool)
    → IsAllocated p
    → p.capacity < 2 ^ 31
    → t < length p.timers
    → IsAllocated (start_timer now p t)
      × ((start_timer now p t).count ≡ p.count + 1)
      × ((timer_at (start_timer now p t) t).pool_index ≡ p.count)
      × (object_at (start_timer now p t) p.count ≡ t)
      × (time_at (start_timer now p t) p.count ≡ (now + (timer_at p t).period) % 2 ^ 64)
      × ((j : ℕ)
          → j < p.count
          → (time_at (start_timer now p t) j ≡ time_at p j)
            × (object_at (start_timer now p t) j ≡ object_at p j))
unfolding start_timer realloc
start_timer_lem now t p v c k =
    let q = made_room p in
    let r = made_room-Roomy p v c in
    let i = p.count in
    let time = (now + (timer_at q t).period) % 2 ^ 64 in
    let in_times : i < length q.trigger_times = omega (arith, r.times, r.room) in
    let in_objects : i < length q.timer_objects = omega (arith, r.objects, r.room) in
    (
      record {
        within = omega (arith, r.counted, r.room);
        times = length-set q.trigger_times i _ ∙ r.times;
        objects = length-set q.timer_objects i t ∙ r.objects;
        some_room = omega (arith, r.room);
      },
      r.counted,
      ap (λ (u : Timer). u.pool_index) (get_or_new q.timers t _ stopped (rw r.same k)),
      get_or_new q.timer_objects i t 0 in_objects,
      get_or_new q.trigger_times i _ 0 in_times,
      λ j l. (
        get_or_old q.trigger_times i j _ 0 in_times l ∙ r.time j l,
        get_or_old q.timer_objects i j t 0 in_objects l ∙ r.object j l,
      ),
    )
