-- ===== src/Time/TimerPool/Tests.antt =====
-- A pool of four timers, two of them stopped, and a pool that has to grow.
use eqp.Common.{
  get_or, sym, ◌∙◌, zero, suc, ℕ, Bool, ◌+◌, ◌^◌, ◌<◌, ◌≡◌, refl, false, [], ◌∷◌, arith,
}
use eqp.Time.TimerPool.{
  Pool, Timer, stopped, time_at, object_at, timer_at, is_dead, scan, start_timer, swap_and_pop,
}
use eqp.Time.TimerPool.Scan.{due, scan_lem}
use eqp.Time.TimerPool.Tally.{tally}
use eqp.Time.TimerPool.Placed.{IsPlaced, scan-IsPlaced}
use eqp.Time.TimerPool.Start.{IsAllocated, start_timer_lem}

abbrev running : ℕ → Timer
running i = record { pool_index = i; period = 100 }

abbrev pool : Pool
pool = record {
  capacity = 4;
  count = 4;
  trigger_times = 500 ∷ (2 ^ 63 + 300) ∷ (2 ^ 63 + 400) ∷ 550 ∷ [];
  timer_objects = 0 ∷ 1 ∷ 2 ∷ 3 ∷ [];
  triggered = [];
  timers = running 0 ∷ stopped ∷ stopped ∷ running 3 ∷ stopped ∷ [];
}

scan-pool : (scan 600 4 0 pool).triggered ≡ 0 ∷ 1 ∷ []
unfolding scan swap_and_pop
scan-pool = refl

scan_example :
    ((j : ℕ) → j < (scan 600 4 0 pool).count → is_dead (time_at (scan 600 4 0 pool) j) ≡ false)
    × ((f : ℕ → ℕ → Bool)
        → tally f (scan 600 4 0 pool).count 0 (scan 600 4 0 pool) ≡ tally f 4 0 pool)
    × ((scan 600 4 0 pool).triggered ≡ due 600 (scan 600 4 0 pool).count 0 (scan 600 4 0 pool))
scan_example = scan_lem 600 pool (omega arith) (omega arith) refl

-- Timer 2 was stopped and started again, so that it has two entries: its running one goes to place 0,
-- and the timer is told place 1.
abbrev twice : Pool
twice = record pool {
  trigger_times = (2 ^ 63 + 1) ∷ (2 ^ 63 + 2) ∷ (2 ^ 63 + 3) ∷ 900 ∷ [];
  timer_objects = 0 ∷ 1 ∷ 2 ∷ 2 ∷ [];
  timers = stopped ∷ stopped ∷ running 3 ∷ [];
}

scan-twice :
    ((scan 600 4 0 twice).count ≡ 1)
    × (object_at (scan 600 4 0 twice) 0 ≡ 2)
    × ((timer_at (scan 600 4 0 twice) 2).pool_index ≡ 1)
unfolding scan swap_and_pop
scan-twice = (refl, refl, refl)

pool-IsPlaced : IsPlaced pool
pool-IsPlaced = record {
  times = omega arith;
  objects = omega arith;
  inside = λ j l.
      by_index j (λ k. get_or pool.timer_objects k 0 < 5) (omega arith) (omega arith) (omega arith)
        (omega arith) l;
  apart = λ j k a b e. sym (own_number j a) ∙ e ∙ own_number k b;
  placed = λ j l.
      by_index j
        (λ k. is_dead (time_at pool k) ≡ false → (timer_at pool (object_at pool k)).pool_index ≡ k)
        (λ e. refl) (λ e. absurd (cc)) (λ e. absurd (cc)) (λ e. refl) l;
}
  where
    by_index : (j : ℕ) (P : ℕ → Type 0) → P 0 → P 1 → P 2 → P 3 → j < 4 → P j
    by_index zero P a b c d l = a
    by_index (suc zero) P a b c d l = b
    by_index (suc (suc zero)) P a b c d l = c
    by_index (suc (suc (suc zero))) P a b c d l = d
    by_index (suc (suc (suc (suc j)))) P a b c d l = absurd (omega arith)

    own_number : (j : ℕ) → j < 4 → object_at pool j ≡ j
    own_number j l = by_index j (λ k. object_at pool k ≡ k) refl refl refl refl l

placed_example :
    IsPlaced (scan 600 4 0 pool)
    × ((j : ℕ)
        → j < (scan 600 4 0 pool).count
        → (timer_at (scan 600 4 0 pool) (object_at (scan 600 4 0 pool) j)).pool_index ≡ j)
placed_example = scan-IsPlaced 600 pool pool-IsPlaced refl

pool-IsAllocated : IsAllocated pool
pool-IsAllocated = omega arith

start_example :
    IsAllocated (start_timer 600 pool 4)
    × ((start_timer 600 pool 4).count ≡ 5)
    × ((timer_at (start_timer 600 pool 4) 4).pool_index ≡ 4)
    × (object_at (start_timer 600 pool 4) 4 ≡ 4)
    × (time_at (start_timer 600 pool 4) 4 ≡ 600)
    × ((j : ℕ)
        → j < 4
        → (time_at (start_timer 600 pool 4) j ≡ time_at pool j)
          × (object_at (start_timer 600 pool 4) j ≡ object_at pool j))
start_example = start_timer_lem 600 4 pool pool-IsAllocated (omega arith) (omega arith)
