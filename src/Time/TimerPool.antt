-- ===== src/Time/TimerPool.antt =====
-- src/common/time/timer.c and timer_pool.c: timers that call back when their time has come.
-- The timers stand in a list and a `Timer*` is an index into it; `clock_milliseconds()` is the
-- argument `now`. Memory: `trigger_times` and `timer_objects` have `capacity` entries each, of which
-- the first `count` are in use; a read outside of them gives 0, and a write changes nothing.
pub mod Start
pub mod Tally
pub mod Scan
pub mod Placed
mod Tests
use Prim.Native.Nat.{bit_and}
use eqp.Common.{
  ℕ, zero, suc, ◌+◌, ◌-◌, ◌*◌, ◌/◌, ◌%◌, ◌^◌, Bool, true, false, not, List, [], ◌∷◌, ◌++◌, length,
  get_or, set, take, replicate, ltb, leb, ◌==◌, if◌then◌else◌,
}

-- `INVALID_INDEX`
abbrev pub invalid_index : ℕ
invalid_index = 0xffffffff

-- `struct Timer`, less its callback and user data.
pub record Timer : Type 0 where
  pub pool_index : ℕ
  pub period : ℕ

abbrev pub stopped : Timer
stopped = record { pool_index = invalid_index; period = 0 }

-- `struct TimerPool`, with the timers of the process.
pub record Pool : Type 0 where
  pub capacity : ℕ
  pub count : ℕ
  pub trigger_times : List ℕ
  pub timer_objects : List ℕ
  pub triggered : List ℕ
  pub timers : List Timer

abbrev pub time_at : Pool → ℕ → ℕ
time_at p i = get_or p.trigger_times i 0

abbrev pub object_at : Pool → ℕ → ℕ
object_at p i = get_or p.timer_objects i 0

abbrev pub timer_at : Pool → ℕ → Timer
timer_at p t = get_or p.timers t stopped

abbrev pub set_time : Pool → ℕ → ℕ → Pool
set_time p i time = record p { trigger_times = set p.trigger_times i time }

abbrev pub set_index : Pool → ℕ → ℕ → Pool
set_index p t i = record p { timers = set p.timers t (record (timer_at p t) { pool_index = i }) }

-- `bit_get64(time, 63)`
abbrev pub is_dead : ℕ → Bool
is_dead time = leb (2 ^ 63) time

-- `time & bit_mask64(63)`
abbrev pub live_part : ℕ → ℕ
live_part time = time % 2 ^ 63

unfoldable pub realloc : Pool → Pool
realloc p =
    let c = p.capacity * 2 % 2 ^ 32 in
    record p {
      capacity = c;
      trigger_times = take c p.trigger_times ++ replicate (c - length p.trigger_times) 0;
      timer_objects = take c p.timer_objects ++ replicate (c - length p.timer_objects) 0;
    }

-- `timer_pool_internal_start_timer`
unfoldable pub start_timer : ℕ → Pool → ℕ → Pool
start_timer now p t =
    let index = p.count in
    let counted = record p { count = (p.count + 1) % 2 ^ 32 } in
    let q = if leb p.capacity index then realloc counted else counted in
    let placed = record q {
      trigger_times = set q.trigger_times index ((now + (timer_at p t).period) % 2 ^ 64);
      timer_objects = set q.timer_objects index t;
    } in
    set_index placed t index

-- `timer_pool_internal_restart_timer`
unfoldable pub restart_timer : ℕ → Pool → ℕ → Pool
restart_timer now p t =
    set_time p (timer_at p t).pool_index ((now + (timer_at p t).period) % 2 ^ 64)

-- `timer_pool_internal_delay_timer`
unfoldable pub delay_timer : Pool → (t milliseconds : ℕ) → Pool
delay_timer p t milliseconds =
    let i = (timer_at p t).pool_index in set_time p i ((time_at p i + milliseconds) % 2 ^ 64)

-- `timer_pool_internal_force_timer_trigger_next_cycle`
unfoldable pub force_timer : ℕ → Pool → ℕ → Pool
force_timer now p t = set_time p (timer_at p t).pool_index now

-- `timer_pool_internal_mark_timer_as_dead`
unfoldable pub mark_timer_as_dead : Pool → ℕ → Pool
mark_timer_as_dead p i =
    let time = time_at p i in set_time p i (if is_dead time then time else time + 2 ^ 63)

unfoldable pub timer_stop : Pool → ℕ → Pool
timer_stop p t =
    let i = (timer_at p t).pool_index in
    if i == invalid_index then p else mark_timer_as_dead (set_index p t invalid_index) i

unfoldable pub timer_restart : ℕ → Pool → ℕ → Pool
timer_restart now p t =
    if (timer_at p t).pool_index == invalid_index
    then start_timer now p t
    else restart_timer now p t

unfoldable pub timer_delay : Pool → (t milliseconds : ℕ) → Pool
timer_delay p t milliseconds =
    if (timer_at p t).pool_index == invalid_index then p else delay_timer p t milliseconds

unfoldable pub timer_force_trigger_on_next_cycle : ℕ → Pool → ℕ → Pool
timer_force_trigger_on_next_cycle now p t =
    force_timer now (if (timer_at p t).pool_index == invalid_index then start_timer now p t else p)
      t

unfoldable pub swap_and_pop : Pool → ℕ → Pool
swap_and_pop p index =
    let back = p.count - 1 in
    let q = record p { count = back } in
    let t = object_at p back in
    let moved = record q {
      timer_objects = set p.timer_objects index t;
      trigger_times = set p.trigger_times index (time_at p back);
    } in
    if back == index then q else set_index moved t index

-- The first loop of `timer_pool_execute_callbacks`: `rest` is `n - i`, which falls in every round.
unfoldable pub scan : ℕ → (rest i : ℕ) → Pool → Pool
scan now zero i p = p
scan now (suc rest) i p =
    let time = time_at p i in
    let due = record p { triggered = p.triggered ++ i ∷ [] } in
    if is_dead time
    then scan now rest i (swap_and_pop p i)
    else scan now rest (i + 1) (if leb (live_part time) now then due else p)

module _ (callback : ℕ → Pool → Pool) where
  -- `timer_pool_trigger`; the argument stands for the callback of a timer.
  unfoldable pub trigger : Pool → ℕ → Pool
  trigger p index =
      let t = object_at p index in
      callback t (set_time p index ((time_at p index + (timer_at p t).period) % 2 ^ 64))

  unfoldable pub trigger_all : List ℕ → Pool → Pool
  unfolding trigger
  trigger_all [] p = p
  trigger_all (i ∷ is) p = trigger_all is (trigger p i)

  unfoldable pub execute_callbacks : ℕ → Pool → Pool
  unfolding trigger_all scan
  execute_callbacks now p =
      let q = scan now p.count 0 p in
      if ltb 0 (length q.triggered)
      then record (trigger_all q.triggered q) { triggered = [] }
      else q
