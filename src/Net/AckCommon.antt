-- ===== src/Net/AckCommon.antt =====
-- src/non_master/net/ack_common.c: where a sequence number stands to the one expected.
use eqp.Common.{
  ℕ, ◌+◌, ◌-◌, ◌%◌, ◌^◌, ◌≤◌, ◌<◌, ◌≡◌, ◌&&◌, ◌||◌, ltb, leb, ◌==◌, if◌then◌else◌, arith,
}

pub data AckRelativity : Type 0 where
  present future past : AckRelativity

-- `EQP_ACK_WINDOW_HALF_SIZE`
abbrev pub half_size : ℕ
half_size = 1024

-- The arguments are `uint16_t` and the comparisons are made on `int`: below 0 there is no `got`.
unfoldable pub ack_compare : ℕ → ℕ → AckRelativity
ack_compare got expected =
    if got == expected
    then present
    else if ltb expected got && ltb got (expected + half_size)
        || leb half_size expected && ltb got (expected - half_size)
    then future
    else past

-- Sequence numbers go round at 2^16. A number that is ahead of the expected one by less than half
-- the window is of the future, and one that is behind by at most half the window, which is 1024, is
-- of the past, also where the numbers go round in between.
pub ack_compare_window :
    (expected k : ℕ)
    → expected < 2 ^ 16
    → 0 < k
    → k ≤ half_size
    → (k < half_size → ack_compare ((expected + k) % 2 ^ 16) expected ≡ future)
      × (ack_compare ((expected + 2 ^ 16 - k) % 2 ^ 16) expected ≡ past)
unfolding ack_compare
ack_compare_window expected k h p g = (λ l. ground arith, ground arith)

-- Only the expected number itself is present.
pub ack_compare-present : (got expected : ℕ) → ack_compare got expected ≡ present → got ≡ expected
unfolding ack_compare
ack_compare-present got expected h = ground arith

-- Half the window and more above the expected number is past; more than half of it below is future.
pub ack_compare_far :
    (got expected : ℕ)
    → expected + half_size ≤ got
    → (ack_compare got expected ≡ past) × (ack_compare expected (got + 1) ≡ future)
unfolding ack_compare
ack_compare_far got expected h = (ground arith, ground arith)
