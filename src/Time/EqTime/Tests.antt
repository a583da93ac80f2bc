-- ===== src/Time/EqTime/Tests.antt =====
-- The date on the third of March of the second year.
use eqp.Common.{ℕ, ◌+◌, ◌-◌, ◌*◌, ◌≤◌, ◌<◌, ◌≡◌, refl, some, get_or, arith}
use eqp.Time.EqTime.{calc, find_month, days_in_month}
use eqp.Time.EqTime.Laws.{calc_lem, minutes_of}

abbrev base : ℕ
base = 1400000000

abbrev now : ℕ
now = base + 3 * (1440 * (365 + 31 + 28 + 2) + 61) + 2

calc_example :
    (month : ℕ) × ((calc now base).month ≡ some month)
    × (1 ≤ month)
    × (month ≤ 12)
    × (1 ≤ (calc now base).day)
    × ((calc now base).day ≤ get_or days_in_month (month - 1) 0)
    × ((calc now base).hour < 24)
    × ((calc now base).minute < 60)
    × (minutes_of (calc now base) month ≡ 613501)
calc_example = calc_lem now base (omega arith) (omega arith) (omega arith)

calc-now : calc now base ≡ record { hour = 1; minute = 1; day = 3; month = some 3; year = 1 }
unfolding calc find_month
calc-now = refl
