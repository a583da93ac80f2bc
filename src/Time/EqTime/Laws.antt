-- ===== src/Time/EqTime/Laws.antt =====
-- The ranges of a date, and the minutes that it stands for.
use eqp.Common.{
  ℕ, ◌+◌, ◌-◌, ◌*◌, ◌/◌, ◌%◌, ◌^◌, ◌≤◌, ◌<◌, ◌≡◌, List, [], ◌∷◌, some, take, length, get_or, leb,
  Bool-cases, inl, inr, arith, zero, suc, length, ap,
}
use eqp.Time.EqTime.{EqTime, days_in_month, find_month, calc, minutes_per_day, minutes_per_year}

abbrev pub sum : List ℕ → ℕ
sum [] = 0
sum (x ∷ xs) = x + sum xs

-- What the search through the months `ms` that follow month `i` finds for a day among theirs.
record Found (ms : List ℕ) (i day : ℕ) (k d : ℕ) : Type 0 where
  result : find_month ms i day ≡ (some (i + 1 + k), d)
  first : 1 ≤ d
  last : d ≤ get_or ms k 0
  place : day ≡ sum (take k ms) + d
  listed : k < length ms

find_month_lem : (ms : List ℕ) (i day : ℕ) → 1 ≤ day → day ≤ sum ms → (k d : ℕ) × Found ms i day k d
unfolding find_month
find_month_lem [] i day h g = absurd (omega arith)
find_month_lem (m ∷ ms) i day h g = elim (Bool-cases (leb day m)) [
  | inl here ↦ (
    0,
    day,
    record {
      result = ground arith;
      first = h;
      last = ground arith;
      place = omega arith;
      listed = omega arith;
    },
  )
  | inr later ↦
      let (k, d, f) = find_month_lem ms (i + 1) (day - m) (ground arith) (ground arith) in
      (
        suc k,
        d,
        record {
          result = ground (arith, f.result);
          first = f.first;
          last = f.last;
          place = ground (arith, f.place);
          listed = omega (arith, f.listed);
        },
      )
]

abbrev AllLe : ℕ → List ℕ → Type 0
AllLe b [] = Unit
AllLe b (x ∷ xs) = (x ≤ b) × AllLe b xs

get_or-le : (xs : List ℕ) (i b : ℕ) → AllLe b xs → get_or xs i 0 ≤ b
get_or-le [] i b h = omega arith
get_or-le (x ∷ xs) zero b h = h.0
get_or-le (x ∷ xs) (suc i) b h = get_or-le xs i b h.1

-- The minute of the calendar that a date stands for.
abbrev pub minutes_of : EqTime → ℕ → ℕ
minutes_of t month =
    ((t.year * 365 + sum (take (month - 1) days_in_month) + (t.day - 1)) * 24 + t.hour) * 60
    + t.minute

-- From the base on, for 65536 years, every component is in range, and together they give back the
-- number of whole game minutes since the base.
pub calc_lem :
    (now base : ℕ)
    → base ≤ now
    → now < 2 ^ 64
    → (now - base) / 3 < 2 ^ 16 * minutes_per_year
    → let t = calc now base in
      (month : ℕ) × (t.month ≡ some month)
      × (1 ≤ month)
      × (month ≤ 12)
      × (1 ≤ t.day)
      × (t.day ≤ get_or days_in_month (month - 1) 0)
      × (t.hour < 24)
      × (t.minute < 60)
      × (minutes_of t month ≡ (now - base) / 3)
unfolding calc
calc_lem now base h g k =
    let eq = (now - base) / 3 in
    let (i, d, f) =
      find_month_lem days_in_month 0 (eq % minutes_per_year / minutes_per_day + 1) (omega arith)
        (omega arith) in
    let whole : (now + 2 ^ 64 - base) % 2 ^ 64 / 3 ≡ eq = omega arith in
    let short : d % 256 ≡ d = omega (arith, f.last, get_or-le days_in_month i 31 (omega arith)) in
    let place : i + 1 - 1 ≡ i = omega arith in
    rw (whole, f.result, short)
      (
        i + 1,
        ap some (omega arith),
        omega arith,
        omega (arith, f.listed),
        f.first,
        rw place f.last,
        omega arith,
        omega arith,
        rw place (omega (arith, f.place, f.first)),
      )
