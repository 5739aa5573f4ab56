-- ===== src/Ledger/Dates.antt =====
-- The clock of run_ledger.rs from 1970 on: seconds and days since then are natural numbers, so that
-- the branches for negative days are not reached. The bounds of an i64 are far off and left out.
use nopal.Prelude.{
  ℕ, ◌+◌, ◌-◌, ◌*◌, ◌/◌, ◌%◌, ◌≤◌, ◌<◌, ◌≡◌, true, false, inl, inr, ltb, leb, if◌then◌else◌, arith,
  Bool-cases,
}

pub record Civil : Type 0 where
  pub year : ℕ
  pub month : ℕ
  pub day : ℕ

-- The year of an era of 400 years that one of its days is in, and the day in that year, which runs
-- from March on.
unfoldable pub year_of_era : ℕ → ℕ
year_of_era doe = (doe - doe / 1460 + doe / 36524 - doe / 146096) / 365

unfoldable pub day_of_year : ℕ → ℕ → ℕ
day_of_year doe yoe = doe - (365 * yoe + yoe / 4 - yoe / 100)

-- A date from the year, from March on, and the day in it.
unfoldable pub civil_of_year : ℕ → ℕ → Civil
civil_of_year y doy =
    let mp = (5 * doy + 2) / 153 in
    let m = if ltb mp 10 then mp + 3 else mp - 9 in
    record { year = if leb m 2 then y + 1 else y; month = m; day = doy - (153 * mp + 2) / 5 + 1 }

unfoldable pub civil_from_days : ℕ → Civil
civil_from_days days =
    let z = days + 719468 in
    let era = z / 146097 in
    let doe = z - era * 146097 in
    let yoe = year_of_era doe in civil_of_year (yoe + era * 400) (day_of_year doe yoe)

unfoldable pub days_from_civil : ℕ → ℕ → ℕ → ℕ
days_from_civil year m d =
    let y = if leb m 2 then year - 1 else year in
    let era = y / 400 in
    let yoe = y - era * 400 in
    let doy = (153 * (if ltb 2 m then m - 3 else m + 9) + 2) / 5 + d - 1 in
    let doe = yoe * 365 + yoe / 4 - yoe / 100 + doy in era * 146097 + doe - 719468

pub record CivilTime : Type 0 where
  pub date : Civil
  pub hour : ℕ
  pub minute : ℕ
  pub second : ℕ

unfoldable pub civil_time : ℕ → CivilTime
civil_time epoch_secs =
    let secs = epoch_secs % 86400 in
    record {
      date = civil_from_days (epoch_secs / 86400);
      hour = secs / 3600;
      minute = secs / 60 % 60;
      second = secs % 60;
    }

-- What `epoch_from_iso` makes of the six numbers.
unfoldable pub epoch_of : CivilTime → ℕ
epoch_of t =
    days_from_civil t.date.year t.date.month t.date.day * 86400
    + t.hour * 3600
    + t.minute * 60
    + t.second

-- The year in an era, and the days before it in the era.
year_of_era_bound : (doe : ℕ) → doe < 146097 → year_of_era doe < 400
unfolding year_of_era
year_of_era_bound doe h = omega arith

year_of_era_start :
    (doe : ℕ)
    → doe < 146097
    → 365 * year_of_era doe + year_of_era doe / 4 - year_of_era doe / 100 ≤ doe
unfolding year_of_era
year_of_era_start doe h = omega arith

day_of_year_bound : (doe : ℕ) → doe < 146097 → day_of_year doe (year_of_era doe) ≤ 365
unfolding year_of_era day_of_year
day_of_year_bound doe h = omega arith

-- The date of a day in a year, and the way back.
civil_of_year_bounds :
    (y doy : ℕ)
    → doy ≤ 365
    → (1 ≤ (civil_of_year y doy).month)
      × ((civil_of_year y doy).month ≤ 12)
      × (1 ≤ (civil_of_year y doy).day)
      × ((civil_of_year y doy).day ≤ 31)
unfolding civil_of_year
civil_of_year_bounds y doy h = elim (Bool-cases (ltb ((5 * doy + 2) / 153) 10)) [
  | inl e ↦ rw e (ground (arith, e), ground (arith, e), omega arith, omega arith)
  | inr e ↦ rw e (ground (arith, e), ground (arith, e), omega arith, omega arith)
]

days_from_civil_of_year :
    (era yoe doy : ℕ)
    → yoe < 400
    → doy ≤ 365
    → days_from_civil
        (civil_of_year (yoe + era * 400) doy).year
        (civil_of_year (yoe + era * 400) doy).month
        (civil_of_year (yoe + era * 400) doy).day
      ≡ era * 146097 + (yoe * 365 + yoe / 4 - yoe / 100 + doy) - 719468
unfolding civil_of_year days_from_civil
days_from_civil_of_year era yoe doy h k = elim (Bool-cases (ltb ((5 * doy + 2) / 153) 10)) [
  | inl e ↦
      let mp = (5 * doy + 2) / 153 in
      let small : mp < 10 = ground (arith, e) in
      let low : leb (mp + 3) 2 ≡ false = ground arith in
      let high : ltb 2 (mp + 3) ≡ true = ground arith in rw (e, low, high) (omega (arith, small))
  | inr e ↦
      let mp = (5 * doy + 2) / 153 in
      let big : 10 ≤ mp = ground (arith, e) in
      let low : leb (mp - 9) 2 ≡ true = ground (arith, big) in
      let high : ltb 2 (mp - 9) ≡ false = ground (arith, big) in
      rw (e, low, high) (omega (arith, big))
]

days_from_civil_from_days :
    (days : ℕ)
    → days_from_civil
        (civil_from_days days).year
        (civil_from_days days).month
        (civil_from_days days).day
      ≡ days
unfolding civil_from_days
days_from_civil_from_days days =
    let era = (days + 719468) / 146097 in
    let doe = days + 719468 - era * 146097 in
    let yoe = year_of_era doe in
    let small : doe < 146097 = omega arith in
    let start = year_of_era_start doe small in
    rw
      (days_from_civil_of_year era yoe (day_of_year doe yoe) (year_of_era_bound doe small)
        (day_of_year_bound doe small))
      (unfold day_of_year in omega (arith, start))

civil_from_days_bounds :
    (days : ℕ)
    → (1 ≤ (civil_from_days days).month)
      × ((civil_from_days days).month ≤ 12)
      × (1 ≤ (civil_from_days days).day)
      × ((civil_from_days days).day ≤ 31)
unfolding civil_from_days
civil_from_days_bounds days =
    let era = (days + 719468) / 146097 in
    let doe = days + 719468 - era * 146097 in
    civil_of_year_bounds (year_of_era doe + era * 400) (day_of_year doe (year_of_era doe))
      (day_of_year_bound doe (omega arith))

-- A date that the clock can show.
abbrev pub InRange : CivilTime → Type 0
InRange t =
    ((1 ≤ t.date.month) × (t.date.month ≤ 12) × (1 ≤ t.date.day) × (t.date.day ≤ 31))
    × (t.hour < 24)
    × (t.minute < 60)
    × (t.second < 60)

-- From 1970 on, the date and time of any second are in their ranges, and give that second back.
pub civil_time_bounds : (secs : ℕ) → InRange (civil_time secs) × (epoch_of (civil_time secs) ≡ secs)
unfolding civil_time epoch_of
civil_time_bounds secs = (
  (civil_from_days_bounds (secs / 86400), omega arith, omega arith, omega arith),
  rw (days_from_civil_from_days (secs / 86400)) (omega arith),
)
