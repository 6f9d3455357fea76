-- ===== src/Calendar/Eras.antt =====
-- The civil date of a day, and back: who.rs, compact.rs and raid_names.rs.
use nocturnal_discord.Prelude.{
  ℕ, Bool, true, false, ◌+◌, ◌-◌, ◌*◌, ◌/◌, ◌%◌, ◌^◌, ◌≤◌, ◌<◌, ◌≡◌, refl, ap, ◌∙◌, arith, ltb, leb,
  if◌then◌else◌,
}
use nocturnal_discord.Prelude.Int.{ℤ, pos, add_i64, sub_i64, mul_i64, wrap_i64, ◌+ℤ◌, ◌-ℤ◌, ◌*ℤ◌}
use nocturnal_discord.Calendar.{
  month_start, year_start, days_from_civil, year_of_era, day_of_year, month_from_march,
  month_number, year_month, instant,
}

year_of_era_bound : (doe : ℕ) → doe < 146097 → year_of_era doe < 400
year_of_era_bound doe h = omega arith

year_start-le : (doe : ℕ) → doe < 146097 → year_start (year_of_era doe) ≤ doe
year_start-le doe h = omega arith

day_of_year-le : (doe : ℕ) → doe < 146097 → day_of_year doe ≤ 365
day_of_year-le doe h = omega arith

month_start-le : (doe : ℕ) → month_start (month_from_march doe) ≤ day_of_year doe
month_start-le doe = omega arith

add_pos : (a b : ℕ) → a + b < 2 ^ 63 → add_i64 (pos a) (pos b) ≡ pos (a + b)
unfolding add_i64 ◌+ℤ◌ wrap_i64
add_pos a b h = ground arith

sub_pos : (a b : ℕ) → b ≤ a → a < 2 ^ 63 → sub_i64 (pos a) (pos b) ≡ pos (a - b)
unfolding sub_i64 ◌-ℤ◌ wrap_i64
sub_pos a b h k = ground arith

mul_pos : (a : ℕ) → a * 146_097 < 2 ^ 63 → mul_i64 (pos a) (pos 146_097) ≡ pos (a * 146_097)
unfolding mul_i64 ◌*ℤ◌ wrap_i64
mul_pos a h = ground arith

pos_add : (a b : ℕ) → pos a +ℤ pos b ≡ pos (a + b)
unfolding ◌+ℤ◌
pos_add a b = ground arith

pos_mul : (a b : ℕ) → pos a *ℤ pos b ≡ pos (a * b)
unfolding ◌*ℤ◌
pos_mul a b = ground arith

-- For a day from March 0000 on, `days_from_civil` without the reduction to 64 bits.
abbrev march_year : ℕ → ℕ → ℕ
march_year y m = if leb m 2 then y - 1 else y

abbrev march_month : ℕ → ℕ
march_month m = if ltb 2 m then m - 3 else m + 9

abbrev era_days : ℕ → ℕ → ℕ → ℕ
era_days y m d =
    march_year y m / 400 * 146_097
    + (year_start (march_year y m % 400) + (month_start (march_month m) + d - 1))

march_year-pos :
    (y m : ℕ)
    → 1 ≤ y
    → y < 2 ^ 48
    → (if leb m 2 then sub_i64 (pos y) (pos 1) else pos y) ≡ pos (march_year y m)
march_year-pos y m h k = ground (arith, sub_pos y 1)

march_year-lt : (y m : ℕ) → y < 2 ^ 48 → march_year y m < 2 ^ 48
march_year-lt y m h = ground arith

march_month-lt : (m : ℕ) → m ≤ 12 → march_month m < 22
march_month-lt m h = ground arith

-- From March of the year 0 up to a far year nothing overflows.
days_from_civil-pos :
    (y m d : ℕ)
    → 1 ≤ y
    → y < 2 ^ 48
    → m ≤ 12
    → 1 ≤ d
    → d ≤ 31
    → 719_468 ≤ era_days y m d
    → days_from_civil (pos y) m (pos d) ≡ pos (era_days y m d - 719_468)
unfolding days_from_civil
days_from_civil-pos y m d h1 h2 h4 h5 h6 h7 =
    let hy : march_year y m < 2 ^ 48 = march_year-lt y m h2 in
    let hm : march_month m < 22 = march_month-lt m h4 in
    rw (
      march_year-pos y m h1 h2,
      add_pos (month_start (march_month m)) d (omega arith),
      sub_pos (month_start (march_month m) + d) 1 (omega arith) (omega arith),
      add_pos (year_start (march_year y m % 400)) (month_start (march_month m) + d - 1)
          (omega arith),
      mul_pos (march_year y m / 400) (omega arith),
      add_pos (march_year y m / 400 * 146_097)
          (year_start (march_year y m % 400) + (month_start (march_month m) + d - 1)) (omega arith),
      sub_pos (era_days y m d) 719_468 h7 (omega arith),
    )

era_year : (e a : ℕ) → a < 400 → (a + e * 400) / 400 ≡ e
era_year e a h = omega arith

era_rest : (e a : ℕ) → a < 400 → (a + e * 400) % 400 ≡ a
era_rest e a h = omega arith

if_suc-lt : {n : ℕ} → (b : Bool) (y : ℕ) → y + 1 < n → (if b then y + 1 else y) < n
if_suc-lt true y h = h
if_suc-lt false y h = omega arith

if_suc-add : (b : Bool) (y : ℕ) → y + (if b then 1 else 0) ≡ (if b then y + 1 else y)
if_suc-add true y = refl
if_suc-add false y = omega arith

year_and_month :
    (e : ℕ) (b : Bool) (m : ℕ)
    → Path (ℤ × ℕ) (pos e +ℤ pos (if b then 1 else 0), m) (pos (if b then e + 1 else e), m)
year_and_month e b m = ap (λ y. (y, m)) (pos_add e (if b then 1 else 0) ∙ ap pos (if_suc-add b e))

module _ (ms : ℕ) where
  day : ℕ
  day = ms / 1000 / 86_400 + 719_468

  doe : ℕ
  doe = day % 146_097

  instant-march_year :
      march_year (instant ms).year (instant ms).month ≡ year_of_era doe + day / 146_097 * 400
  unfolding instant day doe
  instant-march_year = ground arith

  instant-march_month : march_month (instant ms).month ≡ month_from_march doe
  unfolding instant day doe
  instant-march_month = ground arith

  doe-lt : doe < 146_097
  unfolding doe
  doe-lt = omega arith

  doe-split : year_start (year_of_era doe) + day_of_year doe ≡ doe
  doe-split = omega (arith, year_start-le doe doe-lt)

  instant-day : (instant ms).day ≡ day_of_year doe - month_start (month_from_march doe) + 1
  unfolding instant day doe
  instant-day = refl

  instant-day-days : month_start (month_from_march doe) + (instant ms).day - 1 ≡ day_of_year doe
  instant-day-days = omega (arith, instant-day, month_start-le doe)

  day-split : day / 146_097 * 146_097 + doe ≡ ms / 86_400_000 + 719_468
  unfolding day doe
  day-split = omega arith

  instant-era_days :
      era_days (instant ms).year (instant ms).month (instant ms).day ≡ ms / 86_400_000 + 719_468
  instant-era_days = rw (
    instant-march_year,
    instant-march_month,
    instant-day-days,
    era_year (day / 146_097) (year_of_era doe) (year_of_era_bound doe doe-lt),
    era_rest (day / 146_097) (year_of_era doe) (year_of_era_bound doe doe-lt),
    doe-split,
    day-split,
  )

  instant-IsDate :
      1 ≤ (instant ms).month
      × (instant ms).month ≤ 12
      × 1 ≤ (instant ms).day
      × (instant ms).day ≤ 31
  unfolding instant
  instant-IsDate = ground arith

  instant-year-pos : 1 ≤ (instant ms).year
  unfolding instant
  instant-year-pos = ground arith

  instant-year-lt : ms < 2 ^ 62 → (instant ms).year < 2 ^ 48
  unfolding instant
  instant-year-lt h =
      if_suc-lt (leb (month_number (month_from_march ((ms / 1000 / 86400 + 719468) % 146097))) 2)
        (year_of_era ((ms / 1000 / 86400 + 719468) % 146097)
          + (ms / 1000 / 86400 + 719468) / 146097 * 400)
        (omega arith)

-- Of a time from the epoch on, below 2 ^ 62 milliseconds, `rfc3339` prints the date from which
-- `days_from_civil` counts the day that the time is on.
pub days_from_civil-instant :
    (ms : ℕ)
    → ms < 2 ^ 62
    → days_from_civil (pos (instant ms).year) (instant ms).month (pos (instant ms).day)
      ≡ pos (ms / 86_400_000)
days_from_civil-instant ms h =
    let (_, m_le, d_pos, d_le) = instant-IsDate ms in
    days_from_civil-pos (instant ms).year (instant ms).month (instant ms).day (instant-year-pos ms)
      (instant-year-lt ms h) m_le d_pos d_le (omega (arith, instant-era_days ms))
    ∙ ap pos (omega (arith, instant-era_days ms))

-- Of a time from the epoch on, `year_month` of the store and `rfc3339` of the driver find the same
-- year and month.
pub year_month-instant :
    (ms : ℕ) → year_month (pos ms) ≡ (pos (instant ms).year, (instant ms).month)
unfolding year_month instant
year_month-instant ms =
    let same : ms / 86_400_000 ≡ ms / 1000 / 86_400 = omega arith in
    rw
      (
        pos_add (ms / 86_400_000) 719_468,
        same,
        pos_mul ((ms / 1000 / 86_400 + 719_468) / 146_097) 400,
        pos_add (year_of_era ((ms / 1000 / 86_400 + 719_468) % 146_097))
            ((ms / 1000 / 86_400 + 719_468) / 146_097 * 400),
      )
      (year_and_month
        ((year_of_era ((ms / 1000 / 86_400 + 719_468) % 146_097))
          + ((ms / 1000 / 86_400 + 719_468) / 146_097 * 400))
        (leb (month_number (month_from_march ((ms / 1000 / 86_400 + 719_468) % 146_097))) 2)
        (month_number (month_from_march ((ms / 1000 / 86_400 + 719_468) % 146_097))))
