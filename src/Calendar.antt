-- ===== src/Calendar.antt =====
-- Days and civil dates, each where the repository writes them out: who.rs of
-- crates/nocturnal-core/src, compact.rs of crates/nocturnal-store/src and raid_names.rs of
-- crates/nocturnal/src.
pub mod Eras
use nocturnal_discord.Prelude.{
  ℕ, zero, suc, ◌+◌, ◌-◌, ◌*◌, ◌/◌, ◌%◌, Bool, Option, none, some, ltb, leb, if◌then◌else◌, String,
}
use nocturnal_discord.Prelude.Int.{
  ℤ, pos, ltb_ℤ, ◌+ℤ◌, ◌*ℤ◌, add_i64, sub_i64, mul_i64, div_euclid, rem_euclid,
}
use nocturnal_discord.Prelude.Text.{pad_nat, show_int}
use Prim.Native.String.{◌++◌}

-- Days from the first of March to that of a month, March being 0.
abbrev pub month_start : ℕ → ℕ
month_start mp = (153 * mp + 2) / 5

-- Days of an era of 400 years before a year of it.
abbrev pub year_start : ℕ → ℕ
year_start yoe = yoe * 365 + yoe / 4 - yoe / 100

-- `days_from_civil`
unfoldable pub days_from_civil : ℤ → ℕ → ℤ → ℤ
unfolding div_euclid rem_euclid
days_from_civil year m d =
    let y = if leb m 2 then sub_i64 year (pos 1) else year in
    let era = div_euclid y 400 in
    let yoe = rem_euclid y 400 in
    let mp = if ltb 2 m then m - 3 else m + 9 in
    let doy = sub_i64 (add_i64 (pos (month_start mp)) d) (pos 1) in
    let doe = add_i64 (pos (year_start yoe)) doy in
    sub_i64 (add_i64 (mul_i64 era (pos 146_097)) doe) (pos 719_468)

-- The year of a day of an era.
abbrev pub year_of_era : ℕ → ℕ
year_of_era doe = (doe - doe / 1460 + doe / 36_524 - doe / 146_096) / 365

abbrev pub day_of_year : ℕ → ℕ
day_of_year doe = let yoe = year_of_era doe in doe - (365 * yoe + yoe / 4 - yoe / 100)

abbrev pub month_from_march : ℕ → ℕ
month_from_march doe = (5 * day_of_year doe + 2) / 153

abbrev pub month_number : ℕ → ℕ
month_number mp = if ltb mp 10 then mp + 3 else mp - 9

-- `year_month`. The day number of an `i64` of milliseconds is far from overflow.
unfoldable pub year_month : ℤ → ℤ × ℕ
unfolding div_euclid rem_euclid
year_month ts_ms =
    let z = div_euclid ts_ms 86_400_000 +ℤ pos 719_468 in
    let doe = rem_euclid z 146_097 in
    let m = month_number (month_from_march doe) in
    let y = pos (year_of_era doe) +ℤ div_euclid z 146_097 *ℤ pos 400 in
    (y +ℤ pos (if leb m 2 then 1 else 0), m)

-- `partition_name`
unfoldable pub partition_name : ℤ → String
unfolding year_month ◌+ℤ◌ ◌*ℤ◌ pad_nat show_int
partition_name ts_ms =
    let (y, m) = year_month ts_ms in show_int 4 y ++ "-" ++ pad_nat 2 m ++ ".parquet"

pub record Instant : Type 0 where
  pub year : ℕ
  pub month : ℕ
  pub day : ℕ
  pub hour : ℕ
  pub minute : ℕ
  pub second : ℕ

-- The fields that `rfc3339` prints, for a time that is not before the epoch.
unfoldable pub instant : ℕ → Instant
instant ms =
    let secs = ms / 1000 in
    let z = secs / 86_400 + 719_468 in
    let doe = z % 146_097 in
    let yoe = (doe - doe / 1460 + doe / 36_524 - doe / 146_096) / 365 in
    let doy = doe - (365 * yoe + yoe / 4 - yoe / 100) in
    let mp = (5 * doy + 2) / 153 in
    let m = if ltb mp 10 then mp + 3 else mp - 9 in
    let y = yoe + z / 146_097 * 400 in
    record {
      year = if leb m 2 then y + 1 else y;
      month = m;
      day = doy - (153 * mp + 2) / 5 + 1;
      hour = secs % 86_400 / 3600;
      minute = secs % 86_400 % 3600 / 60;
      second = secs % 86_400 % 60;
    }

unfoldable pub show_instant : Instant → String
unfolding pad_nat
show_instant i =
    pad_nat 4 i.year
    ++ "-"
    ++ pad_nat 2 i.month
    ++ "-"
    ++ pad_nat 2 i.day
    ++ "T"
    ++ pad_nat 2 i.hour
    ++ ":"
    ++ pad_nat 2 i.minute
    ++ ":"
    ++ pad_nat 2 i.second
    ++ "Z"

-- `rfc3339`
unfoldable pub rfc3339 : ℤ → Option String
unfolding instant show_instant
rfc3339 (pos ms) = some (show_instant (instant ms))
rfc3339 _ = none
