-- ===== src/Tests/Dates.antt =====
-- The theorems on dates at concrete inputs, and the instants that the source's tests name.
use nocturnal_discord.Prelude.{◌/◌, ◌≡◌, refl, some, arith}
use nocturnal_discord.Prelude.Int.{pos, negsuc, div_euclid, rem_euclid, ◌+ℤ◌, ◌*ℤ◌}
use nocturnal_discord.Prelude.Text.{pad_nat, show_int, zeros, text_length}
use nocturnal_discord.Calendar.{
  days_from_civil, instant, show_instant, rfc3339, year_month, partition_name,
}
use nocturnal_discord.Calendar.Eras.{days_from_civil-instant, year_month-instant}

days_from_civil-instant_example :
    days_from_civil
      (pos (instant 1_700_387_572_000).year)
      (instant 1_700_387_572_000).month
      (pos (instant 1_700_387_572_000).day)
    ≡ pos (1_700_387_572_000 / 86_400_000)
days_from_civil-instant_example = days_from_civil-instant 1_700_387_572_000 (omega arith)

year_month-instant_example :
    year_month (pos 1_700_387_572_000)
    ≡ (pos (instant 1_700_387_572_000).year, (instant 1_700_387_572_000).month)
year_month-instant_example = year_month-instant 1_700_387_572_000

rfc3339-2023 : rfc3339 (pos 1_700_387_572_000) ≡ some "2023-11-19T09:52:52Z"
unfolding rfc3339 instant show_instant pad_nat zeros text_length
rfc3339-2023 = refl

-- One millisecond before the epoch is in December 1969.
partition_name-1969 : partition_name (negsuc 0) ≡ "1969-12.parquet"
unfolding partition_name year_month div_euclid rem_euclid ◌+ℤ◌ ◌*ℤ◌ show_int pad_nat zeros
    text_length
partition_name-1969 = refl
