-- ===== src/State/Attendance.antt =====
-- `attendance_pct` and `average_attendance` of crates/nocturnal-core/src/state.rs.
use nocturnal_discord.Prelude.{
  ℕ, ◌+◌, Bool, true, false, Option, none, some, List, [], map, String, ◌==◌, ◌||◌, ltb, compare,
  Ordering, if◌then◌else◌, not,
}
use nocturnal_discord.Prelude.Int.{ℤ, pos, ltb_ℤ, add_i64, div_euclid}
use nocturnal_discord.Prelude.Lists.{any, take, drop, length, is_nil, sort_by}
use nocturnal_discord.Prelude.OrdMap
use nocturnal_discord.Prelude.OrdMap.{OrdMap, same, text_key, int_key}
use nocturnal_discord.Event.{PlayerId, F64}
use nocturnal_discord.Platform.{Platform}
use nocturnal_discord.State.{GuildState, Raid, AttendanceEntry, raiding_players}
use mathlib.Core.List.{foldl, reverse}

abbrev pub week_ms : ℕ
week_ms = 604_800_000

-- Ticks attended and ticks held, by week.
abbrev pub Weeks : Type 0
Weeks = OrdMap ℤ (ℕ × ℕ)

unfoldable pub is_tick : AttendanceEntry → Bool
is_tick e = same e.comment "Tick" || same e.comment "Start"

-- The bucket of a timestamp: the weeks begin on Mondays.
unfoldable pub week_of : ℤ → ℤ
unfolding add_i64 div_euclid
week_of ts_ms = div_euclid (add_i64 ts_ms (pos 259_200_000)) week_ms

unfoldable pub count_entry : PlayerId → ℤ → Weeks → AttendanceEntry → Weeks
unfolding is_tick week_of
count_entry player now_ms weeks e =
    if ltb_ℤ now_ms e.ts_ms || not (is_tick e)
    then weeks
    else OrdMap.upsert weeks (week_of e.ts_ms) (0, 0)
        (λ w. (if any (λ q. q == player) e.players then w.0 + 1 else w.0, w.1 + 1))

unfoldable pub count_raid : PlayerId → ℤ → Weeks → String × Raid → Weeks
unfolding count_entry
count_raid player now_ms weeks (_, raid) = foldl (count_entry player now_ms) weeks raid.entries

-- The weeks with a raid, each with the ticks attended and held.
unfoldable pub weeks_of : GuildState → PlayerId → ℤ → Weeks
unfolding count_raid
weeks_of g player now_ms = foldl (count_raid player now_ms) [] g.raids

unfoldable pub add_week : ℕ × ℕ → ℕ × ℕ → ℕ × ℕ
add_week acc w = (acc.0 + w.0, acc.1 + w.1)

module _ (p : Platform) where
  unfoldable pub pct : ℕ × ℕ → F64
  pct w = p.div_f64 (p.f64_of w.0) (p.f64_of w.1)

  -- Lower percentage first, then more ticks held.
  unfoldable pub worse_first : ℕ × ℕ → ℕ × ℕ → Bool
  unfolding pct
  worse_first a b = elim (p.total_cmp (pct a) (pct b)) [
    | Ordering.lt ↦ true
    | Ordering.gt ↦ false
    | Ordering.eq ↦ elim (compare b.1 a.1) [ Ordering.gt ↦ false | _ ↦ true ]
  ]

  -- The ten latest weeks, without the two worst if there are more than eight.
  unfoldable pub kept_weeks : Weeks → List (ℕ × ℕ)
  unfolding worse_first sort_by
  kept_weeks weeks =
      let recent = take 10 (reverse (map (λ e. e.1) weeks)) in
      if ltb 8 (length recent) then drop 2 (sort_by worse_first recent) else recent

  -- `GuildState::attendance_pct`
  unfoldable pub attendance_pct : GuildState → PlayerId → ℤ → F64
  unfolding weeks_of kept_weeks add_week
  attendance_pct g player now_ms =
      let weeks = weeks_of g player now_ms in
      let total = foldl add_week (0, 0) (kept_weeks weeks) in
      if is_nil weeks
      then p.f64_of 100
      else p.floor_f64 (p.mul_f64 (p.div_f64 (p.f64_of total.0) (p.f64_of total.1)) (p.f64_of 100))

  -- `GuildState::average_attendance`
  unfoldable pub average_attendance : GuildState → ℤ → Option F64
  unfolding attendance_pct raiding_players
  average_attendance g now_ms =
      let pcts = map (λ e. attendance_pct g e.0 now_ms) (raiding_players g now_ms) in
      if is_nil pcts
      then none
      else some (p.div_f64 (foldl p.add_f64 (p.f64_of 0) pcts) (p.f64_of (length pcts)))
