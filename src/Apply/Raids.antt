-- ===== src/Apply/Raids.antt =====
-- The raid handlers of crates/nocturnal-core/src/apply.rs.
use nocturnal_discord.Prelude.{
  ℕ, ◌%◌, ◌^◌, Bool, true, false, Option, none, some, List, [], ◌∷◌, ◌++◌, map, String, ◌&&◌,
  if◌then◌else◌,
}
use nocturnal_discord.Prelude.Int.{ℤ, pos, leb_ℤ, eqb_ℤ, min_ℤ, add_i64}
use nocturnal_discord.Prelude.Lists.{any, length, sort_by}
use nocturnal_discord.Prelude.OrdMap
use nocturnal_discord.Prelude.OrdMap.{OrdMap, same, nat_key, text_key}
use nocturnal_discord.Event.{PlayerId, RaidRef, RaidKill, ImportedRaid, ImportedAttendance}
use nocturnal_discord.State.{GuildState, Player, LogEntry, Raid, AttendanceEntry, default_player}
use mathlib.Core.List.{foldl}

unfoldable pub new_player : ℤ → Player
new_player ts_ms = record default_player { creation_ts_ms = ts_ms }

-- A change of the balance and the line of the log that goes with it.
unfoldable pub post : LogEntry → Player → Player
unfolding add_i64
post e p = record p { balance = add_i64 p.balance e.dkp; log = p.log ++ e ∷ [] }

-- `g.players.entry(player).or_insert_with(|| new_player(ts))`, then the change.
unfoldable pub credit : ℤ → LogEntry → OrdMap PlayerId Player → PlayerId → OrdMap PlayerId Player
unfolding new_player post
credit ts e players player = OrdMap.upsert players player (new_player ts) (post e)

unfoldable pub raid_ref : GuildState → String → Option RaidRef
raid_ref g raid_id = elim (OrdMap.get g.raids raid_id) [
  | none ↦ none
  | some r ↦ some (record { raid_id = raid_id; name = r.name })
]

unfoldable pub award_line : GuildState → String → ℤ → String → ℤ → LogEntry
unfolding raid_ref
award_line g raid_id amount comment ts = record {
  dkp = amount;
  comment = comment;
  ts_ms = ts;
  raid = raid_ref g raid_id;
  item = none;
}

unfoldable pub attend : AttendanceEntry → Option ℕ → Raid → Raid
attend e none r = record r { entries = r.entries ++ e ∷ [] }
attend e (some n) r = record r { entries = r.entries ++ e ∷ []; tick_no = n }

-- `award`
unfoldable pub award : GuildState → String → List PlayerId → ℤ → String → ℤ → Option ℕ → GuildState
unfolding credit award_line attend
award g raid_id players amount comment ts tick_no =
    let line = award_line g raid_id amount comment ts in
    let entry : AttendanceEntry = record {
      players = players;
      comment = comment;
      ts_ms = ts;
      amount = amount;
    } in
    record g {
      players =
          if eqb_ℤ amount (pos 0) then g.players else foldl (credit ts line) g.players players;
      raids = OrdMap.modify g.raids raid_id (attend entry tick_no);
    }

-- `Event::RaidStarted`
unfoldable pub raid_started : GuildState → ℤ → String → String → ℤ → ℤ → Option String → GuildState
raid_started g ts raid_id name tick_interval_ms dkp_per_tick event_id = record g {
  raids = OrdMap.insert g.raids raid_id (record {
    name = name;
    date_ms = ts;
    tick_interval_ms = tick_interval_ms;
    dkp_per_tick = dkp_per_tick;
    active = true;
    tick_no = 0;
    event_id = event_id;
    entries = [];
    ended_ms = none;
    kills = [];
  });
  active_raid = some raid_id;
}

-- `active_raid` once raid `id` is over.
unfoldable pub leave : Option String → String → Option String
leave none id = none
leave (some a) id = if same a id then none else some a

-- `Event::RaidEnded`
unfoldable pub raid_ended : GuildState → ℤ → String → GuildState
unfolding leave
raid_ended g ts raid_id = record g {
  raids = OrdMap.modify g.raids raid_id (λ r. record r { active = false; ended_ms = some ts });
  active_raid = leave g.active_raid raid_id;
}

unfoldable pub same_kill : RaidKill → RaidKill → Bool
same_kill k d = same d.target k.target && eqb_ℤ d.killed_ms k.killed_ms

unfoldable pub add_kill : List RaidKill → RaidKill → List RaidKill
unfolding same_kill
add_kill kills k = if any (same_kill k) kills then kills else kills ++ k ∷ []

-- `dst` with the entries and kills of `src`.
unfoldable pub absorb : Raid → Raid → Raid
unfolding sort_by add_kill min_ℤ
absorb dst src = record dst {
  entries = sort_by (λ a b. leb_ℤ a.ts_ms b.ts_ms) (dst.entries ++ src.entries);
  date_ms = min_ℤ dst.date_ms src.date_ms;
  kills = sort_by (λ a b. leb_ℤ a.killed_ms b.killed_ms) (foldl add_kill dst.kills src.kills);
}

unfoldable pub refers_to : String → Option RaidRef → Bool
refers_to raid_id none = false
refers_to raid_id (some r) = same r.raid_id raid_id

-- A log line of raid `from_id` under its new label.
unfoldable pub relabel : String → RaidRef → LogEntry → LogEntry
unfolding refers_to
relabel from_id re e = if refers_to from_id e.raid then record e { raid = some re } else e

-- `for p in g.players.values_mut() { for e in &mut p.log { .. } }`
unfoldable pub relabel_all : (LogEntry → LogEntry) → OrdMap PlayerId Player → OrdMap PlayerId Player
relabel_all f = map (λ e. (e.0, record e.1 { log = map f e.1.log }))

-- `Event::RaidMerged`
unfoldable pub raid_merged : GuildState → String → String → GuildState
unfolding absorb relabel relabel_all leave
raid_merged g from_id into_id = elim (OrdMap.get g.raids from_id) [
  | none ↦ g
  | some src ↦
      let rest = OrdMap.remove g.raids from_id in
      elim (OrdMap.get rest into_id) [
        | none ↦ record g { raids = OrdMap.insert rest from_id src }
        | some dst ↦ record g {
          raids = OrdMap.modify rest into_id (λ d. absorb d src);
          players =
              relabel_all (relabel from_id (record { raid_id = into_id; name = dst.name }))
                g.players;
          active_raid = leave g.active_raid from_id;
        }
      ]
]

-- `Event::RaidKillsRecorded`
unfoldable pub raid_kills_recorded : GuildState → String → List RaidKill → GuildState
raid_kills_recorded g raid_id kills = record g {
  raids = OrdMap.modify g.raids raid_id (λ r. record r { kills = kills });
}

-- The copy of a raid's name on a log line.
unfoldable pub rename_line : String → String → LogEntry → LogEntry
unfolding refers_to
rename_line raid_id name e =
    if refers_to raid_id e.raid
    then record e { raid = some (record { raid_id = raid_id; name = name }) }
    else e

-- `Event::RaidRenamed`
unfoldable pub raid_renamed : GuildState → String → String → GuildState
unfolding rename_line relabel_all
raid_renamed g raid_id name = elim (OrdMap.get g.raids raid_id) [
  | none ↦ g
  | some _ ↦ record g {
    raids = OrdMap.modify g.raids raid_id (λ r. record r { name = name });
    players = relabel_all (rename_line raid_id name) g.players;
  }
]

unfoldable pub import_entry : ImportedAttendance → AttendanceEntry
import_entry e = record {
  players = e.players;
  comment = e.comment;
  ts_ms = e.ts_ms;
  amount = e.amount;
}

-- `Event::RaidImported`
unfoldable pub raid_imported : GuildState → ImportedRaid → GuildState
unfolding import_entry
raid_imported g r = record g {
  raids = OrdMap.insert g.raids r.raid_id (record {
    name = r.name;
    date_ms = r.date_ms;
    tick_interval_ms = r.tick_interval_ms;
    dkp_per_tick = r.dkp_per_tick;
    active = false;
    tick_no = length r.entries % 2 ^ 32;
    event_id = r.event_id;
    entries = map import_entry r.entries;
    ended_ms = none;
    kills = [];
  });
}
