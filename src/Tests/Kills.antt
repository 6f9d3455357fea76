-- ===== src/Tests/Kills.antt =====
-- The theorems on kill lists at a concrete raid.
use nocturnal_discord.Prelude.{◌≡◌, refl, true, false, none, some, List, [], ◌∷◌, String}
use nocturnal_discord.Prelude.Int.{ℤ, pos}
use nocturnal_discord.Prelude.Lists.{All, keep}
use nocturnal_discord.Prelude.Text.{trim, is_empty}
use nocturnal_discord.Prelude.OrdMap
use nocturnal_discord.Prelude.OrdMap.{OrdMap, text_key}
use nocturnal_discord.Reject.{Rejection, err}
use nocturnal_discord.State.{GuildState, Raid, default_guild}
use nocturnal_discord.Decide.Raids.{decide_record_raid_kills, sort_kills}
use nocturnal_discord.Apply.Raids.{raid_kills_recorded}
use nocturnal_discord.RaidNames.{Share, kills}
use nocturnal_discord.RaidNames.Kills.{is_death, time, decide_record_raid_kills-kills}
use nocturnal_discord.RaidNames.Reported.{deaths_at, reported, deaths_at-kills}
use nocturnal_discord.Prelude.Rising.{Rising}
use nocturnal_discord.Prelude.Sorted.{Sorted}
use nocturnal_discord.Tests.{plain}

abbrev share : Share
share = record { sum = λ _. plain.f64_of 0; two_percent = λ x. x; at_least = λ x y. true }

abbrev bosses : OrdMap String String
bosses = ("vulak", "Vulak") ∷ []

abbrev deaths : OrdMap String (List ℤ)
deaths = ("a bat", pos 4 ∷ []) ∷ ("vulak", pos 5 ∷ pos 3 ∷ []) ∷ []

abbrev lockouts : OrdMap String ℤ
lockouts = ("vulak", pos 6) ∷ []

abbrev raid : Raid
raid = record {
  name = "Raid";
  date_ms = pos 0;
  tick_interval_ms = pos 0;
  dkp_per_tick = pos 0;
  active = false;
  tick_no = 0;
  event_id = none;
  entries = [];
  ended_ms = none;
  kills = [];
}

abbrev raided : GuildState
raided = record default_guild { raids = ("r", raid) ∷ [] }

deaths-Rising : Rising deaths
deaths-Rising = ((refl, tt), (tt, tt))

deaths_at-kills_example :
    (deaths_at "vulak" (pos 5) (kills plain share [] lockouts deaths bosses)
      ≡ reported deaths bosses "vulak" (pos 5))
    × All
        (λ k. OrdMap.get bosses k.target ≡ some k.name)
        (keep is_death (kills plain share [] lockouts deaths bosses))
    × Sorted time (kills plain share [] lockouts deaths bosses)
deaths_at-kills_example =
    deaths_at-kills plain share [] lockouts deaths bosses "vulak" (pos 5) deaths-Rising

decide_record_raid_kills-kills_example :
    decide_record_raid_kills
      (raid_kills_recorded raided "r" (sort_kills (kills plain share [] lockouts deaths bosses)))
      "r"
      (kills plain share [] lockouts deaths bosses)
    ≡ err Rejection.nothing_to_record
unfolding kills OrdMap.get trim is_empty
decide_record_raid_kills-kills_example =
    decide_record_raid_kills-kills plain share raided "r" raid [] lockouts deaths bosses refl refl
      refl
