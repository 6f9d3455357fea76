-- ===== src/Tests/Genesis.antt =====
-- The genesis run at a concrete snapshot.
use nocturnal_discord.Prelude.{◌≡◌, refl, true, none, some, [], ◌∷◌, List}
use nocturnal_discord.Prelude.Int.{pos}
use nocturnal_discord.Ledger.{new}
use nocturnal_discord.Reject.{ok}
use nocturnal_discord.Migrate.{
  LegacyPlayer, LegacyRaid, LegacyLogEntry, genesis_commands, genesis_guild, parse_id, parse_ids,
}
use nocturnal_discord.Migrate.Genesis.{Run, run_genesis, distinct, is_positive}
use nocturnal_discord.Migrate.Matched.{run_genesis-matches}
use nocturnal_discord.Prelude.Int.{mul_i64, wrap_i64, ◌*ℤ◌}
use nocturnal_discord.Tests.{plain}

abbrev line : LegacyLogEntry
line = record { dkp = pos 5; comment = some "raid"; date = pos 0; raid = none; item = none }

abbrev player : LegacyPlayer
player = record {
  id = some "a1";
  player = "7";
  guild = "1";
  current = pos 5;
  creation_date = pos 0;
  characters = "Shaku" ∷ [];
  log = line ∷ [];
}

abbrev players : List LegacyPlayer
players = player ∷ record player { player = "+8" } ∷ record player { player = "x" } ∷ []

abbrev raid : LegacyRaid
raid = record {
  id = none;
  guild = "1";
  name = "Fear";
  date = pos 0;
  attendance = [];
  tick_duration = pos 0;
  dkps_per_tick = pos 0;
  event_id = none;
  active = true;
  deprecated = true;
}

run_genesis-matches_example :
    (r : Run) × (run_genesis plain new
        (genesis_guild players (raid ∷ []))
        (genesis_commands players (raid ∷ []) (some (pos 90))).1
        players
        (pos 0)
      ≡ ok r)
    × (r.mismatches ≡ 0)
unfolding ◌*ℤ◌
run_genesis-matches_example =
    run_genesis-matches plain players (raid ∷ []) (some (pos 90)) (pos 0)
      (unfold is_positive in unfold mul_i64 in unfold wrap_i64 in refl)
      (unfold distinct in unfold parse_ids in unfold parse_id in refl)
      (unfold genesis_commands in refl)
