-- ===== src/Apply/Players.antt =====
-- The player handlers of crates/nocturnal-core/src/apply.rs.
use nocturnal_discord.Prelude.{Option, [], ◌∷◌, ◌++◌, map, String}
use nocturnal_discord.Prelude.Int.{ℤ}
use nocturnal_discord.Prelude.OrdMap
use nocturnal_discord.Prelude.OrdMap.{OrdMap, nat_key, text_key}
use nocturnal_discord.Event.{PlayerId, RaidRef, Item, ImportedPlayer, ImportedLogEntry}
use nocturnal_discord.Platform.{Platform}
use nocturnal_discord.State.{GuildState, LogEntry}
use nocturnal_discord.Apply.Raids.{new_player, credit}
use mathlib.Core.List.{foldl}

unfoldable pub import_line : ImportedLogEntry → LogEntry
import_line e = record {
  dkp = e.dkp;
  comment = e.comment;
  ts_ms = e.ts_ms;
  raid = e.raid;
  item = e.item;
}

-- `Event::DkpAdjusted`
unfoldable pub dkp_adjusted :
    GuildState → ℤ → PlayerId → ℤ → String → Option RaidRef → Option Item → GuildState
unfolding credit
dkp_adjusted g ts player delta comment raid item =
    let line : LogEntry = record {
      dkp = delta;
      comment = comment;
      ts_ms = ts;
      raid = raid;
      item = item;
    } in
    record g { players = credit ts line g.players player }

module _ (p : Platform) where
  unfoldable pub own : PlayerId → OrdMap String PlayerId → String → OrdMap String PlayerId
  own player characters c = OrdMap.insert characters (p.to_lowercase c) player

  -- `Event::CharacterLinked`
  unfoldable pub character_linked : GuildState → ℤ → PlayerId → String → GuildState
  unfolding own new_player
  character_linked g ts player character = record g {
    players =
        OrdMap.upsert g.players player (new_player ts)
          (λ q. record q { characters = q.characters ++ character ∷ [] });
    characters = own player g.characters character;
  }

  -- `Event::PlayerImported`
  unfoldable pub player_imported : GuildState → ImportedPlayer → GuildState
  unfolding own import_line
  player_imported g i = record g {
    players = OrdMap.insert g.players i.player (record {
      balance = i.balance;
      characters = i.characters;
      creation_ts_ms = i.creation_ts_ms;
      log = map import_line i.log;
      legacy_id = i.legacy_id;
    });
    characters = foldl (own i.player) g.characters i.characters;
  }
