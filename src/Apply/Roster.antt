-- ===== src/Apply/Roster.antt =====
-- The roster, configuration and telemetry handlers of crates/nocturnal-core/src/apply.rs.
use nocturnal_discord.Prelude.{Bool, true, none, some, [], String, if◌then◌else◌}
use nocturnal_discord.Prelude.Int.{ℤ, leb_ℤ}
use nocturnal_discord.Prelude.Lists.{is_nil}
use nocturnal_discord.Prelude.OrdMap
use nocturnal_discord.Prelude.OrdMap.{OrdMap, nat_key, text_key}
use nocturnal_discord.Event.{PlayerId, RosterCharacter, ProfileSource, ConfigPatch}
use nocturnal_discord.Event.Names.{pretty_character_name}
use nocturnal_discord.Platform.{Platform}
use nocturnal_discord.State.{GuildState}
use nocturnal_discord.State.Config.{apply_patch}

-- `Event::ConfigUpdated`
unfoldable pub config_updated : GuildState → ConfigPatch → GuildState
unfolding apply_patch
config_updated g patch = record g { config = apply_patch g.config patch }

-- `Event::TelemetryTokenIssued`
unfoldable pub telemetry_token_issued : GuildState → String → String → String → GuildState
telemetry_token_issued g username token_fp role = record g {
  telemetry = OrdMap.insert g.telemetry username (record { token_fp = token_fp; role = role });
  telemetry_managed = OrdMap.insert g.telemetry_managed username tt;
}

-- `Event::TelemetryAccessUpdated`
unfoldable pub telemetry_access_updated : GuildState → String → String → GuildState
telemetry_access_updated g username role = record g {
  telemetry = OrdMap.modify g.telemetry username (λ t. record t { role = role });
}

-- `Event::TelemetryTokenRevoked`
unfoldable pub telemetry_token_revoked : GuildState → String → GuildState
telemetry_token_revoked g username = record g { telemetry = OrdMap.remove g.telemetry username }

module _ (p : Platform) where
  -- `Event::RosterCharacterSet`
  unfoldable pub roster_character_set : GuildState → PlayerId → RosterCharacter → GuildState
  unfolding pretty_character_name
  roster_character_set g player character =
      let name = pretty_character_name p character.name in
      record g {
        roster =
            OrdMap.upsert g.roster player [] (λ chars.
              OrdMap.insert chars (p.to_lowercase name) (record character { name = name }));
      }

  -- `Event::RosterProfileUploaded`: the newest upload wins.
  unfoldable pub roster_profile_uploaded :
      GuildState → PlayerId → String → ProfileSource → String → ℤ → GuildState
  unfolding pretty_character_name
  roster_profile_uploaded g player name source body uploaded_ms =
      let key = p.to_lowercase name in
      let newer : Bool = elim (OrdMap.get g.profiles key) [
        | none ↦ true
        | some old ↦ leb_ℤ old.uploaded_ms uploaded_ms
      ] in
      if newer
      then record g {
        profiles = OrdMap.insert g.profiles key (record {
          player = player;
          name = pretty_character_name p name;
          source = source;
          body = body;
          uploaded_ms = uploaded_ms;
        });
      }
      else g

  -- `Event::RosterCharacterRemoved`: a row that is left empty goes.
  unfoldable pub roster_character_removed : GuildState → PlayerId → String → GuildState
  roster_character_removed g player name = elim (OrdMap.get g.roster player) [
    | none ↦ g
    | some chars ↦
        let left = OrdMap.remove chars (p.to_lowercase name) in
        record g {
          roster =
              if is_nil left
              then OrdMap.remove g.roster player
              else OrdMap.insert g.roster player left;
        }
  ]
