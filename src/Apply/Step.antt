-- ===== src/Apply/Step.antt =====
-- `apply` of crates/nocturnal-core/src/apply.rs: the dispatch on the event.
use nocturnal_discord.Prelude.{none, some}
use nocturnal_discord.Event.{Event, Envelope}
use nocturnal_discord.Platform.{Platform}
use nocturnal_discord.State.{GuildState, State, guild_mut}
use nocturnal_discord.Apply.Raids.{
  award, raid_started, raid_ended, raid_merged, raid_kills_recorded, raid_renamed, raid_imported,
}
use nocturnal_discord.Apply.Players.{character_linked, player_imported, dkp_adjusted}
use nocturnal_discord.Apply.Auctions.{
  auction_opened, bid_placed, bid_retracted, auction_closed, auction_finalized, auction_rolled,
  auction_roll_off, auction_cancelled,
}
use nocturnal_discord.Apply.Roster.{
  config_updated, telemetry_token_issued, telemetry_access_updated, telemetry_token_revoked,
  roster_character_set, roster_profile_uploaded, roster_character_removed,
}
use nocturnal_discord.Prelude.Int.{ℤ}
use nocturnal_discord.Event.{Actor}

module _ (p : Platform) where
  -- The event's effect on its guild.
  unfoldable pub apply_event : GuildState → ℤ → Actor → Event → GuildState
  apply_event g ts actor (Event.character_linked player character) =
      character_linked p g ts player character
  apply_event g ts actor (Event.player_imported i) = player_imported p g i
  apply_event g ts actor (Event.dkp_adjusted player delta comment raid item) =
      dkp_adjusted g ts player delta comment raid item
  apply_event g ts actor (Event.raid_started id name interval dkp event_id) =
      raid_started g ts id name interval dkp event_id
  apply_event g ts actor (Event.raid_awarded id players amount comment) =
      award g id players amount comment ts none
  apply_event g ts actor (Event.raid_ticked id tick_no players amount) =
      award g id players amount "Tick" ts (some tick_no)
  apply_event g ts actor (Event.raid_ended id reason) = raid_ended g ts id
  apply_event g ts actor (Event.raid_merged from_id into_id) = raid_merged g from_id into_id
  apply_event g ts actor (Event.raid_renamed id name) = raid_renamed g id name
  apply_event g ts actor (Event.raid_kills_recorded id kills) = raid_kills_recorded g id kills
  apply_event g ts actor (Event.raid_imported r) = raid_imported g r
  apply_event g ts actor (Event.auction_opened o) = auction_opened g o
  apply_event g ts actor (Event.bid_placed b) = bid_placed g b
  apply_event g ts actor (Event.bid_retracted id player) = bid_retracted g id player
  apply_event g ts actor (Event.auction_closed id ended seed) = auction_closed g id ended seed
  apply_event g ts actor (Event.auction_finalized id winners seed) =
      auction_finalized g ts id winners
  apply_event g ts actor (Event.auction_cancelled id reason) = auction_cancelled g ts actor id
  apply_event g ts actor (Event.auction_rolled id player rolled seed) =
      auction_rolled g id player rolled
  apply_event g ts actor (Event.auction_roll_off id rounds) = auction_roll_off g id rounds
  apply_event g ts actor (Event.roster_character_set player character) =
      roster_character_set p g player character
  apply_event g ts actor (Event.roster_character_removed player name) =
      roster_character_removed p g player name
  apply_event g ts actor (Event.roster_profile_uploaded player name source body uploaded_ms) =
      roster_profile_uploaded p g player name source body uploaded_ms
  apply_event g ts actor (Event.config_updated patch) = config_updated g patch
  apply_event g ts actor (Event.telemetry_token_issued username token_fp role) =
      telemetry_token_issued g username token_fp role
  apply_event g ts actor (Event.telemetry_access_updated username role) =
      telemetry_access_updated g username role
  apply_event g ts actor (Event.telemetry_token_revoked username) =
      telemetry_token_revoked g username

  unfoldable pub apply : State → Envelope → State
  unfolding guild_mut apply_event
  apply s env = guild_mut s env.guild (λ g. apply_event g env.ts_ms env.actor env.event)
