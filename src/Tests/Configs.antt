-- ===== src/Tests/Configs.antt =====
-- The configuration of a guild, in a ledger after it has been changed.
use nocturnal_discord.Prelude.{◌≡◌, refl, none, some, [], ◌∷◌}
use nocturnal_discord.Prelude.Int.{pos}
use nocturnal_discord.Prelude.OrdMap
use nocturnal_discord.Event.{Event, Envelope, ConfigPatch}
use nocturnal_discord.Command.{Command}
use nocturnal_discord.Reject.{ok}
use nocturnal_discord.Decide.Config.{
  decide_update_config, validate_config, validate_values, validate_channels, repeats,
  second_is_raid_channel,
}
use nocturnal_discord.Decide.Step.{decide_guild, guild_or_empty}
use nocturnal_discord.State.Config.{apply_patch}
use nocturnal_discord.Ledger.{Ledger, new, execute, envelope, replay}
use nocturnal_discord.Ledger.Recovery.{Reached, start, step}
use nocturnal_discord.Ledger.Sound.{guild_at}
use nocturnal_discord.Invariant.Configured.{IsValid, Reached-IsValid}
use nocturnal_discord.Tests.{plain, at_noon}

abbrev patch : ConfigPatch
patch = record {
  admin_role = none;
  raid_channel = some 4;
  second_raid_channel = none;
  extra_raid_channels = some (5 ∷ 6 ∷ []);
  log_channel = none;
  auction_channel = none;
  long_auction_channel = none;
  tick_duration_ms = none;
  raid_deprecation_ms = none;
  bid_time_s = some (pos 40);
  min_bid = none;
  min_bid_to_lock_for_main = none;
  over_bid_to_win_main = none;
  raidhelper_api_key = none;
  raidhelper_event_dkp = none;
  character_bids = none;
  main_bid_min_attendance = none;
  alt_bid_min_attendance = none;
  main_bid_min_level = none;
  alt_bid_min_level = none;
}

abbrev changed : Envelope
changed = envelope 0 at_noon (Event.config_updated patch)

abbrev after_patch : Ledger
after_patch = elim (replay plain new changed) [ none ↦ new | some l ↦ l ]

execute-patch :
    execute plain new at_noon (Command.update_config patch) ≡ ok (after_patch, changed ∷ [])
unfolding execute guild_or_empty decide_guild decide_update_config validate_config validate_values
    validate_channels repeats second_is_raid_channel apply_patch OrdMap.get
execute-patch = refl

patch-Reached : Reached plain after_patch (changed ∷ [])
patch-Reached = step at_noon (Command.update_config patch) start execute-patch

Reached-IsValid_example : IsValid (guild_at after_patch.state 1).config
Reached-IsValid_example = Reached-IsValid plain after_patch (changed ∷ []) 1 patch-Reached
