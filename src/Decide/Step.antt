-- ===== src/Decide/Step.antt =====
-- `decide` of crates/nocturnal-core/src/decide.rs: the dispatch on the command.
use nocturnal_discord.Prelude.{none, some, List}
use nocturnal_discord.Event.{Event}
use nocturnal_discord.Command.{Command, Ctx}
use nocturnal_discord.Platform.{Platform}
use nocturnal_discord.Reject.{Result}
use nocturnal_discord.State.{GuildState, State, guild, default_guild}
use nocturnal_discord.Decide.Raids.{
  decide_adjust_dkp, decide_start_raid, decide_tick, decide_award_raid, decide_end_raid,
  decide_merge_raid, decide_record_raid_kills, decide_rename_raid, decide_import_player,
  decide_import_raid, decide_link_character, decide_adjust_by_character,
}
use nocturnal_discord.Decide.Auctions.{
  decide_open_auction, decide_place_bid, decide_retract_bid, decide_close_auction,
  decide_cancel_auction, decide_roll_for_auction,
}
use nocturnal_discord.Decide.Winners.{decide_finalize_auction}
use nocturnal_discord.Decide.Config.{decide_update_config}
use nocturnal_discord.Decide.Roster.{
  decide_set_roster_character, decide_rank_roster_character, decide_upload_roster_profile,
  decide_remove_roster_character, decide_issue_token, decide_refresh_access, decide_revoke_token,
}

module _ (p : Platform) where
  -- The decision on one guild.
  unfoldable pub decide_guild : GuildState → Ctx → Command → Result (List Event)
  decide_guild g ctx (Command.link_character player character) =
      decide_link_character p g player character
  decide_guild g ctx (Command.adjust_dkp player delta comment item) =
      decide_adjust_dkp g player delta comment item
  decide_guild g ctx (Command.adjust_by_character character delta comment) =
      decide_adjust_by_character p g character delta comment
  decide_guild g ctx (Command.start_raid id name interval dkp players event_id) =
      decide_start_raid g id name interval dkp players event_id
  decide_guild g ctx (Command.tick players) = decide_tick g ctx.now_ms players
  decide_guild g ctx (Command.award_raid players amount comment) =
      decide_award_raid g players amount comment
  decide_guild g ctx (Command.end_raid players reason) = decide_end_raid g players reason
  decide_guild g ctx (Command.merge_raid from_id into_id) = decide_merge_raid g from_id into_id
  decide_guild g ctx (Command.record_raid_kills id kills) = decide_record_raid_kills g id kills
  decide_guild g ctx (Command.rename_raid id name) = decide_rename_raid g id name
  decide_guild g ctx (Command.open_auction r) = decide_open_auction g ctx.now_ms r
  decide_guild g ctx (Command.place_bid id player amount for_main character) =
      decide_place_bid p g ctx.now_ms id player amount for_main character
  decide_guild g ctx (Command.retract_bid id player) = decide_retract_bid g id player
  decide_guild g ctx (Command.close_auction id ended) = decide_close_auction g ctx.now_ms id ended
  decide_guild g ctx (Command.finalize_auction id) = decide_finalize_auction p g id
  decide_guild g ctx (Command.cancel_auction id reason) = decide_cancel_auction g id reason
  decide_guild g ctx (Command.roll_for_auction id player seed channel) =
      decide_roll_for_auction g id player seed channel
  decide_guild g ctx (Command.update_config patch) = decide_update_config g patch
  decide_guild g ctx (Command.set_roster_character player character replace) =
      decide_set_roster_character p g ctx.actor player character replace
  decide_guild g ctx (Command.remove_roster_character player name) =
      decide_remove_roster_character p g player name
  decide_guild g ctx (Command.rank_roster_character player name rank) =
      decide_rank_roster_character p g player name rank
  decide_guild g ctx (Command.upload_roster_profile player name source body) =
      decide_upload_roster_profile p g ctx.now_ms player name source body
  decide_guild g ctx (Command.issue_token username token_fp role) =
      decide_issue_token g username token_fp role
  decide_guild g ctx (Command.refresh_access username role) = decide_refresh_access g username role
  decide_guild g ctx (Command.revoke_token username) = decide_revoke_token g username
  decide_guild g ctx (Command.import_player i) = decide_import_player i
  decide_guild g ctx (Command.import_raid r) = decide_import_raid r

  -- The guild that a decision reads: an empty one where the ledger has none.
  unfoldable pub guild_or_empty : State → Ctx → GuildState
  unfolding guild
  guild_or_empty s ctx = elim (guild s ctx.guild) [ none ↦ default_guild | some g ↦ g ]

  -- `decide`
  unfoldable pub decide : State → Ctx → Command → Result (List Event)
  unfolding guild_or_empty decide_guild
  decide s ctx cmd = decide_guild (guild_or_empty s ctx) ctx cmd
