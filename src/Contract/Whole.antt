-- ===== src/Contract/Whole.antt =====
-- The contract for the whole of `decide` (crates/nocturnal-core/src/decide.rs).
use nocturnal_discord.Prelude.{◌≡◌, List, [], ◌∷◌}
use nocturnal_discord.Prelude.Int.{ℤ}
use nocturnal_discord.Event.{Event, Actor}
use nocturnal_discord.Command.{Command, Ctx}
use nocturnal_discord.Platform.{Platform}
use nocturnal_discord.Reject.{ok}
use nocturnal_discord.State.{GuildState}
use nocturnal_discord.Apply.Step.{apply_event}
use nocturnal_discord.Contract.Guard.{Guard, Guards, apply_all}
use nocturnal_discord.Contract.Raids
use nocturnal_discord.Contract.Auctions
use nocturnal_discord.Contract.Roster
use nocturnal_discord.Decide.Step.{decide_guild}

module _ (p : Platform) (g : GuildState) where
  -- Whatever the command, each event of an accepted decision meets its guard in the guild in which
  -- it is applied: of an adjustment, that it takes no balance below zero; of a raid, its state and
  -- when it ticks; of an auction, its status; of a bid, that it is at least the minimum and that the
  -- balance net of the standing bids covers it; of a roll, that it is the player's first, from the
  -- snapshot of the channel where there is one, and covered in the same way where it costs; of
  -- winners and roll-offs, that they are those of the recorded seed; of a configuration, that its
  -- values are in their ranges and its raid channels differ; of a name, a profile or a token, that
  -- it is or is not there. Imports and the rows of characters have no guard.
  pub decide_guild-Guards :
      (ctx : Ctx) (cmd : Command) (es : List Event)
      → decide_guild p g ctx cmd ≡ ok es
      → Guards p g ctx.now_ms ctx.actor es
  unfolding decide_guild
  decide_guild-Guards ctx (Command.link_character a b) es h =
      Raids.link_character-Guards p g ctx.now_ms ctx.actor a b es h
  decide_guild-Guards ctx (Command.adjust_dkp a b c d) es h =
      Raids.adjust_dkp-Guards p g ctx.now_ms ctx.actor a b c d es h
  decide_guild-Guards ctx (Command.adjust_by_character a b c) es h =
      Raids.adjust_by_character-Guards p g ctx.now_ms ctx.actor a b c es h
  decide_guild-Guards ctx (Command.start_raid a b c d e f) es h =
      Raids.start_raid-Guards p g ctx.now_ms ctx.actor a b c d e f es h
  decide_guild-Guards ctx (Command.tick a) es h = Raids.tick-Guards p g ctx.now_ms ctx.actor a es h
  decide_guild-Guards ctx (Command.award_raid a b c) es h =
      Raids.award_raid-Guards p g ctx.now_ms ctx.actor a b c es h
  decide_guild-Guards ctx (Command.end_raid a b) es h =
      Raids.end_raid-Guards p g ctx.now_ms ctx.actor a b es h
  decide_guild-Guards ctx (Command.merge_raid a b) es h =
      Raids.merge_raid-Guards p g ctx.now_ms ctx.actor a b es h
  decide_guild-Guards ctx (Command.record_raid_kills a b) es h =
      Raids.record_raid_kills-Guards p g ctx.now_ms ctx.actor a b es h
  decide_guild-Guards ctx (Command.rename_raid a b) es h =
      Raids.rename_raid-Guards p g ctx.now_ms ctx.actor a b es h
  decide_guild-Guards ctx (Command.open_auction a) es h =
      Auctions.open_auction-Guards p g ctx.now_ms ctx.actor a es h
  decide_guild-Guards ctx (Command.place_bid a b c d e) es h =
      Auctions.place_bid-Guards p g ctx.now_ms ctx.actor a b c d e es h
  decide_guild-Guards ctx (Command.retract_bid a b) es h =
      Auctions.retract_bid-Guards p g ctx.now_ms ctx.actor a b es h
  decide_guild-Guards ctx (Command.close_auction a b) es h =
      Auctions.close_auction-Guards p g ctx.now_ms ctx.actor a b es h
  decide_guild-Guards ctx (Command.finalize_auction a) es h =
      Auctions.finalize_auction-Guards p g ctx.now_ms ctx.actor a es h
  decide_guild-Guards ctx (Command.cancel_auction a b) es h =
      Auctions.cancel_auction-Guards p g ctx.now_ms ctx.actor a b es h
  decide_guild-Guards ctx (Command.roll_for_auction a b c d) es h =
      Auctions.roll_for_auction-Guards p g ctx.now_ms ctx.actor a b c d es h
  decide_guild-Guards ctx (Command.update_config a) es h =
      Roster.update_config-Guards p g ctx.now_ms ctx.actor a es h
  decide_guild-Guards ctx (Command.set_roster_character a b c) es h =
      Roster.set_roster_character-Guards p g ctx.now_ms ctx.actor a b c es h
  decide_guild-Guards ctx (Command.remove_roster_character a b) es h =
      Roster.remove_roster_character-Guards p g ctx.now_ms ctx.actor a b es h
  decide_guild-Guards ctx (Command.rank_roster_character a b c) es h =
      Roster.rank_roster_character-Guards p g ctx.now_ms ctx.actor a b c es h
  decide_guild-Guards ctx (Command.upload_roster_profile a b c d) es h =
      Roster.upload_roster_profile-Guards p g ctx.now_ms ctx.actor a b c d es h
  decide_guild-Guards ctx (Command.issue_token a b c) es h =
      Roster.issue_token-Guards p g ctx.now_ms ctx.actor a b c es h
  decide_guild-Guards ctx (Command.refresh_access a b) es h =
      Roster.refresh_access-Guards p g ctx.now_ms ctx.actor a b es h
  decide_guild-Guards ctx (Command.revoke_token a) es h =
      Roster.revoke_token-Guards p g ctx.now_ms ctx.actor a es h
  decide_guild-Guards ctx (Command.import_player i) es h =
      Raids.import_player-Guards p g ctx.now_ms ctx.actor i es h
  decide_guild-Guards ctx (Command.import_raid r) es h =
      Raids.import_raid-Guards p g ctx.now_ms ctx.actor r es h

-- An invariant that each guarded event keeps is kept by every accepted decision.
module _ (p : Platform) {P : GuildState → Type 0}
    (keep : (g : GuildState) (ts : ℤ) (actor : Actor) (e : Event)
      → Guard p g ts e
      → P g
      → P (apply_event p g ts actor e)) where
  apply_all-keeps :
      (es : List Event) (g : GuildState) (ts : ℤ) (actor : Actor)
      → Guards p g ts actor es
      → P g
      → P (apply_all p g ts actor es)
  unfolding apply_all
  apply_all-keeps [] g ts actor h v = v
  apply_all-keeps (e ∷ es) g ts actor h v =
      apply_all-keeps es (apply_event p g ts actor e) ts actor h.1 (keep g ts actor e h.0 v)

  pub decision-keeps :
      (g : GuildState) (ctx : Ctx) (cmd : Command) (es : List Event)
      → decide_guild p g ctx cmd ≡ ok es
      → P g
      → P (apply_all p g ctx.now_ms ctx.actor es)
  decision-keeps g ctx cmd es h =
      apply_all-keeps es g ctx.now_ms ctx.actor (decide_guild-Guards p g ctx cmd es h)
