-- ===== src/Command.antt =====
-- crates/nocturnal-core/src/command.rs: the requests that the decide step answers.
use nocturnal_discord.Prelude.{ℕ, Bool, Option, List, String}
use nocturnal_discord.Prelude.Int.{ℤ}
use nocturnal_discord.Event.{
  GuildId, PlayerId, Actor, Item, RaidKill, Flavor, ConfigPatch, RosterCharacter, MainRank,
  ProfileSource, ImportedPlayer, ImportedRaid,
}

pub record Ctx : Type 0 where
  pub guild : GuildId
  pub actor : Actor
  pub now_ms : ℤ

pub record AuctionRequest : Type 0 where
  pub auction_id : String
  pub item : Item
  pub flavor : Flavor
  pub min_bid : ℤ
  pub num_items : ℕ
  pub min_bid_to_lock_for_main : ℤ
  pub over_bid_to_win_main : ℤ
  pub duration_ms : ℤ
  pub debit_dkp : Bool
  pub live : Bool
  pub voice_channel : Option ℕ
  pub rollers : Option (List PlayerId)
  pub roll_cost : ℤ

pub data Command : Type 0 where
  link_character : (player : PlayerId) (character : String) → Command
  adjust_dkp : (player : PlayerId) (delta : ℤ) (comment : String) (item : Option Item) → Command
  adjust_by_character : (character : String) (delta : ℤ) (comment : String) → Command
  start_raid :
      (raid_id name : String) (tick_interval_ms dkp_per_tick : ℤ) (players_present : List PlayerId)
      (event_id : Option String)
      → Command
  tick : (players_present : List PlayerId) → Command
  award_raid : (players : List PlayerId) (amount : ℤ) (comment : String) → Command
  end_raid : (players_present : List PlayerId) (reason : String) → Command
  merge_raid : (from_id into_id : String) → Command
  record_raid_kills : (raid_id : String) (kills : List RaidKill) → Command
  rename_raid : (raid_id name : String) → Command
  open_auction : AuctionRequest → Command
  place_bid :
      (auction_id : String) (player : PlayerId) (amount : ℤ) (for_main : Bool)
      (character : Option String)
      → Command
  retract_bid : (auction_id : String) (player : PlayerId) → Command
  close_auction : (auction_id : String) (ended_ts_ms : Option ℤ) → Command
  finalize_auction : (auction_id : String) → Command
  cancel_auction : (auction_id reason : String) → Command
  roll_for_auction :
      (auction_id : String) (player : PlayerId) (seed : ℕ) (voice_channel : Option ℕ) → Command
  update_config : ConfigPatch → Command
  set_roster_character :
      (player : PlayerId) (character : RosterCharacter) (replace : Bool) → Command
  remove_roster_character : (player : PlayerId) (name : String) → Command
  rank_roster_character : (player : PlayerId) (name : String) (rank : Option MainRank) → Command
  upload_roster_profile :
      (player : PlayerId) (name : String) (source : ProfileSource) (body : String) → Command
  issue_token : (username token_fp role : String) → Command
  refresh_access : (username role : String) → Command
  revoke_token : (username : String) → Command
  import_player : ImportedPlayer → Command
  import_raid : ImportedRaid → Command

-- The label of each command.
unfoldable pub kind : Command → String
kind (Command.link_character _ _) = "link_character"
kind (Command.adjust_dkp _ _ _ _) = "adjust_dkp"
kind (Command.adjust_by_character _ _ _) = "adjust_by_character"
kind (Command.start_raid _ _ _ _ _ _) = "start_raid"
kind (Command.tick _) = "tick"
kind (Command.award_raid _ _ _) = "award_raid"
kind (Command.end_raid _ _) = "end_raid"
kind (Command.merge_raid _ _) = "merge_raid"
kind (Command.record_raid_kills _ _) = "record_raid_kills"
kind (Command.rename_raid _ _) = "rename_raid"
kind (Command.open_auction _) = "open_auction"
kind (Command.place_bid _ _ _ _ _) = "place_bid"
kind (Command.retract_bid _ _) = "retract_bid"
kind (Command.close_auction _ _) = "close_auction"
kind (Command.finalize_auction _) = "finalize_auction"
kind (Command.cancel_auction _ _) = "cancel_auction"
kind (Command.roll_for_auction _ _ _ _) = "roll_for_auction"
kind (Command.update_config _) = "update_config"
kind (Command.set_roster_character _ _ _) = "set_roster_character"
kind (Command.remove_roster_character _ _) = "remove_roster_character"
kind (Command.rank_roster_character _ _ _) = "rank_roster_character"
kind (Command.upload_roster_profile _ _ _ _) = "upload_roster_profile"
kind (Command.issue_token _ _ _) = "issue_token"
kind (Command.refresh_access _ _) = "refresh_access"
kind (Command.revoke_token _) = "revoke_token"
kind (Command.import_player _) = "import_player"
kind (Command.import_raid _) = "import_raid"
