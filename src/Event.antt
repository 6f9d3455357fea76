-- ===== src/Event.antt =====
-- crates/nocturnal-core/src/event.rs: the facts of the ledger and the envelope that each wears.
-- A `u64`, `u32` or `u8` is a ℕ and an `i64` a ℤ; an `f64` is its bit pattern.
pub mod Names
use nocturnal_discord.Prelude.{ℕ, Bool, Option, List, String}
use nocturnal_discord.Prelude.Int.{ℤ}

abbrev pub GuildId : Type 0
GuildId = ℕ

abbrev pub PlayerId : Type 0
PlayerId = ℕ

-- The bits of an `f64`; its arithmetic is a parameter of the definitions that use it.
pub record F64 : Type 0 where
  pub bits : ℕ

pub data Actor : Type 0 where
  user : PlayerId → Actor
  system : Actor

pub record Item : Type 0 where
  pub id : String
  pub name : String
  pub url : Option String
  pub stat_block : Option String
  pub image : Option String

pub record RaidRef : Type 0 where
  pub raid_id : String
  pub name : String

pub data Flavor : Type 0 where
  short long roll : Flavor

pub record Roll : Type 0 where
  pub player : PlayerId
  pub roll : ℕ

pub record Winner : Type 0 where
  pub player : PlayerId
  pub amount : ℤ
  pub for_main : Bool
  pub character : Option String

pub record ImportedLogEntry : Type 0 where
  pub dkp : ℤ
  pub comment : String
  pub ts_ms : ℤ
  pub raid : Option RaidRef
  pub item : Option Item

pub record Secret : Type 0 where
  pub text : String

pub data MainRank : Type 0 where
  main second : MainRank

pub data ProfileSource : Type 0 where
  quarmy_file inventory_file : ProfileSource

pub record RosterCharacter : Type 0 where
  pub name : String
  pub class : String
  pub level : ℕ
  pub aa : Option ℕ
  pub profile_url : Option String
  pub access : List String
  pub main : Option MainRank

pub data KillEvidence : Type 0 where
  death lockout damage : KillEvidence

pub record RaidKill : Type 0 where
  pub target : String
  pub name : String
  pub killed_ms : ℤ
  pub evidence : KillEvidence

-- A field that is `none` is left unchanged.
pub record ConfigPatch : Type 0 where
  pub admin_role : Option ℕ
  pub raid_channel : Option ℕ
  pub second_raid_channel : Option ℕ
  pub extra_raid_channels : Option (List ℕ)
  pub log_channel : Option ℕ
  pub auction_channel : Option ℕ
  pub long_auction_channel : Option ℕ
  pub tick_duration_ms : Option ℤ
  pub raid_deprecation_ms : Option ℤ
  pub bid_time_s : Option ℤ
  pub min_bid : Option ℤ
  pub min_bid_to_lock_for_main : Option ℤ
  pub over_bid_to_win_main : Option ℤ
  pub raidhelper_api_key : Option Secret
  pub raidhelper_event_dkp : Option ℤ
  pub character_bids : Option Bool
  pub main_bid_min_attendance : Option ℤ
  pub alt_bid_min_attendance : Option ℤ
  pub main_bid_min_level : Option ℤ
  pub alt_bid_min_level : Option ℤ

pub record ImportedAttendance : Type 0 where
  pub players : List PlayerId
  pub comment : String
  pub ts_ms : ℤ
  pub amount : ℤ

-- The payloads of the larger events.
pub record ImportedPlayer : Type 0 where
  pub player : PlayerId
  pub balance : ℤ
  pub characters : List String
  pub creation_ts_ms : ℤ
  pub log : List ImportedLogEntry
  pub legacy_id : Option String

pub record ImportedRaid : Type 0 where
  pub raid_id : String
  pub name : String
  pub date_ms : ℤ
  pub entries : List ImportedAttendance
  pub tick_interval_ms : ℤ
  pub dkp_per_tick : ℤ
  pub event_id : Option String

pub record OpenedAuction : Type 0 where
  pub auction_id : String
  pub item : Item
  pub flavor : Flavor
  pub min_bid : ℤ
  pub num_items : ℕ
  pub min_bid_to_lock_for_main : ℤ
  pub over_bid_to_win_main : ℤ
  pub deadline_ts_ms : ℤ
  pub debit_dkp : Bool
  pub live : Bool
  pub voice_channel : Option ℕ
  pub rollers : Option (List PlayerId)
  pub roll_cost : ℤ

pub record PlacedBid : Type 0 where
  pub auction_id : String
  pub player : PlayerId
  pub amount : ℤ
  pub for_main : Bool
  pub attendance : F64
  pub character : Option String

pub data Event : Type 0 where
  character_linked : (player : PlayerId) (character : String) → Event
  player_imported : ImportedPlayer → Event
  dkp_adjusted :
      (player : PlayerId) (delta : ℤ) (comment : String) (raid : Option RaidRef)
      (item : Option Item)
      → Event
  raid_started :
      (raid_id name : String) (tick_interval_ms dkp_per_tick : ℤ) (event_id : Option String) → Event
  raid_awarded :
      (raid_id : String) (players : List PlayerId) (amount : ℤ) (comment : String) → Event
  raid_ticked : (raid_id : String) (tick_no : ℕ) (players : List PlayerId) (amount : ℤ) → Event
  raid_ended : (raid_id reason : String) → Event
  raid_merged : (from_id into_id : String) → Event
  raid_renamed : (raid_id name : String) → Event
  raid_kills_recorded : (raid_id : String) (kills : List RaidKill) → Event
  raid_imported : ImportedRaid → Event
  auction_opened : OpenedAuction → Event
  bid_placed : PlacedBid → Event
  bid_retracted : (auction_id : String) (player : PlayerId) → Event
  auction_closed : (auction_id : String) (ended_ts_ms : Option ℤ) (seed : Option ℕ) → Event
  auction_finalized : (auction_id : String) (winners : List Winner) (seed : ℕ) → Event
  auction_cancelled : (auction_id reason : String) → Event
  auction_rolled : (auction_id : String) (player : PlayerId) (rolled seed : ℕ) → Event
  auction_roll_off : (auction_id : String) (rounds : List (List Roll)) → Event
  roster_character_set : (player : PlayerId) (character : RosterCharacter) → Event
  roster_character_removed : (player : PlayerId) (name : String) → Event
  roster_profile_uploaded :
      (player : PlayerId) (name : String) (source : ProfileSource) (body : String) (uploaded_ms : ℤ)
      → Event
  config_updated : ConfigPatch → Event
  telemetry_token_issued : (username token_fp role : String) → Event
  telemetry_access_updated : (username role : String) → Event
  telemetry_token_revoked : (username : String) → Event

pub record Envelope : Type 0 where
  pub seq : ℕ
  pub ts_ms : ℤ
  pub guild : GuildId
  pub actor : Actor
  pub v : ℕ
  pub correlation_id : Option String
  pub event : Event

-- The wire name of each event.
unfoldable pub kind : Event → String
kind (Event.character_linked _ _) = "player.character_linked"
kind (Event.player_imported _) = "player.imported"
kind (Event.dkp_adjusted _ _ _ _ _) = "dkp.adjusted"
kind (Event.raid_started _ _ _ _ _) = "raid.started"
kind (Event.raid_awarded _ _ _ _) = "raid.awarded"
kind (Event.raid_ticked _ _ _ _) = "raid.tick"
kind (Event.raid_ended _ _) = "raid.ended"
kind (Event.raid_merged _ _) = "raid.merged"
kind (Event.raid_renamed _ _) = "raid.renamed"
kind (Event.raid_kills_recorded _ _) = "raid.kills_recorded"
kind (Event.raid_imported _) = "raid.imported"
kind (Event.auction_opened _) = "auction.opened"
kind (Event.bid_placed _) = "auction.bid_placed"
kind (Event.bid_retracted _ _) = "auction.bid_retracted"
kind (Event.auction_closed _ _ _) = "auction.closed"
kind (Event.auction_finalized _ _ _) = "auction.finalized"
kind (Event.auction_cancelled _ _) = "auction.cancelled"
kind (Event.auction_rolled _ _ _ _) = "auction.rolled"
kind (Event.auction_roll_off _ _) = "auction.roll_off"
kind (Event.roster_character_set _ _) = "roster.character.set"
kind (Event.roster_character_removed _ _) = "roster.character.removed"
kind (Event.roster_profile_uploaded _ _ _ _ _) = "roster.profile.uploaded"
kind (Event.config_updated _) = "config.updated"
kind (Event.telemetry_token_issued _ _ _) = "telemetry.token.issued"
kind (Event.telemetry_access_updated _ _) = "telemetry.access.updated"
kind (Event.telemetry_token_revoked _) = "telemetry.token.revoked"
