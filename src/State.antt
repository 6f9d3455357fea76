-- ===== src/State.antt =====
-- crates/nocturnal-core/src/state.rs: the projections, and the queries on one guild.
pub mod Config
pub mod Attendance
pub mod Nights
use nocturnal_discord.Prelude.{
  ℕ, Bool, true, false, Option, none, some, List, [], ◌∷◌, ◌++◌, map, String, ◌==◌, ◌&&◌, not,
  if◌then◌else◌,
}
use nocturnal_discord.Prelude.Int.{ℤ, pos, leb_ℤ, add_i64, sub_i64}
use nocturnal_discord.Prelude.Lists.{keep, last?, take, is_nil}
use nocturnal_discord.Prelude.OrdMap
use nocturnal_discord.Prelude.OrdMap.{OrdMap, nat_key, text_key, same}
use nocturnal_discord.Event.{
  GuildId, PlayerId, F64, Item, RaidRef, Flavor, Roll, Winner, Secret, RaidKill, MainRank,
  RosterCharacter, ProfileSource,
}
use mathlib.Core.List.{foldl, reverse, flat_map}

pub record LogEntry : Type 0 where
  pub dkp : ℤ
  pub comment : String
  pub ts_ms : ℤ
  pub raid : Option RaidRef
  pub item : Option Item

pub record Player : Type 0 where
  pub balance : ℤ
  pub characters : List String
  pub creation_ts_ms : ℤ
  pub log : List LogEntry
  pub legacy_id : Option String

pub record AttendanceEntry : Type 0 where
  pub players : List PlayerId
  pub comment : String
  pub ts_ms : ℤ
  pub amount : ℤ

pub record Raid : Type 0 where
  pub name : String
  pub date_ms : ℤ
  pub tick_interval_ms : ℤ
  pub dkp_per_tick : ℤ
  pub active : Bool
  pub tick_no : ℕ
  pub event_id : Option String
  pub entries : List AttendanceEntry
  pub ended_ms : Option ℤ
  pub kills : List RaidKill

pub record Bid : Type 0 where
  pub player : PlayerId
  pub amount : ℤ
  pub for_main : Bool
  pub attendance : F64
  pub character : Option String

pub data AuctionStatus : Type 0 where
  opened closed finalized cancelled : AuctionStatus

pub record Auction : Type 0 where
  pub item : Item
  pub flavor : Flavor
  pub min_bid : ℤ
  pub num_items : ℕ
  pub min_bid_to_lock_for_main : ℤ
  pub over_bid_to_win_main : ℤ
  pub deadline_ts_ms : ℤ
  pub debit_dkp : Bool
  pub live : Bool
  pub status : AuctionStatus
  pub bids : List Bid
  pub winners : List Winner
  pub cancelled_by : Option PlayerId
  pub cancelled_ts_ms : Option ℤ
  pub rolls : List Roll
  pub roll_offs : List (List Roll)
  pub voice_channel : Option ℕ
  pub rollers : Option (List PlayerId)
  pub roll_cost : ℤ
  pub close_seed : Option ℕ

pub record GuildConfig : Type 0 where
  pub admin_role : Option ℕ
  pub raid_channel : Option ℕ
  pub extra_raid_channels : List ℕ
  pub log_channel : Option ℕ
  pub auction_channel : Option ℕ
  pub long_auction_channel : Option ℕ
  pub tick_duration_ms : ℤ
  pub raid_deprecation_ms : ℤ
  pub bid_time_s : ℤ
  pub min_bid : ℤ
  pub min_bid_to_lock_for_main : ℤ
  pub over_bid_to_win_main : ℤ
  pub raidhelper_api_key : Option Secret
  pub raidhelper_event_dkp : ℤ
  pub character_bids : Bool
  pub main_bid_min_attendance : ℤ
  pub alt_bid_min_attendance : ℤ
  pub main_bid_min_level : ℤ
  pub alt_bid_min_level : ℤ

pub record TokenGrant : Type 0 where
  pub token_fp : String
  pub role : String

pub record UploadedProfile : Type 0 where
  pub player : PlayerId
  pub name : String
  pub source : ProfileSource
  pub body : String
  pub uploaded_ms : ℤ

pub record GuildState : Type 0 where
  pub players : OrdMap PlayerId Player
  pub characters : OrdMap String PlayerId
  pub raids : OrdMap String Raid
  pub active_raid : Option String
  pub auctions : OrdMap String Auction
  pub config : GuildConfig
  pub telemetry : OrdMap String TokenGrant
  -- a set: the values carry nothing
  pub telemetry_managed : OrdMap String (Unit {0})
  pub roster : OrdMap PlayerId (OrdMap String RosterCharacter)
  pub profiles : OrdMap String UploadedProfile

pub record State : Type 0 where
  pub guilds : OrdMap GuildId GuildState

-- `AuctionStatus` and `Flavor` under `==`
abbrev pub is_opened : AuctionStatus → Bool
is_opened AuctionStatus.opened = true
is_opened _ = false

abbrev pub is_closed : AuctionStatus → Bool
is_closed AuctionStatus.closed = true
is_closed _ = false

abbrev pub is_finalized : AuctionStatus → Bool
is_finalized AuctionStatus.finalized = true
is_finalized _ = false

abbrev pub is_roll : Flavor → Bool
is_roll Flavor.roll = true
is_roll _ = false

abbrev pub is_short : Flavor → Bool
is_short Flavor.short = true
is_short _ = false

-- `Auction::tie_break_seed`
unfoldable pub tie_break_seed : Auction → ℕ
tie_break_seed a = elim a.close_seed [ none ↦ 0 | some seed ↦ seed ]

abbrev pub day_ms : ℤ
day_ms = pos 86_400_000

-- The defaults of the types.
abbrev pub default_config : GuildConfig
default_config = record {
  admin_role = none;
  raid_channel = none;
  extra_raid_channels = [];
  log_channel = none;
  auction_channel = none;
  long_auction_channel = none;
  tick_duration_ms = pos 360_000;
  raid_deprecation_ms = pos 7_776_000_000;
  bid_time_s = pos 60;
  min_bid = pos 0;
  min_bid_to_lock_for_main = pos 0;
  over_bid_to_win_main = pos 0;
  raidhelper_api_key = none;
  raidhelper_event_dkp = pos 5;
  character_bids = false;
  main_bid_min_attendance = pos 0;
  alt_bid_min_attendance = pos 0;
  main_bid_min_level = pos 0;
  alt_bid_min_level = pos 0;
}

abbrev pub default_player : Player
default_player = record {
  balance = pos 0;
  characters = [];
  creation_ts_ms = pos 0;
  log = [];
  legacy_id = none;
}

abbrev pub default_guild : GuildState
default_guild = record {
  players = [];
  characters = [];
  raids = [];
  active_raid = none;
  auctions = [];
  config = default_config;
  telemetry = [];
  telemetry_managed = [];
  roster = [];
  profiles = [];
}

abbrev pub default_state : State
default_state = record { guilds = [] }

-- `State::guild`
unfoldable pub guild : State → GuildId → Option GuildState
guild s id = OrdMap.get s.guilds id

-- A write through `State::guild_mut`, which makes the guild where it is missing.
unfoldable pub guild_mut : State → GuildId → (GuildState → GuildState) → State
guild_mut s id f = record s { guilds = OrdMap.upsert s.guilds id default_guild f }

-- `GuildState::balance`
unfoldable pub balance : GuildState → PlayerId → ℤ
balance g player = elim (OrdMap.get g.players player) [ none ↦ pos 0 | some p ↦ p.balance ]

-- `GuildState::raid_counts`
unfoldable pub raid_counts : GuildState → Raid → ℤ → Bool
unfolding sub_i64
raid_counts g raid now_ms = leb_ℤ (sub_i64 now_ms g.config.raid_deprecation_ms) raid.date_ms

-- The test of `GuildState::raiding_players` on one player.
unfoldable pub is_raiding : ℤ → Player → Bool
is_raiding cutoff p = elim (last? p.log) [ none ↦ false | some e ↦ leb_ℤ cutoff e.ts_ms ]

-- `GuildState::raiding_players`
unfoldable pub raiding_players : GuildState → ℤ → List (PlayerId × Player)
unfolding sub_i64 is_raiding
raiding_players g now_ms =
    let cutoff = sub_i64 now_ms g.config.raid_deprecation_ms in
    keep (λ e. is_raiding cutoff e.1) g.players

-- `GuildState::bid_characters`
unfoldable pub bid_characters : GuildState → PlayerId → Bool → List RosterCharacter
bid_characters g player for_main = elim (OrdMap.get g.roster player) [
  | none ↦ []
  | some chars ↦ keep (λ c. may_bid for_main c.main) (map (λ e. e.1) chars)
]
  where
    may_bid : Bool → Option MainRank → Bool
    may_bid true none = false
    may_bid _ _ = true

-- The bids of one player on one auction, as amounts.
unfoldable pub amounts_of : PlayerId → List Bid → List ℤ
amounts_of player bids = map (λ b. b.amount) (keep (λ b. b.player == player) bids)

-- `Iterator::sum` on `i64`
unfoldable pub sum_i64 : List ℤ → ℤ
unfolding add_i64
sum_i64 = foldl add_i64 (pos 0)

-- `GuildState::committed_elsewhere`
unfoldable pub committed_elsewhere : GuildState → PlayerId → String → ℤ
unfolding amounts_of sum_i64
committed_elsewhere g player except_auction = sum_i64 (
    flat_map (λ e. amounts_of player e.1.bids)
      (keep (λ e. is_opened e.1.status && not (same e.0 except_auction)) g.auctions))

-- The auctions that `GuildState::recent_won_auctions` counts.
unfoldable pub is_price : String → String → String × Auction → Bool
is_price item_id exclude (id, a) =
    not (same id exclude)
    && same a.item.id item_id
    && is_finalized a.status
    && a.debit_dkp
    && not (is_nil a.winners)

-- `GuildState::recent_won_auctions`
unfoldable pub recent_won_auctions : GuildState → String → Option String → ℕ → List Auction
unfolding is_price
recent_won_auctions g item_id exclude limit =
    let skip : String = elim exclude [ none ↦ "" | some id ↦ id ] in
    take limit (map (λ e. e.1) (keep (is_price item_id skip) (reverse g.auctions)))
