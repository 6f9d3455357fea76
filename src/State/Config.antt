-- ===== src/State/Config.antt =====
-- `GuildConfig` of crates/nocturnal-core/src/state.rs: its channels and its patches.
use nocturnal_discord.Prelude.{ℕ, Option, none, some, List, [], ◌∷◌}
use nocturnal_discord.Event.{ConfigPatch}
use nocturnal_discord.State.{GuildConfig}

-- `GuildConfig::raid_channels`
unfoldable pub raid_channels : GuildConfig → List ℕ
raid_channels c = elim c.raid_channel [
  | none ↦ c.extra_raid_channels
  | some r ↦ r ∷ c.extra_raid_channels
]

-- `if let Some(v) = p.f { self.f = v }`
abbrev pub set_if {ℓ} : {A : Type ℓ} → Option A → A → A
set_if none old = old
set_if (some v) old = v

-- `if let Some(v) = p.f { self.f = Some(v) }`
abbrev pub put_if {ℓ} : {A : Type ℓ} → Option A → Option A → Option A
put_if none old = old
put_if (some v) old = some v

abbrev second_then_extras : Option ℕ → Option (List ℕ) → List ℕ → List ℕ
second_then_extras second extras old = set_if extras (elim second [ none ↦ old | some v ↦ v ∷ [] ])

-- `GuildConfig::apply_patch`
unfoldable pub apply_patch : GuildConfig → ConfigPatch → GuildConfig
apply_patch c p = record {
  admin_role = put_if p.admin_role c.admin_role;
  raid_channel = put_if p.raid_channel c.raid_channel;
  extra_raid_channels =
      second_then_extras p.second_raid_channel p.extra_raid_channels c.extra_raid_channels;
  log_channel = put_if p.log_channel c.log_channel;
  auction_channel = put_if p.auction_channel c.auction_channel;
  long_auction_channel = put_if p.long_auction_channel c.long_auction_channel;
  tick_duration_ms = set_if p.tick_duration_ms c.tick_duration_ms;
  raid_deprecation_ms = set_if p.raid_deprecation_ms c.raid_deprecation_ms;
  bid_time_s = set_if p.bid_time_s c.bid_time_s;
  min_bid = set_if p.min_bid c.min_bid;
  min_bid_to_lock_for_main = set_if p.min_bid_to_lock_for_main c.min_bid_to_lock_for_main;
  over_bid_to_win_main = set_if p.over_bid_to_win_main c.over_bid_to_win_main;
  raidhelper_api_key = put_if p.raidhelper_api_key c.raidhelper_api_key;
  raidhelper_event_dkp = set_if p.raidhelper_event_dkp c.raidhelper_event_dkp;
  character_bids = set_if p.character_bids c.character_bids;
  main_bid_min_attendance = set_if p.main_bid_min_attendance c.main_bid_min_attendance;
  alt_bid_min_attendance = set_if p.alt_bid_min_attendance c.alt_bid_min_attendance;
  main_bid_min_level = set_if p.main_bid_min_level c.main_bid_min_level;
  alt_bid_min_level = set_if p.alt_bid_min_level c.alt_bid_min_level;
}
