-- ===== src/Invariant/Configured.antt =====
-- The values of a guild's configuration: decide.rs, apply.rs and state.rs of crates/nocturnal-core/src.
use nocturnal_discord.Prelude.{◌≡◌, Option, none, some, List, String, arith}
use nocturnal_discord.Prelude.Int.{ℤ, pos, ◌≤ℤ◌, ◌<ℤ◌}
use nocturnal_discord.Prelude.OrdMap.{text_key, nat_key}
use nocturnal_discord.Event.{Event, Envelope, Actor, PlayerId, ProfileSource, ConfigPatch, GuildId}
use nocturnal_discord.Platform.{Platform}
use nocturnal_discord.State.{GuildState, GuildConfig, default_guild}
use nocturnal_discord.State.Config.{set_if, apply_patch}
use nocturnal_discord.Contract.Guard.{Guard}
use nocturnal_discord.Contract.Settings.{Each, Between, Channels, Settings}
use nocturnal_discord.Contract.Whole.{decision-keeps}
use nocturnal_discord.Apply.Step.{apply_event}
use nocturnal_discord.Apply.Raids.{
  award, raid_started, raid_ended, raid_merged, raid_kills_recorded, raid_renamed, raid_imported,
}
use nocturnal_discord.Apply.Players.{character_linked, player_imported, dkp_adjusted}
use nocturnal_discord.Apply.Auctions.{
  auction_opened, bid_placed, bid_retracted, auction_closed, auction_finalized, auction_rolled,
  auction_roll_off, auction_cancelled,
}
use nocturnal_discord.Apply.Roster.{
  config_updated, telemetry_token_issued, telemetry_access_updated, telemetry_token_revoked,
  roster_character_set, roster_profile_uploaded, roster_character_removed,
}
use nocturnal_discord.Ledger.{Ledger}
use nocturnal_discord.Ledger.Recovery.{Reached}
use nocturnal_discord.Ledger.Sound.{guild_at, Reached-keeps}

-- Times that pass, amounts that are no debt, percentages and levels, and channels that a raid can
-- count.
abbrev pub IsValid : GuildConfig → Type 0
IsValid c =
    ((pos 0 <ℤ c.tick_duration_ms)
      × (pos 0 <ℤ c.raid_deprecation_ms)
      × Between (pos 30) (pos 1000) c.bid_time_s
      × (pos 0 ≤ℤ c.min_bid)
      × (pos 0 ≤ℤ c.min_bid_to_lock_for_main)
      × (pos 0 ≤ℤ c.over_bid_to_win_main)
      × (pos 0 ≤ℤ c.raidhelper_event_dkp)
      × Between (pos 0) (pos 100) c.main_bid_min_attendance
      × Between (pos 0) (pos 100) c.alt_bid_min_attendance
      × Between (pos 0) (pos 65) c.main_bid_min_level
      × Between (pos 0) (pos 65) c.alt_bid_min_level)
    × Channels c

set_if-Each : (P : ℤ → Type 0) (o : Option ℤ) (v : ℤ) → Each o P → P v → P (set_if o v)
set_if-Each P none v e h = h
set_if-Each P (some w) v e h = e

apply_patch-IsValid :
    (g : GuildState) (p : ConfigPatch)
    → Settings g p
    → IsValid g.config
    → IsValid (apply_patch g.config p)
unfolding apply_patch
apply_patch-IsValid g p (s, channels) (v, _) = (
  (
    set_if-Each (λ x. pos 0 <ℤ x) p.tick_duration_ms _ s.0 v.0,
    set_if-Each (λ x. pos 0 <ℤ x) p.raid_deprecation_ms _ s.1 v.1,
    set_if-Each (Between (pos 30) (pos 1000)) p.bid_time_s _ s.2 v.2,
    set_if-Each (λ x. pos 0 ≤ℤ x) p.min_bid _ s.3 v.3,
    set_if-Each (λ x. pos 0 ≤ℤ x) p.min_bid_to_lock_for_main _ s.4 v.4,
    set_if-Each (λ x. pos 0 ≤ℤ x) p.over_bid_to_win_main _ s.5 v.5,
    set_if-Each (λ x. pos 0 ≤ℤ x) p.raidhelper_event_dkp _ s.6 v.6,
    set_if-Each (Between (pos 0) (pos 100)) p.main_bid_min_attendance _ s.7 v.7,
    set_if-Each (Between (pos 0) (pos 100)) p.alt_bid_min_attendance _ s.8 v.8,
    set_if-Each (Between (pos 0) (pos 65)) p.main_bid_min_level _ s.9 v.9,
    set_if-Each (Between (pos 0) (pos 65)) p.alt_bid_min_level _ s.10 v.10,
  ),
  channels,
)

module _ (p : Platform) (g : GuildState) (ts : ℤ) (actor : Actor) where
  raid_merged-config : (a b : String) → (raid_merged g a b).config ≡ g.config
  unfolding raid_merged
  raid_merged-config a b = ground arith

  raid_renamed-config : (a b : String) → (raid_renamed g a b).config ≡ g.config
  unfolding raid_renamed
  raid_renamed-config a b = ground arith

  roster_profile_uploaded-config :
      (a : PlayerId) (b : String) (c : ProfileSource) (d : String) (e : ℤ)
      → (roster_profile_uploaded p g a b c d e).config ≡ g.config
  unfolding roster_profile_uploaded
  roster_profile_uploaded-config a b c d e = ground arith

  roster_character_removed-config :
      (a : PlayerId) (b : String) → (roster_character_removed p g a b).config ≡ g.config
  unfolding roster_character_removed
  roster_character_removed-config a b = ground arith

  apply_event-IsValid :
      (e : Event) → Guard p g ts e → IsValid g.config → IsValid (apply_event p g ts actor e).config
  unfolding apply_event auction_opened bid_placed bid_retracted auction_closed auction_finalized
      auction_rolled auction_roll_off auction_cancelled award raid_started raid_ended
      raid_kills_recorded raid_imported character_linked player_imported dkp_adjusted config_updated
      telemetry_token_issued telemetry_access_updated telemetry_token_revoked roster_character_set
  apply_event-IsValid (Event.config_updated patch) h v = apply_patch-IsValid g patch h v
  apply_event-IsValid (Event.raid_merged a b) h v = rw (raid_merged-config a b) v
  apply_event-IsValid (Event.raid_renamed a b) h v = rw (raid_renamed-config a b) v
  apply_event-IsValid (Event.roster_character_removed a b) h v =
      rw (roster_character_removed-config a b) v
  apply_event-IsValid (Event.roster_profile_uploaded a b c d e) h v =
      rw (roster_profile_uploaded-config a b c d e) v
  apply_event-IsValid _ h v = v

default-IsValid : IsValid default_guild.config
default-IsValid = ground arith

-- In every ledger that commands lead to from an empty one, the configuration of every guild is one
-- that works: the durations are positive and the bidding time within its bounds, the bid settings
-- and the points of an event are not negative, the lines of attendance are percentages and those of
-- level are levels, and the extra raid channels are nine at most, different, and not the raid
-- channel.
pub Reached-IsValid :
    (p : Platform) (l : Ledger) (log : List Envelope) (k : GuildId)
    → Reached p l log
    → IsValid (guild_at l.state k).config
Reached-IsValid p l log k r =
    Reached-keeps p {P = λ g. IsValid g.config}
      (λ g ctx cmd es h v.
        decision-keeps p {P = λ g'. IsValid g'.config}
          (λ g' ts actor e guard w. apply_event-IsValid p g' ts actor e guard w) g ctx cmd es h v)
      default-IsValid l log r k
