-- ===== src/Decide/Config.antt =====
-- `validate_config` of crates/nocturnal-core/src/decide.rs.
use nocturnal_discord.Prelude.{
  ℕ, Bool, false, Option, none, some, List, [], ◌∷◌, ◌++◌, String, ◌||◌, ◌==◌, not, ltb,
}
use nocturnal_discord.Prelude.Int.{pos, ltb_ℤ, leb_ℤ, within}
use nocturnal_discord.Prelude.Lists.{any, length}
use nocturnal_discord.Prelude.Text.{trim, is_empty}
use nocturnal_discord.Event.{Event, ConfigPatch, Secret}
use nocturnal_discord.Reject.{Rejection, Result, ok, ◌>>◌, reject_if}
use nocturnal_discord.State.{GuildState, GuildConfig}
use nocturnal_discord.State.Config.{apply_patch}
use Prim.Native.String.{len}

-- `MAX_EXTRA_RAID_CHANNELS`
abbrev pub max_extra_raid_channels : ℕ
max_extra_raid_channels = 9

abbrev pub bad : String → String → Rejection
bad setting reason = Rejection.invalid_config setting reason

-- `value.is_some_and(test)`
abbrev pub is_some_and {ℓ} : {A : Type ℓ} → Option A → (A → Bool) → Bool
is_some_and none f = false
is_some_and (some a) f = f a

abbrev pub is_blank_key : Secret → Bool
is_blank_key k = is_empty (trim k.text) || not (len (trim k.text) == len k.text)

abbrev pub or_else : Option ℕ → Option ℕ → Option ℕ
or_else none b = b
or_else (some a) b = some a

-- `extras.iter().enumerate().any(|(i, c)| extras[..i].contains(c))`
unfoldable pub repeats : List ℕ → List ℕ → Bool
repeats seen [] = false
repeats seen (c ∷ cs) = any (λ x. x == c) seen || repeats (seen ++ c ∷ []) cs

-- The checks on the single values of a patch.
unfoldable pub validate_values : ConfigPatch → Result (Unit {0})
validate_values p = do
  reject_if (is_some_and p.tick_duration_ms (λ ms. leb_ℤ ms (pos 0)))
      (bad "tickduration" "must be more than zero minutes")
  reject_if (is_some_and p.raid_deprecation_ms (λ ms. leb_ℤ ms (pos 0)))
      (bad "raiddeprecationtime" "must be more than zero days")
  reject_if (is_some_and p.bid_time_s (λ s. not (within (pos 30) (pos 1000) s)))
      (bad "bidtime" "must be between 30 and 1000 seconds")
  reject_if (is_some_and p.min_bid (λ v. ltb_ℤ v (pos 0))) (bad "minbid" "cannot be negative")
  reject_if (is_some_and p.min_bid_to_lock_for_main (λ v. ltb_ℤ v (pos 0)))
      (bad "minbidtolockformain" "cannot be negative")
  reject_if (is_some_and p.over_bid_to_win_main (λ v. ltb_ℤ v (pos 0)))
      (bad "overbidtowinmain" "cannot be negative")
  reject_if (is_some_and p.raidhelper_event_dkp (λ v. ltb_ℤ v (pos 0)))
      (bad "raidhelpereventdkp" "cannot be negative")
  reject_if (is_some_and p.main_bid_min_attendance (λ v. not (within (pos 0) (pos 100) v)))
      (bad "mainbidminra" "is a percentage: 0 to 100")
  reject_if (is_some_and p.alt_bid_min_attendance (λ v. not (within (pos 0) (pos 100) v)))
      (bad "altbidminra" "is a percentage: 0 to 100")
  reject_if (is_some_and p.main_bid_min_level (λ v. not (within (pos 0) (pos 65) v)))
      (bad "mainbidminlevel" "is a level: 0 (none) to 65")
  reject_if (is_some_and p.alt_bid_min_level (λ v. not (within (pos 0) (pos 65) v)))
      (bad "altbidminlevel" "is a level: 0 (none) to 65")

-- The raid channel against the one second channel of a legacy patch.
unfoldable pub second_is_raid_channel : Option ℕ → Option ℕ → Bool
second_is_raid_channel (some r) (some s) = r == s
second_is_raid_channel _ _ = false

-- The checks on the channels that the patched configuration would hold.
unfoldable pub validate_channels : GuildConfig → Result (Unit {0})
unfolding repeats
validate_channels merged = do
  reject_if (ltb max_extra_raid_channels (length merged.extra_raid_channels))
      (bad "extraraidchannels" "has room for 9 channels: a raid counts at most 10 voice channels")
  reject_if (is_some_and merged.raid_channel (λ r. any (λ c. c == r) merged.extra_raid_channels))
      (bad "extraraidchannels" "cannot include the raid channel itself")
  reject_if (repeats [] merged.extra_raid_channels)
      (bad "extraraidchannels" "names the same channel twice")

-- `validate_config`
unfoldable pub validate_config : GuildState → ConfigPatch → Result (Unit {0})
unfolding validate_values second_is_raid_channel validate_channels apply_patch trim is_empty
validate_config g p = do
  validate_values p
  reject_if (is_some_and p.raidhelper_api_key is_blank_key)
      (bad "raidhelperapikey" "cannot be blank or have surrounding whitespace")
  reject_if
      (second_is_raid_channel (or_else p.raid_channel g.config.raid_channel) p.second_raid_channel)
      (bad "secondraidchannel" "must be a different channel from the raid channel")
  validate_channels (apply_patch g.config p)

-- `Command::UpdateConfig`
unfoldable pub decide_update_config : GuildState → ConfigPatch → Result (List Event)
decide_update_config g patch = do validate_config g patch; ok (Event.config_updated patch ∷ [])
