-- ===== src/Invariant/Access.antt =====
-- Telemetry access and configuration: apply.rs and decide.rs of crates/nocturnal-core/src.
use nocturnal_discord.Prelude.{◌≡◌, true, List, String, arith}
use nocturnal_discord.State.{GuildState}
use nocturnal_discord.Prelude.Int.{ℤ}
use nocturnal_discord.Prelude.Rising.{Rising, insert-Rising}
use nocturnal_discord.Prelude.Rising.Kept.{remove-Rising, modify-Rising}
use nocturnal_discord.Prelude.OrdMap
use nocturnal_discord.Prelude.OrdMap.{text_key, nat_key}
use nocturnal_discord.Event.{Event, Actor, PlayerId, ProfileSource}
use nocturnal_discord.Platform.{Platform}
use nocturnal_discord.Command.{Command, Ctx}
use nocturnal_discord.Reject.{ok}
use nocturnal_discord.Decide.Step.{decide_guild}
use nocturnal_discord.Contract.Guard.{Guard, apply_all}
use nocturnal_discord.Contract.Whole.{decision-keeps}
use nocturnal_discord.Apply.Step.{apply_event}
use nocturnal_discord.Apply.Raids.{
  award, raid_started, raid_ended, raid_merged, raid_kills_recorded, raid_renamed, raid_imported,
}
use nocturnal_discord.Apply.Players.{character_linked, player_imported, dkp_adjusted}
use nocturnal_discord.Apply.Auctions.{
  auction_opened, bid_placed, bid_retracted, auction_closed, auction_finalized, auction_rolled,
  auction_roll_off, auction_cancelled,
}
use nocturnal_discord.Apply.Roster.{
  config_updated, telemetry_token_issued, telemetry_access_updated, telemetry_token_revoked,
  roster_character_set, roster_profile_uploaded, roster_character_removed,
}

-- A username with a grant is one that the ledger manages.
abbrev pub Managed : GuildState → Type 0
Managed g =
    (u : String)
    → OrdMap.contains_key g.telemetry u ≡ true
    → OrdMap.contains_key g.telemetry_managed u ≡ true

module _ (p : Platform) (g : GuildState) (ts : ℤ) (actor : Actor) where
  -- The handlers that branch leave the telemetry tables alone.
  raid_merged-telemetry :
      (a b : String)
      → ((raid_merged g a b).telemetry ≡ g.telemetry)
        × ((raid_merged g a b).telemetry_managed ≡ g.telemetry_managed)
  unfolding raid_merged
  raid_merged-telemetry a b = ground arith

  raid_renamed-telemetry :
      (a b : String)
      → ((raid_renamed g a b).telemetry ≡ g.telemetry)
        × ((raid_renamed g a b).telemetry_managed ≡ g.telemetry_managed)
  unfolding raid_renamed
  raid_renamed-telemetry a b = ground arith

  roster_profile_uploaded-telemetry :
      (a : PlayerId) (b : String) (c : ProfileSource) (d : String) (e : ℤ)
      → ((roster_profile_uploaded p g a b c d e).telemetry ≡ g.telemetry)
        × ((roster_profile_uploaded p g a b c d e).telemetry_managed ≡ g.telemetry_managed)
  unfolding roster_profile_uploaded
  roster_profile_uploaded-telemetry a b c d e = ground arith

  roster_character_removed-telemetry :
      (a : PlayerId) (b : String)
      → ((roster_character_removed p g a b).telemetry ≡ g.telemetry)
        × ((roster_character_removed p g a b).telemetry_managed ≡ g.telemetry_managed)
  unfolding roster_character_removed
  roster_character_removed-telemetry a b = ground arith

  pub apply_event-Managed :
      (e : Event) → Guard p g ts e → Managed g → Managed (apply_event p g ts actor e)
  unfolding apply_event auction_opened bid_placed bid_retracted auction_closed auction_finalized
      auction_rolled auction_roll_off auction_cancelled award raid_started raid_ended
      raid_kills_recorded raid_imported character_linked player_imported dkp_adjusted config_updated
      telemetry_token_issued telemetry_access_updated telemetry_token_revoked roster_character_set
      OrdMap.contains_key
  apply_event-Managed (Event.telemetry_token_issued a b c) h v u = ground (
    arith,
    v u,
    OrdMap.get-insert g.telemetry a u (record { token_fp = b; role = c }),
    OrdMap.get-insert g.telemetry_managed a u tt,
  )
  apply_event-Managed (Event.telemetry_access_updated a b) h v u =
      ground (arith, v u, OrdMap.get-modify g.telemetry a u (λ t. record t { role = b }))
  apply_event-Managed (Event.telemetry_token_revoked a) h v u =
      ground (arith, v u, OrdMap.get-remove g.telemetry a u)
  apply_event-Managed (Event.raid_merged a b) h v u =
      let same_tables = raid_merged-telemetry a b in rw (same_tables.0, same_tables.1) (v u)
  apply_event-Managed (Event.raid_renamed a b) h v u =
      let same_tables = raid_renamed-telemetry a b in rw (same_tables.0, same_tables.1) (v u)
  apply_event-Managed (Event.roster_character_removed a b) h v u =
      let same_tables = roster_character_removed-telemetry a b in
      rw (same_tables.0, same_tables.1) (v u)
  apply_event-Managed (Event.roster_profile_uploaded a b c d e) h v u =
      let same_tables = roster_profile_uploaded-telemetry a b c d e in
      rw (same_tables.0, same_tables.1) (v u)
  apply_event-Managed _ h v u = v u

-- The names with a grant, in their order.
abbrev pub Ordered : GuildState → Type 0
Ordered g = Rising g.telemetry

module _ (p : Platform) (g : GuildState) (ts : ℤ) (actor : Actor) where
  pub apply_event-Ordered : (e : Event) → Ordered g → Ordered (apply_event p g ts actor e)
  unfolding apply_event auction_opened bid_placed bid_retracted auction_closed auction_finalized
      auction_rolled auction_roll_off auction_cancelled award raid_started raid_ended
      raid_kills_recorded raid_imported character_linked player_imported dkp_adjusted config_updated
      telemetry_token_issued telemetry_access_updated telemetry_token_revoked roster_character_set
  apply_event-Ordered (Event.telemetry_token_issued a b c) v =
      insert-Rising g.telemetry a (record { token_fp = b; role = c }) v
  apply_event-Ordered (Event.telemetry_access_updated a b) v =
      modify-Rising g.telemetry a (λ t. record t { role = b }) v
  apply_event-Ordered (Event.telemetry_token_revoked a) v = remove-Rising g.telemetry a v
  apply_event-Ordered (Event.raid_merged a b) v = rw (raid_merged-telemetry p g ts actor a b).0 v
  apply_event-Ordered (Event.raid_renamed a b) v = rw (raid_renamed-telemetry p g ts actor a b).0 v
  apply_event-Ordered (Event.roster_character_removed a b) v =
      rw (roster_character_removed-telemetry p g ts actor a b).0 v
  apply_event-Ordered (Event.roster_profile_uploaded a b c d e) v =
      rw (roster_profile_uploaded-telemetry p g ts actor a b c d e).0 v
  apply_event-Ordered _ v = v

-- Every name that one guild manages is managed in another.
abbrev pub Remembers : GuildState → GuildState → Type 0
Remembers g g' =
    (u : String)
    → OrdMap.contains_key g.telemetry_managed u ≡ true
    → OrdMap.contains_key g'.telemetry_managed u ≡ true

module _ (p : Platform) (g : GuildState) (ts : ℤ) (actor : Actor) where
  -- No event makes the ledger forget a name that it manages.
  apply_event-Remembers : (e : Event) → Remembers g (apply_event p g ts actor e)
  unfolding apply_event auction_opened bid_placed bid_retracted auction_closed auction_finalized
      auction_rolled auction_roll_off auction_cancelled award raid_started raid_ended
      raid_kills_recorded raid_imported character_linked player_imported dkp_adjusted config_updated
      telemetry_token_issued telemetry_access_updated telemetry_token_revoked roster_character_set
      OrdMap.contains_key
  apply_event-Remembers (Event.telemetry_token_issued a b c) u h =
      ground (arith, OrdMap.get-insert g.telemetry_managed a u tt)
  apply_event-Remembers (Event.raid_merged a b) u h =
      rw (raid_merged-telemetry p g ts actor a b).1 h
  apply_event-Remembers (Event.raid_renamed a b) u h =
      rw (raid_renamed-telemetry p g ts actor a b).1 h
  apply_event-Remembers (Event.roster_character_removed a b) u h =
      rw (roster_character_removed-telemetry p g ts actor a b).1 h
  apply_event-Remembers (Event.roster_profile_uploaded a b c d e) u h =
      rw (roster_profile_uploaded-telemetry p g ts actor a b c d e).1 h
  apply_event-Remembers _ u h = h

-- Every accepted command keeps each name with a grant among the managed names, and makes the ledger
-- forget no managed name, so the line of a revoked name can still be told from a service's.
pub decision-Managed :
    (p : Platform) (g : GuildState) (ctx : Ctx) (cmd : Command) (es : List Event)
    → decide_guild p g ctx cmd ≡ ok es
    → Managed g
    → Managed (apply_all p g ctx.now_ms ctx.actor es)
      × Remembers g (apply_all p g ctx.now_ms ctx.actor es)
decision-Managed p g ctx cmd es h v =
    decision-keeps p {P = λ g'. Managed g' × Remembers g g'}
      (λ g' ts actor e guard kept. (
        apply_event-Managed p g' ts actor e guard kept.0,
        λ u r. apply_event-Remembers p g' ts actor e u (kept.1 u r),
      ))
      g ctx cmd es h (v, λ u r. r)
