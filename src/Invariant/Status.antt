-- ===== src/Invariant/Status.antt =====
-- The life of an auction: apply.rs and decide.rs of crates/nocturnal-core/src.
use nocturnal_discord.Prelude.{
  ◌≡◌, subst⁻¹, Bool, true, false, Option, none, some, List, String, arith,
}
use nocturnal_discord.Prelude.Int.{ℤ}
use nocturnal_discord.Prelude.OrdMap
use nocturnal_discord.Prelude.OrdMap.{text_key}
use nocturnal_discord.Event.{Event, Actor, PlayerId, ProfileSource}
use nocturnal_discord.Platform.{Platform}
use nocturnal_discord.State.{GuildState, Auction, AuctionStatus}
use nocturnal_discord.Apply.Step.{apply_event}
use nocturnal_discord.Apply.Raids.{
  award, raid_started, raid_ended, raid_merged, raid_kills_recorded, raid_renamed, raid_imported,
}
use nocturnal_discord.Apply.Players.{character_linked, player_imported, dkp_adjusted}
use nocturnal_discord.Apply.Auctions.{
  auction_opened, bid_placed, bid_retracted, close, auction_closed, auction_finalized,
  auction_rolled, auction_roll_off, auction_cancelled,
}
use nocturnal_discord.Apply.Roster.{
  config_updated, telemetry_token_issued, telemetry_access_updated, telemetry_token_revoked,
  roster_character_set, roster_profile_uploaded, roster_character_removed,
}
use nocturnal_discord.Contract.Guard.{Guard, apply_all}
use nocturnal_discord.Contract.Whole.{decision-keeps}
use nocturnal_discord.Command.{Command, Ctx}
use nocturnal_discord.Reject.{ok}
use nocturnal_discord.Decide.Step.{decide_guild}

abbrev pub status? : Option Auction → Option AuctionStatus
status? none = none
status? (some a) = some a.status

-- No auction, or its status.
abbrev pub status_of : GuildState → String → Option AuctionStatus
status_of g id = status? (OrdMap.get g.auctions id)

-- One step of a life: an auction opens, then closes and is finalized, or is cancelled before that.
abbrev pub may_become : Option AuctionStatus → Option AuctionStatus → Bool
may_become none none = true
may_become none (some AuctionStatus.opened) = true
may_become (some AuctionStatus.opened) (some AuctionStatus.opened) = true
may_become (some AuctionStatus.opened) (some AuctionStatus.closed) = true
may_become (some AuctionStatus.opened) (some AuctionStatus.cancelled) = true
may_become (some AuctionStatus.closed) (some AuctionStatus.closed) = true
may_become (some AuctionStatus.closed) (some AuctionStatus.finalized) = true
may_become (some AuctionStatus.closed) (some AuctionStatus.cancelled) = true
may_become (some AuctionStatus.finalized) (some AuctionStatus.finalized) = true
may_become (some AuctionStatus.cancelled) (some AuctionStatus.cancelled) = true
may_become _ _ = false

may_become_refl : (o : Option AuctionStatus) → may_become o o ≡ true
may_become_refl o = ground arith

module _ (p : Platform) (g : GuildState) (ts : ℤ) (actor : Actor) (id : String) where
  raid_merged-status : (a b : String) → status_of (raid_merged g a b) id ≡ status_of g id
  unfolding raid_merged
  raid_merged-status a b = ground arith

  roster_profile_uploaded-status :
      (a : PlayerId) (b : String) (c : ProfileSource) (d : String) (e : ℤ)
      → status_of (roster_profile_uploaded p g a b c d e) id ≡ status_of g id
  unfolding roster_profile_uploaded
  roster_profile_uploaded-status a b c d e = ground arith

  roster_character_removed-status :
      (a : PlayerId) (b : String) → status_of (roster_character_removed p g a b) id ≡ status_of g id
  unfolding roster_character_removed
  roster_character_removed-status a b = ground arith

  raid_renamed-status : (a b : String) → status_of (raid_renamed g a b) id ≡ status_of g id
  unfolding raid_renamed
  raid_renamed-status a b = ground arith

  abbrev Next : Option Auction → Type 0
  Next o = may_become (status_of g id) (status? o) ≡ true

  -- A guarded event moves each auction by one step of its life at most.
  pub apply_event-may_become :
      (e : Event)
      → Guard p g ts e
      → may_become (status_of g id) (status_of (apply_event p g ts actor e) id) ≡ true
  unfolding apply_event auction_opened bid_placed bid_retracted auction_closed close
      auction_finalized auction_rolled auction_roll_off auction_cancelled award raid_started
      raid_ended raid_kills_recorded raid_imported character_linked player_imported dkp_adjusted
      config_updated telemetry_token_issued telemetry_access_updated telemetry_token_revoked
      roster_character_set
  apply_event-may_become (Event.auction_opened o) h =
      subst⁻¹ Next (OrdMap.get-insert g.auctions o.auction_id id _)
        (ground (arith, OrdMap.same_iff o.auction_id id))
  apply_event-may_become (Event.bid_placed b) h =
      subst⁻¹ Next (OrdMap.get-modify g.auctions b.auction_id id _)
        (ground (arith, OrdMap.same_iff b.auction_id id))
  apply_event-may_become (Event.bid_retracted a b) h =
      subst⁻¹ Next (OrdMap.get-modify g.auctions a id _) (ground (arith, OrdMap.same_iff a id))
  apply_event-may_become (Event.auction_closed a b c) h =
      subst⁻¹ Next (OrdMap.get-modify g.auctions a id _) (ground (arith, OrdMap.same_iff a id))
  apply_event-may_become (Event.auction_finalized a b c) h =
      subst⁻¹ Next (OrdMap.get-modify g.auctions a id _) (ground (arith, OrdMap.same_iff a id))
  apply_event-may_become (Event.auction_cancelled a b) h =
      subst⁻¹ Next (OrdMap.get-modify g.auctions a id _) (ground (arith, OrdMap.same_iff a id))
  apply_event-may_become (Event.auction_rolled a b c d) h =
      subst⁻¹ Next (OrdMap.get-modify g.auctions a id _) (ground (arith, OrdMap.same_iff a id))
  apply_event-may_become (Event.auction_roll_off a b) h =
      subst⁻¹ Next (OrdMap.get-modify g.auctions a id _) (ground (arith, OrdMap.same_iff a id))
  apply_event-may_become (Event.raid_merged a b) h = rw raid_merged-status (may_become_refl _)
  apply_event-may_become (Event.raid_renamed a b) h = rw raid_renamed-status (may_become_refl _)
  apply_event-may_become (Event.roster_character_removed a b) h =
      rw roster_character_removed-status (may_become_refl _)
  apply_event-may_become (Event.roster_profile_uploaded a b c d e) h =
      rw roster_profile_uploaded-status (may_become_refl _)
  apply_event-may_become _ h = may_become_refl (status_of g id)

-- What a life may come to in several steps.
abbrev pub may_reach : Option AuctionStatus → Option AuctionStatus → Bool
may_reach none o = true
may_reach (some AuctionStatus.opened) (some o) = true
may_reach (some AuctionStatus.closed) (some AuctionStatus.opened) = false
may_reach (some AuctionStatus.closed) (some o) = true
may_reach (some AuctionStatus.finalized) (some AuctionStatus.finalized) = true
may_reach (some AuctionStatus.cancelled) (some AuctionStatus.cancelled) = true
may_reach _ _ = false

may_reach-may_become :
    (a b c : Option AuctionStatus)
    → may_reach a b ≡ true
    → may_become b c ≡ true
    → may_reach a c ≡ true
may_reach-may_become a b c h k = ground arith

may_reach_refl : (a : Option AuctionStatus) → may_reach a a ≡ true
may_reach_refl a = ground arith

-- An accepted decision on any command never reopens an auction, never brings back one that is
-- finalized or cancelled, and never loses one.
pub decision-may_reach :
    (p : Platform) (g : GuildState) (ctx : Ctx) (cmd : Command) (es : List Event) (id : String)
    → decide_guild p g ctx cmd ≡ ok es
    → may_reach (status_of g id) (status_of (apply_all p g ctx.now_ms ctx.actor es) id) ≡ true
decision-may_reach p g ctx cmd es id h =
    decision-keeps p {P = λ g'. may_reach (status_of g id) (status_of g' id) ≡ true}
      (λ g' ts actor e guard v.
        may_reach-may_become _ _ _ v (apply_event-may_become p g' ts actor id e guard))
      g ctx cmd es h (may_reach_refl _)
