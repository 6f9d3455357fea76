-- ===== src/Invariant/Entries.antt =====
-- One bid and one roll per player on an auction: apply.rs of crates/nocturnal-core/src.
use nocturnal_discord.Prelude.{
  ◌≡◌, subst, subst⁻¹, Option, none, some, arith, Bool-cases, inl, inr, String, ◌==◌, not,
  Option-cases,
}
use nocturnal_discord.Prelude.Int.{ℤ}
use nocturnal_discord.Prelude.OrdMap
use nocturnal_discord.Prelude.OrdMap.{nat_key, text_key}
use nocturnal_discord.Event.{Event, Actor, PlayerId, ProfileSource}
use nocturnal_discord.Platform.{Platform}
use nocturnal_discord.State.{GuildState, Auction}
use nocturnal_discord.Apply.Step.{apply_event}
use nocturnal_discord.Apply.Raids.{
  award, raid_started, raid_ended, raid_merged, raid_kills_recorded, raid_renamed, raid_imported,
}
use nocturnal_discord.Apply.Players.{character_linked, player_imported, dkp_adjusted}
use nocturnal_discord.Apply.Auctions.{
  auction_opened, bid_placed, bid_retracted, close, auction_closed, auction_finalized,
  auction_rolled, auction_roll_off, auction_cancelled,
}
use nocturnal_discord.Apply.Roster.{
  config_updated, telemetry_token_issued, telemetry_access_updated, telemetry_token_revoked,
  roster_character_set, roster_profile_uploaded, roster_character_removed,
}
use nocturnal_discord.Invariant.Once.{
  Once, bidders, rollers_of, join-Once, keep-Once, bidders-keep, bidders-place, rollers_of-add_roll,
}

abbrev pub OnceAt : Option Auction → Type 0
OnceAt none = Unit
OnceAt (some a) = Once (bidders a.bids) × Once (rollers_of a.rolls)

-- No auction has two bids or two rolls of one player.
abbrev pub OnePerPlayer : GuildState → Type 0
OnePerPlayer g = (id : String) → OnceAt (OrdMap.get g.auctions id)

-- A change of one auction that keeps its players apart.
modify-OnceAt :
    (g : GuildState) (id k : String) (f : Auction → Auction)
    → ((a : Auction) → OnceAt (some a) → OnceAt (some (f a)))
    → OnePerPlayer g
    → OnceAt (OrdMap.get (OrdMap.modify g.auctions id f) k)
modify-OnceAt g id k f h v =
    subst⁻¹ OnceAt (OrdMap.get-modify g.auctions id k f) (elim (Bool-cases (OrdMap.same id k)) [
      | inl e ↦ rw e (elim (Option-cases (OrdMap.get g.auctions k)) [
        | inl missing ↦ rw missing tt
        | inr (a, found) ↦ rw found (h a (subst OnceAt found (v k)))
      ])
      | inr e ↦ rw e (v k)
    ])

module _ (p : Platform) (g : GuildState) (ts : ℤ) (actor : Actor) where
  raid_merged-auctions : (a b : String) → (raid_merged g a b).auctions ≡ g.auctions
  unfolding raid_merged
  raid_merged-auctions a b = ground arith

  raid_renamed-auctions : (a b : String) → (raid_renamed g a b).auctions ≡ g.auctions
  unfolding raid_renamed
  raid_renamed-auctions a b = ground arith

  roster_profile_uploaded-auctions :
      (a : PlayerId) (b : String) (c : ProfileSource) (d : String) (e : ℤ)
      → (roster_profile_uploaded p g a b c d e).auctions ≡ g.auctions
  unfolding roster_profile_uploaded
  roster_profile_uploaded-auctions a b c d e = ground arith

  roster_character_removed-auctions :
      (a : PlayerId) (b : String) → (roster_character_removed p g a b).auctions ≡ g.auctions
  unfolding roster_character_removed
  roster_character_removed-auctions a b = ground arith

  -- Whatever the event, and with no guard from the decision, an auction has one bid and one roll of
  -- each player at most.
  pub apply_event-OnePerPlayer :
      (e : Event) → OnePerPlayer g → OnePerPlayer (apply_event p g ts actor e)
  unfolding apply_event auction_opened bid_placed bid_retracted auction_closed close
      auction_finalized auction_rolled auction_roll_off auction_cancelled award raid_started
      raid_ended raid_kills_recorded raid_imported character_linked player_imported dkp_adjusted
      config_updated telemetry_token_issued telemetry_access_updated telemetry_token_revoked
      roster_character_set
  apply_event-OnePerPlayer (Event.auction_opened o) v = λ k.
      subst⁻¹ OnceAt (OrdMap.get-insert g.auctions o.auction_id k _)
        (elim (Bool-cases (OrdMap.same o.auction_id k)) [
          | inl e ↦ rw e (tt, tt)
          | inr e ↦ rw e (v k)
        ])
  apply_event-OnePerPlayer (Event.bid_placed b) v = λ k.
      modify-OnceAt g b.auction_id k _
        (λ a h. (subst⁻¹ Once (bidders-place b a.bids) (join-Once b.player _ h.0), h.1)) v
  apply_event-OnePerPlayer (Event.bid_retracted a player) v = λ k.
      modify-OnceAt g a k _
        (λ a h.
          (subst⁻¹ Once (bidders-keep (λ q. not (q == player)) a.bids) (keep-Once _ _ h.0), h.1))
        v
  apply_event-OnePerPlayer (Event.auction_rolled a player n s) v = λ k.
      modify-OnceAt g a k _
        (λ a h. (h.0, subst⁻¹ Once (rollers_of-add_roll player n a.rolls) (join-Once player _ h.1)))
        v
  apply_event-OnePerPlayer (Event.auction_closed a none c) v =
      λ k. modify-OnceAt g a k _ (λ a h. h) v
  apply_event-OnePerPlayer (Event.auction_closed a (some b) c) v =
      λ k. modify-OnceAt g a k _ (λ a h. h) v
  apply_event-OnePerPlayer (Event.auction_finalized a b c) v =
      λ k. modify-OnceAt g a k _ (λ a h. h) v
  apply_event-OnePerPlayer (Event.auction_cancelled a b) v = λ k. modify-OnceAt g a k _ (λ a h. h) v
  apply_event-OnePerPlayer (Event.auction_roll_off a b) v = λ k. modify-OnceAt g a k _ (λ a h. h) v
  apply_event-OnePerPlayer (Event.raid_merged a b) v = λ k. rw (raid_merged-auctions a b) (v k)
  apply_event-OnePerPlayer (Event.raid_renamed a b) v = λ k. rw (raid_renamed-auctions a b) (v k)
  apply_event-OnePerPlayer (Event.roster_character_removed a b) v =
      λ k. rw (roster_character_removed-auctions a b) (v k)
  apply_event-OnePerPlayer (Event.roster_profile_uploaded a b c d e) v =
      λ k. rw (roster_profile_uploaded-auctions a b c d e) (v k)
  apply_event-OnePerPlayer _ v = v
