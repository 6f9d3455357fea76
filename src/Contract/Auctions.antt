-- ===== src/Contract/Auctions.antt =====
-- The decisions on auctions meet the guards: crates/nocturnal-core/src/decide.rs.
use nocturnal_discord.Prelude.{ℕ, ◌≡◌, Bool, Option, List, arith, String}
use nocturnal_discord.Prelude.Int.{ℤ}
use nocturnal_discord.Prelude.OrdMap
use nocturnal_discord.Prelude.OrdMap.{OrdMap, nat_key, text_key, same}
use nocturnal_discord.Event.{Event, PlayerId, Actor}
use nocturnal_discord.Command.{AuctionRequest}
use nocturnal_discord.Platform.{Platform}
use nocturnal_discord.Reject.{ok}
use nocturnal_discord.State.{GuildState, tie_break_seed}
use nocturnal_discord.Contract.Guard.{Guards}
use nocturnal_discord.Decide.Auctions.{
  decide_open_auction, decide_place_bid, decide_retract_bid, decide_close_auction,
  decide_cancel_auction, decide_roll_for_auction, check_funds, check_roller,
}
use nocturnal_discord.Decide.Winners.{decide_finalize_auction, roll_events}
use nocturnal_discord.Apply.Auctions.{auction_roll_off}
use nocturnal_discord.Apply.Step.{apply_event}

module _ (p : Platform) (g : GuildState) (now_ms : ℤ) (actor : Actor) where
  pub open_auction-Guards :
      (r : AuctionRequest) (es : List Event)
      → decide_open_auction g now_ms r ≡ ok es
      → Guards p g now_ms actor es
  unfolding decide_open_auction OrdMap.contains_key
  open_auction-Guards r es h = ground arith

  pub place_bid-Guards :
      (id : String) (player : PlayerId) (amount : ℤ) (for_main : Bool) (character : Option String)
      (es : List Event)
      → decide_place_bid p g now_ms id player amount for_main character ≡ ok es
      → Guards p g now_ms actor es
  unfolding decide_place_bid check_funds
  place_bid-Guards id player amount for_main character es h = ground arith

  pub retract_bid-Guards :
      (id : String) (player : PlayerId) (es : List Event)
      → decide_retract_bid g id player ≡ ok es
      → Guards p g now_ms actor es
  unfolding decide_retract_bid
  retract_bid-Guards id player es h = ground arith

  pub close_auction-Guards :
      (id : String) (ended : Option ℤ) (es : List Event)
      → decide_close_auction g now_ms id ended ≡ ok es
      → Guards p g now_ms actor es
  unfolding decide_close_auction
  close_auction-Guards id ended es h = ground arith

  pub cancel_auction-Guards :
      (id reason : String) (es : List Event)
      → decide_cancel_auction g id reason ≡ ok es
      → Guards p g now_ms actor es
  unfolding decide_cancel_auction
  cancel_auction-Guards id reason es h = ground arith

  pub roll_for_auction-Guards :
      (id : String) (player : PlayerId) (seed : ℕ) (channel : Option ℕ) (es : List Event)
      → decide_roll_for_auction g id player seed channel ≡ ok es
      → Guards p g now_ms actor es
  unfolding decide_roll_for_auction check_roller check_funds
  roll_for_auction-Guards id player seed channel es h = ground arith

  pub finalize_auction-Guards :
      (id : String) (es : List Event)
      → decide_finalize_auction p g id ≡ ok es
      → Guards p g now_ms actor es
  unfolding decide_finalize_auction roll_events apply_event auction_roll_off tie_break_seed
  finalize_auction-Guards id es h =
      grind (arith, OrdMap.get-modify g.auctions id id, OrdMap.same_refl id)
