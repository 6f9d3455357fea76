-- ===== src/Tests/Bids.antt =====
-- What a bid does, at a concrete auction.
use nocturnal_discord.Prelude.{◌≡◌, refl, true, none, some, [], ◌∷◌, Bool-cases, inl, inr}
use nocturnal_discord.Prelude.Int.{pos}
use nocturnal_discord.Prelude.Lists.{keep}
use nocturnal_discord.Prelude.OrdMap
use nocturnal_discord.Prelude.OrdMap.{text_key}
use nocturnal_discord.Event.{Event, Actor, PlacedBid}
use nocturnal_discord.State.{GuildState, Auction, AuctionStatus, default_guild}
use nocturnal_discord.Apply.Auctions.{bid_of}
use nocturnal_discord.Apply.Step.{apply_event}
use nocturnal_discord.Invariant.Entries.{OnePerPlayer}
use nocturnal_discord.Invariant.Placed.{is_mine, is_other, bid_placed-bids}
use nocturnal_discord.Tests.{plain, exact}
use nocturnal_discord.Tests.Winners.{sword}

abbrev open_sword : Auction
open_sword = record sword { status = AuctionStatus.opened }

abbrev on_sword : GuildState
on_sword = record default_guild { auctions = ("a", open_sword) ∷ [] }

on_sword-OnePerPlayer : OnePerPlayer on_sword
unfolding OrdMap.get
on_sword-OnePerPlayer id = elim (Bool-cases (OrdMap.same "a" id)) [
  | inl e ↦ rw e ((refl, (refl, tt)), tt)
  | inr e ↦ rw e tt
]

find-sword : OrdMap.get on_sword.auctions "a" ≡ some open_sword
unfolding OrdMap.get OrdMap.same
find-sword = refl

-- Player 7, who has bid four points, bids five.
abbrev raise : PlacedBid
raise = record {
  auction_id = "a";
  player = 7;
  amount = pos 5;
  for_main = true;
  attendance = exact 100;
  character = none;
}

bid_placed-bids_example :
    (a' : Auction) × (OrdMap.get
        (apply_event plain on_sword (pos 3) (Actor.user 7) (Event.bid_placed raise)).auctions
        "a"
      ≡ some a')
    × (keep (is_mine raise) a'.bids ≡ bid_of raise ∷ [])
    × (keep (is_other raise) a'.bids ≡ keep (is_other raise) open_sword.bids)
bid_placed-bids_example =
    bid_placed-bids plain on_sword (pos 3) (Actor.user 7) raise open_sword on_sword-OnePerPlayer
      find-sword
