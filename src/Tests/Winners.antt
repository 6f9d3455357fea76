-- ===== src/Tests/Winners.antt =====
-- Who wins, and what is due, at concrete auctions.
use nocturnal_discord.Prelude.{◌+◌, ◌≤◌, ◌≡◌, refl, true, false, none, some, List, [], ◌∷◌}
use nocturnal_discord.Prelude.Int.{pos, add_i64, wrap_i64, ◌+ℤ◌}
use nocturnal_discord.Prelude.Lists.{length, All, sort_by, insert_by}
use nocturnal_discord.Prelude.OrdMap
use nocturnal_discord.Prelude.OrdMap.{nat_key, text_key}
use nocturnal_discord.Event.{Flavor, Winner}
use nocturnal_discord.State.{GuildState, default_guild, Auction, AuctionStatus, balance}
use nocturnal_discord.Auction.Bids.{
  winners, main_bids, counts_as_main, highest_main, promoted, alt_bids, top_bids, min_to_win,
  sort_by_amount_desc, pick, pick_one,
}
use nocturnal_discord.Decide.Winners.{is_covered, bid_winners}
use nocturnal_discord.Decide.Chosen.{CanPay, bid_winners-CanPay}
use nocturnal_discord.Invariant.Status.{status_of}
use nocturnal_discord.Scheduler.{Due, due_of, auction_cycle}
use nocturnal_discord.Scheduler.Cycle.{Ends, auction_cycle-Drawn}
use nocturnal_discord.Tests.{tie, plain, exact, funded}

-- A sword with a bid that its player, who has five points, can cover, and one that nobody can.
abbrev pub sword : Auction
sword = record {
  item = record { id = "1"; name = "Sword"; url = none; stat_block = none; image = none };
  flavor = Flavor.short;
  min_bid = pos 1;
  num_items = 1;
  min_bid_to_lock_for_main = pos 0;
  over_bid_to_win_main = pos 0;
  deadline_ts_ms = pos 100;
  debit_dkp = true;
  live = false;
  status = AuctionStatus.closed;
  bids =
      record {
        player = 7;
        amount = pos 4;
        for_main = true;
        attendance = exact 100;
        character = none;
      }
      ∷ record {
        player = 8;
        amount = pos 9;
        for_main = true;
        attendance = exact 100;
        character = none;
      }
      ∷ [];
  winners = [];
  cancelled_by = none;
  cancelled_ts_ms = none;
  rolls = [];
  roll_offs = [];
  voice_channel = none;
  rollers = none;
  roll_cost = pos 0;
  close_seed = some 5;
}

abbrev winning : List Winner
winning = record { player = 7; amount = pos 4; for_main = true; character = none } ∷ []

sword-winners : bid_winners plain funded sword 5 ≡ some winning
unfolding bid_winners is_covered balance OrdMap.get OrdMap.same winners main_bids counts_as_main
    highest_main promoted alt_bids top_bids min_to_win sort_by_amount_desc sort_by insert_by pick
    pick_one add_i64 wrap_i64 ◌+ℤ◌
sword-winners = refl

bid_winners-CanPay_example : All (CanPay funded sword) winning × (length winning ≤ sword.num_items)
bid_winners-CanPay_example = bid_winners-CanPay plain funded sword 5 winning sword-winners

-- A roll auction whose deadline has passed, with a tie for its one item.
abbrev lot : Auction
lot = record sword { flavor = Flavor.roll; status = AuctionStatus.opened; rolls = tie }

abbrev with_lot : GuildState
with_lot = record default_guild { auctions = ("a", lot) ∷ [] }

abbrev lot_due : Due
lot_due = record { auction_id = "a"; flavor = Flavor.roll; finalize = false; due_ms = pos 100 }

find-lot : OrdMap.get with_lot.auctions "a" ≡ some lot
unfolding OrdMap.get OrdMap.same
find-lot = refl

lot-due : due_of (pos 200) ("a", lot) ≡ some lot_due
unfolding due_of
lot-due = refl

auction_cycle-Drawn_example :
    Ends plain 1
      (λ i. pos (200 + i))
      (λ g. status_of g "a" ≡ some AuctionStatus.finalized)
      (auction_cycle plain 1 (λ i. pos (200 + i)) (pos 200) with_lot)
auction_cycle-Drawn_example =
    auction_cycle-Drawn plain 1 (λ i. pos (200 + i)) (pos 200) "a" lot lot_due refl lot-due with_lot
      find-lot
