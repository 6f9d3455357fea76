-- ===== src/Apply/Auctions.antt =====
-- The auction handlers of crates/nocturnal-core/src/apply.rs.
use nocturnal_discord.Prelude.{
  ℕ, Bool, true, false, Option, none, some, List, [], ◌∷◌, ◌++◌, String, ◌==◌, ◌||◌, not,
  if◌then◌else◌,
}
use nocturnal_discord.Prelude.Int.{ℤ, pos, neg_i64, sub_i64}
use nocturnal_discord.Prelude.Lists.{any, find, keep, modify_first}
use nocturnal_discord.Prelude.Text.{show_nat}
use nocturnal_discord.Prelude.OrdMap
use nocturnal_discord.Prelude.OrdMap.{OrdMap, nat_key, text_key}
use nocturnal_discord.Event.{PlayerId, Actor, Item, RaidRef, Roll, Winner, OpenedAuction, PlacedBid}
use nocturnal_discord.State.{GuildState, Player, Auction, AuctionStatus, Bid, is_short, is_roll}
use nocturnal_discord.Apply.Raids.{new_player, raid_ref}
use mathlib.Core.List.{foldl, reverse}
use Prim.Native.String.{◌++◌ as ◌^^◌}

-- `Event::AuctionOpened`
unfoldable pub auction_opened : GuildState → OpenedAuction → GuildState
auction_opened g o = record g {
  auctions = OrdMap.insert g.auctions o.auction_id (record {
    item = o.item;
    flavor = o.flavor;
    min_bid = o.min_bid;
    num_items = o.num_items;
    min_bid_to_lock_for_main = o.min_bid_to_lock_for_main;
    over_bid_to_win_main = o.over_bid_to_win_main;
    deadline_ts_ms = o.deadline_ts_ms;
    debit_dkp = o.debit_dkp;
    live = is_short o.flavor || o.live;
    status = AuctionStatus.opened;
    bids = [];
    winners = [];
    cancelled_by = none;
    cancelled_ts_ms = none;
    rolls = [];
    roll_offs = [];
    close_seed = none;
    voice_channel = o.voice_channel;
    rollers = o.rollers;
    roll_cost = o.roll_cost;
  });
}

abbrev pub bid_of : PlacedBid → Bid
bid_of b = record {
  player = b.player;
  amount = b.amount;
  for_main = b.for_main;
  attendance = b.attendance;
  character = b.character;
}

-- A bid replaces that player's earlier one where it stands, or joins at the end.
unfoldable pub place : PlacedBid → List Bid → List Bid
place b bids =
    if any (λ x. x.player == b.player) bids
    then modify_first (λ x. x.player == b.player)
        (λ x. record x {
          amount = b.amount;
          for_main = b.for_main;
          attendance = b.attendance;
          character = b.character;
        })
        bids
    else bids ++ bid_of b ∷ []

-- `Event::BidPlaced`
unfoldable pub bid_placed : GuildState → PlacedBid → GuildState
unfolding place
bid_placed g b = record g {
  auctions = OrdMap.modify g.auctions b.auction_id (λ a. record a { bids = place b a.bids });
}

-- `Event::BidRetracted`
unfoldable pub bid_retracted : GuildState → String → PlayerId → GuildState
bid_retracted g auction_id player = record g {
  auctions =
      OrdMap.modify g.auctions auction_id
        (λ a. record a { bids = keep (λ b. not (b.player == player)) a.bids });
}

unfoldable pub close : Option ℤ → Option ℕ → Auction → Auction
close none seed a = record a { status = AuctionStatus.closed; close_seed = seed }
close (some ended) seed a = record a {
  status = AuctionStatus.closed;
  close_seed = seed;
  deadline_ts_ms = ended;
}

-- `Event::AuctionClosed`
unfoldable pub auction_closed : GuildState → String → Option ℤ → Option ℕ → GuildState
unfolding close
auction_closed g auction_id ended_ts_ms seed = record g {
  auctions = OrdMap.modify g.auctions auction_id (close ended_ts_ms seed);
}

-- The last roll of a player in the roll-off, the latest round first.
unfoldable pub last_roll_off : PlayerId → List (List Roll) → Option Roll
last_roll_off player [] = none
last_roll_off player (round ∷ rounds) = elim (find (λ r. r.player == player) round) [
  | some r ↦ some r
  | none ↦ last_roll_off player rounds
]

-- `roll_note`
unfoldable pub roll_note : Auction → PlayerId → Option String
unfolding last_roll_off show_nat
roll_note a player = elim (find (λ (r : Roll). r.player == player) a.rolls) [
  | none ↦ none
  | some r ↦ elim (last_roll_off player (reverse a.roll_offs)) [
    | some o ↦ some (
        ◌^^◌ "roll auction: rolled "
          (◌^^◌ (show_nat r.roll) (◌^^◌ ", roll-off " (show_nat o.roll))))
    | none ↦ some (◌^^◌ "roll auction: rolled " (show_nat r.roll))
  ]
]

-- The note of a winner's line: a roll auction's names the roll.
unfoldable pub win_note : Option Auction → PlayerId → Option String
unfolding roll_note
win_note none player = none
win_note (some a) player = if is_roll a.flavor then roll_note a player else none

unfoldable pub win_comment : Option Item → Option String → Bool → String
win_comment none remark debit = ""
win_comment (some i) (some remark) debit = ◌^^◌ i.name (◌^^◌ " (" (◌^^◌ remark ")"))
win_comment (some i) none true = i.name
win_comment (some i) none false = ◌^^◌ i.name " (free auction)"

-- The debit of one winner and its line.
unfoldable pub charge : ℤ → String → ℤ → Option RaidRef → Option Item → Player → Player
unfolding sub_i64 neg_i64
charge charged comment ts raid item p = record p {
  balance = sub_i64 p.balance charged;
  log =
      p.log
      ++ record { dkp = neg_i64 charged; comment = comment; ts_ms = ts; raid = raid; item = item }
        ∷ [];
}

unfoldable pub charge_winner :
    Option Auction → Option RaidRef → ℤ → OrdMap PlayerId Player → Winner → OrdMap PlayerId Player
unfolding win_note win_comment charge new_player
charge_winner auction raid ts players w =
    let item : Option Item = elim auction [ none ↦ none | some a ↦ some a.item ] in
    let debit : Bool = elim auction [ none ↦ true | some a ↦ a.debit_dkp ] in
    OrdMap.upsert players w.player (new_player ts) (
      charge (if debit then w.amount else pos 0)
        (win_comment item (win_note auction w.player) debit) ts raid item)

-- The raid that loot is attributed to.
unfoldable pub loot_raid : GuildState → Option RaidRef
unfolding raid_ref
loot_raid g = elim g.active_raid [ none ↦ none | some id ↦ raid_ref g id ]

-- `Event::AuctionFinalized`
unfoldable pub auction_finalized : GuildState → ℤ → String → List Winner → GuildState
unfolding charge_winner loot_raid
auction_finalized g ts auction_id winners = record g {
  auctions =
      OrdMap.modify g.auctions auction_id
        (λ a. record a { status = AuctionStatus.finalized; winners = winners });
  players =
      foldl (charge_winner (OrdMap.get g.auctions auction_id) (loot_raid g) ts) g.players winners;
}

unfoldable pub add_roll : PlayerId → ℕ → List Roll → List Roll
add_roll player rolled rolls =
    if any (λ r. r.player == player) rolls
    then rolls
    else rolls ++ record { player = player; roll = rolled } ∷ []

-- `Event::AuctionRolled`
unfoldable pub auction_rolled : GuildState → String → PlayerId → ℕ → GuildState
unfolding add_roll
auction_rolled g auction_id player rolled = record g {
  auctions =
      OrdMap.modify g.auctions auction_id
        (λ a. record a { rolls = add_roll player rolled a.rolls });
}

-- `Event::AuctionRollOff`
unfoldable pub auction_roll_off : GuildState → String → List (List Roll) → GuildState
auction_roll_off g auction_id rounds = record g {
  auctions = OrdMap.modify g.auctions auction_id (λ a. record a { roll_offs = rounds });
}

unfoldable pub canceller : Actor → Option PlayerId
canceller (Actor.user id) = some id
canceller Actor.system = none

-- `Event::AuctionCancelled`
unfoldable pub auction_cancelled : GuildState → ℤ → Actor → String → GuildState
unfolding canceller
auction_cancelled g ts actor auction_id = record g {
  auctions = OrdMap.modify g.auctions auction_id (λ a. record a {
    status = AuctionStatus.cancelled;
    cancelled_by = canceller actor;
    cancelled_ts_ms = some ts;
  });
}
