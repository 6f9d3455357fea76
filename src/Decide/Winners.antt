-- ===== src/Decide/Winners.antt =====
-- The winners of an auction and its finalization: crates/nocturnal-core/src/decide.rs.
use nocturnal_discord.Prelude.{
  ℕ, Bool, true, Option, none, some, List, [], ◌∷◌, map, String, ◌&&◌, not, min, if◌then◌else◌,
}
use nocturnal_discord.Prelude.Int.{pos, ltb_ℤ, leb_ℤ}
use nocturnal_discord.Prelude.Lists.{keep, length, is_nil}
use nocturnal_discord.Prelude.OrdMap
use nocturnal_discord.Prelude.OrdMap.{nat_key, text_key}
use nocturnal_discord.Event.{PlayerId, Event, Roll, Winner}
use nocturnal_discord.Platform.{Platform}
use nocturnal_discord.Reject.{Rejection, Result, ok, ◌>>=◌, ◌>>◌, reject_if, ok_or, or_panic}
use nocturnal_discord.State.{GuildState, Auction, Bid, is_closed, is_roll, balance, tie_break_seed}
use nocturnal_discord.Auction.Rolls.{roll_winners}
use nocturnal_discord.Auction.Bids.{winners}

-- A winner of a roll, at the roll's cost.
abbrev pub roll_winner : Auction → PlayerId → Winner
roll_winner a player = record {
  player = player;
  amount = a.roll_cost;
  for_main = true;
  character = none;
}

-- `compute_roll_winners`
unfoldable pub compute_roll_winners :
    GuildState → String → ℕ → Option (List Winner × List (List Roll))
unfolding roll_winners
compute_roll_winners g auction_id seed = elim (OrdMap.get g.auctions auction_id) [
  | none ↦ some ([], [])
  | some a ↦ elim (roll_winners a.rolls a.num_items seed) [
    | none ↦ none
    | some (players, rounds) ↦ some (map (roll_winner a) players, rounds)
  ]
]

abbrev pub winner_of : Bid → Winner
winner_of b = record {
  player = b.player;
  amount = b.amount;
  for_main = b.for_main;
  character = b.character;
}

-- A bid that its player can still cover.
unfoldable pub is_covered : GuildState → Auction → Bid → Bool
unfolding balance
is_covered g a b =
    ltb_ℤ (pos 0) b.amount && leb_ℤ a.min_bid b.amount && leb_ℤ b.amount (balance g b.player)

module _ (p : Platform) where
  unfoldable pub bid_winners : GuildState → Auction → ℕ → Option (List Winner)
  unfolding is_covered winners
  bid_winners g a seed =
      let valid = keep (is_covered g a) a.bids in
      if is_nil valid
      then some []
      else elim (winners p valid (min a.num_items (length valid)) a.min_bid_to_lock_for_main
          a.over_bid_to_win_main seed) [ none ↦ none | some bids ↦ some (map winner_of bids) ]

  -- `compute_winners`
  unfoldable pub compute_winners : GuildState → String → ℕ → Option (List Winner)
  unfolding compute_roll_winners bid_winners
  compute_winners g auction_id seed = elim (OrdMap.get g.auctions auction_id) [
    | none ↦ some []
    | some a ↦
        if is_roll a.flavor
        then elim (compute_roll_winners g auction_id seed) [ none ↦ none | some (ws, _) ↦ some ws ]
        else bid_winners g a seed
  ]

  -- The roll-off, where there was one, is a fact of its own.
  unfoldable pub roll_events : String → ℕ → List Winner × List (List Roll) → List Event
  roll_events auction_id seed (ws, []) = Event.auction_finalized auction_id ws seed ∷ []
  roll_events auction_id seed (ws, round ∷ rounds) =
      Event.auction_roll_off auction_id (round ∷ rounds)
      ∷ Event.auction_finalized auction_id ws seed
      ∷ []

  -- `Command::FinalizeAuction`
  unfoldable pub decide_finalize_auction : GuildState → String → Result (List Event)
  unfolding tie_break_seed compute_roll_winners compute_winners roll_events
  decide_finalize_auction g auction_id = do
    auction ← ok_or (OrdMap.get g.auctions auction_id) Rejection.auction_not_found
    reject_if (not (is_closed auction.status)) Rejection.auction_not_closed
    let seed = tie_break_seed auction
    if is_roll auction.flavor
        then (do
          drawn ← or_panic (compute_roll_winners g auction_id seed)
          ok (roll_events auction_id seed drawn))
        else (do
          ws ← or_panic (compute_winners g auction_id seed)
          ok (Event.auction_finalized auction_id ws seed ∷ []))
