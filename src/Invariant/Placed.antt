-- ===== src/Invariant/Placed.antt =====
-- What a bid does to the bids of its auction: apply.rs of crates/nocturnal-core/src.
use nocturnal_discord.Prelude.{
  ◌≡◌, refl, ap, ◌∙◌, subst, Bool, true, false, some, List, [], ◌∷◌, ◌++◌, arith, Bool-cases, inl,
  inr, ◌==◌, ==_iff, not,
}
use nocturnal_discord.Prelude.Int.{ℤ}
use nocturnal_discord.Prelude.Lists.{any, keep, modify_first, keep-append}
use nocturnal_discord.Prelude.OrdMap
use nocturnal_discord.Prelude.OrdMap.{text_key}
use nocturnal_discord.Event.{Event, Actor, PlacedBid}
use nocturnal_discord.Platform.{Platform}
use nocturnal_discord.State.{GuildState, Auction, Bid}
use nocturnal_discord.Apply.Auctions.{place, bid_of, bid_placed}
use nocturnal_discord.Apply.Step.{apply_event}
use nocturnal_discord.Invariant.Once.{Once, is_in, bidders}
use nocturnal_discord.Invariant.Entries.{OnePerPlayer, OnceAt}
use mathlib.Core.List.{append-nil}

module _ (b : PlacedBid) where
  abbrev pub is_mine : Bid → Bool
  is_mine x = x.player == b.player

  abbrev pub is_other : Bid → Bool
  is_other x = not (x.player == b.player)

  keep-none : (bids : List Bid) → is_in b.player (bidders bids) ≡ false → keep is_mine bids ≡ []
  keep-none [] h = refl
  keep-none (x ∷ bids) h = ground (arith, keep-none bids)

  abbrev update : Bid → Bid
  update x = record x {
    amount = b.amount;
    for_main = b.for_main;
    attendance = b.attendance;
    character = b.character;
  }

  update-mine : (x : Bid) → x.player ≡ b.player → update x ≡ bid_of b
  update-mine x e = ap (λ k. record (bid_of b) { player = k }) e

  other-update :
      (bids : List Bid) → keep is_other (modify_first is_mine update bids) ≡ keep is_other bids
  other-update [] = refl
  other-update (x ∷ bids) = ground (arith, other-update bids)

  mine-update :
      (bids : List Bid)
      → Once (bidders bids)
      → any is_mine bids ≡ true
      → keep is_mine (modify_first is_mine update bids) ≡ bid_of b ∷ []
  mine-update [] h e = cc
  mine-update (x ∷ bids) h e = elim (Bool-cases (is_mine x)) [
    | inl mine ↦
        let player : x.player ≡ b.player = (==_iff x.player b.player).0 mine in
        rw
          (
            mine,
            keep-none bids (subst (λ k. is_in k (bidders bids) ≡ false) player h.0),
            update-mine x player,
          )
          (rw mine refl)
    | inr other ↦ rw other (rw other (mine-update bids h.1 (rw other at e)))
  ]

  mine-append :
      (bids : List Bid)
      → any is_mine bids ≡ false
      → keep is_mine (bids ++ bid_of b ∷ []) ≡ bid_of b ∷ []
  mine-append [] e = rw ((==_iff b.player b.player).1 refl) refl
  mine-append (x ∷ bids) e = ground (arith, mine-append bids)

  other-append : (bids : List Bid) → keep is_other (bids ++ bid_of b ∷ []) ≡ keep is_other bids
  other-append bids =
      keep-append is_other bids (bid_of b ∷ [])
      ∙ rw ((==_iff b.player b.player).1 refl) (append-nil (keep is_other bids))

  place-other : (bids : List Bid) → keep is_other (place b bids) ≡ keep is_other bids
  unfolding place
  place-other bids = elim (Bool-cases (any is_mine bids)) [
    | inl e ↦ rw e (other-update bids)
    | inr e ↦ rw e (other-append bids)
  ]

  place-mine : (bids : List Bid) → Once (bidders bids) → keep is_mine (place b bids) ≡ bid_of b ∷ []
  unfolding place
  place-mine bids h = elim (Bool-cases (any is_mine bids)) [
    | inl e ↦ rw e (mine-update bids h e)
    | inr e ↦ rw e (mine-append bids e)
  ]

-- A bid on an auction of a guild where each player has one bid at most is the player's only bid
-- after it, whether or not there was one before, and the bids of the others stay, in their order.
pub bid_placed-bids :
    (p : Platform) (g : GuildState) (ts : ℤ) (actor : Actor) (b : PlacedBid) (a : Auction)
    → OnePerPlayer g
    → OrdMap.get g.auctions b.auction_id ≡ some a
    → (a' : Auction) × (OrdMap.get
          (apply_event p g ts actor (Event.bid_placed b)).auctions
          b.auction_id
        ≡ some a')
      × (keep (is_mine b) a'.bids ≡ bid_of b ∷ [])
      × (keep (is_other b) a'.bids ≡ keep (is_other b) a.bids)
unfolding apply_event bid_placed
bid_placed-bids p g ts actor b a v found = (
  record a { bids = place b a.bids },
  rw
      (
        OrdMap.get-modify g.auctions b.auction_id b.auction_id _,
        OrdMap.same_refl b.auction_id,
        found,
      )
      refl,
  place-mine b a.bids (once found (v b.auction_id)),
  place-other b a.bids,
)
  where
    once :
        OrdMap.get g.auctions b.auction_id ≡ some a
        → OnceAt (OrdMap.get g.auctions b.auction_id)
        → Once (bidders a.bids)
    once e h = (subst OnceAt e h).0
