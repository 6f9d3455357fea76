-- ===== src/Decide/Chosen.antt =====
-- Who wins an auction of bids can pay: `compute_winners` of crates/nocturnal-core/src/decide.rs.
use nocturnal_discord.Prelude.{
  ℕ, ◌≤◌, ◌≡◌, refl, subst, true, Option, none, some, List, [], ◌∷◌, map, arith, min, inl, inr,
  Bool-cases,
}
use nocturnal_discord.Prelude.Int.{pos, ltb_ℤ, leb_ℤ}
use nocturnal_discord.Prelude.Lists.{length, keep, is_nil, All, All-keep-true}
use nocturnal_discord.Event.{Winner}
use nocturnal_discord.Platform.{Platform}
use nocturnal_discord.State.{GuildState, Auction, Bid, balance}
use nocturnal_discord.Auction.Bids.{winners}
use nocturnal_discord.Auction.Chosen.{winners-All}
use nocturnal_discord.Decide.Winners.{is_covered, bid_winners, winner_of}

-- A winner pays something, at least the minimum, and no more than its balance.
abbrev pub CanPay : GuildState → Auction → Winner → Type 0
CanPay g a w =
    (ltb_ℤ (pos 0) w.amount ≡ true)
    × (leb_ℤ a.min_bid w.amount ≡ true)
    × (leb_ℤ w.amount (balance g w.player) ≡ true)

is_covered-CanPay :
    (g : GuildState) (a : Auction) (b : Bid) → is_covered g a b ≡ true → CanPay g a (winner_of b)
unfolding is_covered
is_covered-CanPay g a b e = (ground (arith, e), ground (arith, e), ground (arith, e))

All-winner_of :
    (g : GuildState) (a : Auction) (bs : List Bid)
    → All (λ b. is_covered g a b ≡ true) bs
    → All (CanPay g a) (map winner_of bs)
All-winner_of g a [] h = tt
All-winner_of g a (b ∷ bs) h = (is_covered-CanPay g a b h.0, All-winner_of g a bs h.1)

length-winner_of : (bs : List Bid) → length (map winner_of bs) ≡ length bs
length-winner_of [] = refl
length-winner_of (b ∷ bs) = omega (arith, length-winner_of bs)

module _ (p : Platform) where
  -- The winners of an auction of bids, where they are chosen without a panic, are no more than its
  -- items, and each is charged a positive amount, at least the minimum bid and at most the
  -- player's balance.
  pub bid_winners-CanPay :
      (g : GuildState) (a : Auction) (seed : ℕ) (ws : List Winner)
      → bid_winners p g a seed ≡ some ws
      → All (CanPay g a) ws × (length ws ≤ a.num_items)
  unfolding bid_winners
  bid_winners-CanPay g a seed ws e =
      let valid = keep (is_covered g a) a.bids in
      elim (Bool-cases (is_nil valid)) [
        | inl nobody ↦
            let same : ◌≡◌ {A = List Winner} [] ws = some_eq [] ws (rw nobody at e) in
            subst (λ xs. All (CanPay g a) xs × (length xs ≤ a.num_items)) same (tt, omega arith)
        | inr somebody ↦
            chosen g a ws
              (winners p valid (min a.num_items (length valid)) a.min_bid_to_lock_for_main
                a.over_bid_to_win_main seed)
              refl (rw somebody at e)
      ]
    where
      some_eq : (xs ys : List Winner) → ◌≡◌ {A = Option (List Winner)} (some xs) (some ys) → xs ≡ ys
      some_eq xs ys q = cc

      chosen :
          (g : GuildState) (a : Auction) (ws : List Winner) (o : Option (List Bid))
          → winners p
              (keep (is_covered g a) a.bids)
              (min a.num_items (length (keep (is_covered g a) a.bids)))
              a.min_bid_to_lock_for_main
              a.over_bid_to_win_main
              seed
            ≡ o
          → elim o as (λ _. Option (List Winner)) [
            | none ↦ none
            | some bids ↦ some (map winner_of bids)
          ]
            ≡ some ws
          → All (CanPay g a) ws × (length ws ≤ a.num_items)
      chosen g a ws none eo eq = cc
      chosen g a ws (some bs) eo eq =
          let (all, few) =
            winners-All (λ b. is_covered g a b ≡ true) p (keep (is_covered g a) a.bids) bs
              (min a.num_items (length (keep (is_covered g a) a.bids))) a.min_bid_to_lock_for_main
              a.over_bid_to_win_main seed eo (All-keep-true (is_covered g a) a.bids) in
          let same = some_eq (map winner_of bs) ws eq in
          subst (λ xs. All (CanPay g a) xs × (length xs ≤ a.num_items)) same
            (All-winner_of g a bs all, omega (arith, length-winner_of bs))
