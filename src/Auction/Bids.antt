-- ===== src/Auction/Bids.antt =====
-- `top_bids` and `winners` of crates/nocturnal-core/src/auction.rs.
use nocturnal_discord.Prelude.{
  ℕ, zero, suc, ◌-◌, Bool, false, Option, none, some, List, [], ◌∷◌, ◌++◌, map, ◌==◌, ◌&&◌, ◌||◌,
  not, ltb, if◌then◌else◌,
}
use nocturnal_discord.Prelude.Int.{ℤ, pos, leb_ℤ, ltb_ℤ, eqb_ℤ, add_i64}
use nocturnal_discord.Prelude.Lists.{length, get_elem?, take, keep, any, sort_by}
use nocturnal_discord.Event.{PlayerId, F64}
use nocturnal_discord.Platform.{Platform}
use nocturnal_discord.State.{Bid}
use nocturnal_discord.Prelude.Chain.{◌>>=◌}
use nocturnal_discord.Auction.Rng.{below}
use mathlib.Core.List.{foldl}

-- `sort_by_amount_desc`
unfoldable pub sort_by_amount_desc : List Bid → List Bid
unfolding sort_by
sort_by_amount_desc = sort_by (λ a b. leb_ℤ b.amount a.amount)

-- `Iterator::position` of a player's bid, with the bid taken out of the list.
unfoldable pub take_player : PlayerId → List Bid → Option (Bid × List Bid)
take_player player [] = none
take_player player (b ∷ bids) =
    let later = take_player player bids in
    if b.player == player
    then some (b, bids)
    else (do (found, left) ← later; some (found, b ∷ left))

-- The amount of the last bid that is sure to be in the pool.
unfoldable pub min_to_win : List Bid → ℕ → Option ℤ
min_to_win bids n = do
  b ← get_elem? bids (if ltb n (length bids) then n - 1 else length bids - 1)
  some b.amount

module _ (p : Platform) where
  unfoldable pub best_attendance : List Bid → F64
  best_attendance tied = foldl p.max_f64 p.neg_infinity (map (λ (b : Bid). b.attendance) tied)

  -- The players tied on the amount with the best attendance among them.
  unfoldable pub candidates : ℤ → List Bid → List PlayerId
  unfolding best_attendance
  candidates amount pool =
      let tied = keep (λ (b : Bid). eqb_ℤ b.amount amount) pool in
      let best = best_attendance tied in
      map (λ (b : Bid). b.player) (keep (λ (b : Bid). p.eq_f64 b.attendance best) tied)

  -- One candidate wins outright; more draw.
  unfoldable pub choose : List PlayerId → ℕ → Option (PlayerId × ℕ)
  unfolding below
  choose (player ∷ []) s = some (player, s)
  choose players s = do
    (i, s') ← below (length players) s
    player ← get_elem? players i
    some (player, s')

  -- The bid that the pool gives up next, what is left and the next state of the generator.
  unfoldable pub pick_one : List Bid → ℕ → Option (Bid × List Bid × ℕ)
  unfolding candidates choose take_player
  pick_one [] s = none
  pick_one (x ∷ []) s = some (x, [], s)
  pick_one (x ∷ y ∷ pool) s = if ltb_ℤ y.amount x.amount then some (x, y ∷ pool, s) else (do
    (player, s') ← choose (candidates x.amount (x ∷ y ∷ pool)) s
    (b, left) ← take_player player (x ∷ y ∷ pool)
    some (b, left, s'))

  -- The loop of `top_bids`: `n` winners are still wanted.
  unfoldable pub pick : ℕ → List Bid → ℕ → Option (List Bid × ℕ)
  unfolding pick_one
  pick zero pool s = some ([], s)
  pick (suc n) [] s = some ([], s)
  pick (suc n) (x ∷ pool) s = do
    (b, left, s') ← pick_one (x ∷ pool) s
    (bs, s'') ← pick n left s'
    some (b ∷ bs, s'')

  -- `top_bids`
  unfoldable pub top_bids : List Bid → ℕ → ℕ → Option (List Bid × ℕ)
  unfolding sort_by_amount_desc min_to_win pick
  top_bids [] n s = some ([], s)
  top_bids (b ∷ bids) zero s = some ([], s)
  top_bids (b ∷ bids) (suc n) s = do
    let sorted = sort_by_amount_desc (b ∷ bids)
    least ← min_to_win sorted (suc n)
    pick (suc n) (keep (λ x. leb_ℤ least x.amount) sorted) s

  max_amount : Option ℤ → Bid → Option ℤ
  max_amount none b = some b.amount
  max_amount (some h) b = some (if leb_ℤ h b.amount then b.amount else h)

  -- The highest amount among the bids for a main.
  unfoldable pub highest_main : List Bid → Option ℤ
  unfolding max_amount
  highest_main bids = foldl max_amount none (keep (λ (b : Bid). b.for_main) bids)

  -- A bid high enough over the best main bid counts as one.
  unfoldable pub promoted : Option ℤ → ℤ → Bid → Bool
  unfolding add_i64
  promoted none over b = false
  promoted (some h) over b = ltb_ℤ (pos 0) over && leb_ℤ (add_i64 h over) b.amount

  unfoldable pub counts_as_main : Option ℤ → ℤ → ℤ → Bid → Bool
  unfolding promoted
  counts_as_main highest lock over b =
      (b.for_main && leb_ℤ lock b.amount) || promoted highest over b

  unfoldable pub main_bids : List Bid → ℤ → ℤ → List Bid
  unfolding counts_as_main highest_main
  main_bids bids lock over = keep (counts_as_main (highest_main bids) lock over) bids

  unfoldable pub alt_bids : List Bid → List Bid → List Bid
  alt_bids mains bids = keep (λ b. not (any (λ (m : Bid). m.player == b.player) mains)) bids

  -- `winners`
  unfoldable pub winners : List Bid → ℕ → ℤ → ℤ → ℕ → Option (List Bid)
  unfolding main_bids alt_bids top_bids
  winners bids num_winners lock over s = do
    let mains = main_bids bids lock over
    (first, s') ← top_bids mains num_winners s
    if ltb (length first) num_winners
        then (do
          (fill, _) ← top_bids (alt_bids mains bids) num_winners s'
          some (first ++ take (num_winners - length first) fill))
        else some first
