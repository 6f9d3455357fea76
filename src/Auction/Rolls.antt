-- ===== src/Auction/Rolls.antt =====
-- `roll_winners` of crates/nocturnal-core/src/auction.rs.
use nocturnal_discord.Prelude.{
  ℕ, zero, suc, ◌-◌, Option, none, some, List, [], ◌∷◌, ◌++◌, map, ◌==◌, ltb, leb, max,
  if◌then◌else◌,
}
use nocturnal_discord.Prelude.Lists.{length, get_elem?, take, keep, sort_by}
use nocturnal_discord.Event.{PlayerId, Roll}
use nocturnal_discord.Prelude.Chain.{◌>>=◌}
use nocturnal_discord.Auction.Rng.{below, d100}

-- `Vec::remove`
unfoldable pub remove_at {ℓ} : {A : Type ℓ} → List A → ℕ → Option (A × List A)
remove_at [] i = none
remove_at (x ∷ xs) zero = some (x, xs)
remove_at (x ∷ xs) (suc i) = elim (remove_at xs i) [ none ↦ none | some (y, ys) ↦ some (y, x ∷ ys) ]

-- `MAX_ROLL_OFF_ROUNDS`
abbrev pub max_roll_off_rounds : ℕ
max_roll_off_rounds = 16

-- Highest roll first; equal rolls keep their order.
unfoldable pub sort_rolls : List Roll → List Roll
unfolding sort_by
sort_rolls = sort_by (λ a b. leb b.roll a.roll)

abbrev pub players_of : List Roll → List PlayerId
players_of = map (λ (r : Roll). r.player)

-- One roll-off round: each player rolls in turn.
unfoldable pub roll_round : ℕ → List PlayerId → List Roll × ℕ
unfolding d100
roll_round s [] = ([], s)
roll_round s (player ∷ players) =
    let (value, s') = d100 s in
    let (rolls, s'') = roll_round s' players in
    (record { player = player; roll = value } ∷ rolls, s'')

-- `count` draws without replacement from the players still tied.
unfoldable pub draw : ℕ → List PlayerId → ℕ → Option (List PlayerId)
unfolding below remove_at
draw zero pool s = some []
draw (suc count) pool s = do
  (i, s') ← below (length pool) s
  (player, left) ← remove_at pool i
  rest ← draw count left s'
  some (player ∷ rest)

-- The rolls above the cut, and the players on it.
abbrev pub above : ℕ → List Roll → List Roll
above cut = keep (λ r. ltb cut r.roll)

abbrev pub tied_at : ℕ → List Roll → List PlayerId
tied_at cut field = players_of (keep (λ (r : Roll). r.roll == cut) field)

-- One pass of the loop: who is above the cut, the slots left and who is tied on it.
unfoldable pub split_at_cut : List Roll → ℕ → Option (List PlayerId × ℕ × List PlayerId)
split_at_cut field slots = do
  at_cut ← get_elem? field (slots - 1)
  let over = length (above at_cut.roll field)
  some (players_of (take over field), slots - over, tied_at at_cut.roll field)

-- The loop, with `left` roll-off rounds to go before a draw decides.
unfoldable pub settle : ℕ → List Roll → ℕ → ℕ → Option (List PlayerId × List (List Roll))
unfolding draw split_at_cut roll_round sort_rolls
settle zero field slots s = do
  (winners, open_slots, tied) ← split_at_cut field slots
  if leb (length tied) open_slots
      then some (winners ++ tied, [])
      else do drawn ← draw open_slots tied s; some (winners ++ drawn, [])
settle (suc left) field slots s = do
  (winners, open_slots, tied) ← split_at_cut field slots
  let (round, s') = roll_round s tied
  let rest = settle left (sort_rolls round) open_slots s'
  if leb (length tied) open_slots
      then some (winners ++ tied, [])
      else do (more, rounds) ← rest; some (winners ++ more, round ∷ rounds)

-- `roll_winners`
unfoldable pub roll_winners : List Roll → ℕ → ℕ → Option (List PlayerId × List (List Roll))
unfolding sort_rolls settle
roll_winners rolls num_items s =
    let field = sort_rolls rolls in
    let slots = max num_items 1 in
    if leb (length field) slots
    then some (players_of field, [])
    else settle max_roll_off_rounds field slots s
