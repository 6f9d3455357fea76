-- ===== src/Auction/Drawn.antt =====
-- The draw of the winners of a roll: `roll_winners` of crates/nocturnal-core/src/auction.rs.
use nocturnal_discord.Prelude.{
  ℕ, zero, suc, ◌+◌, ◌-◌, ◌≤◌, ◌<◌, ◌≡◌, refl, ap, some, List, [], ◌∷◌, ◌++◌, arith, Bool-cases,
  inl, inr, leb, min, max,
}
use nocturnal_discord.Prelude.Lists.{length, get_elem?, take, length-append}
use nocturnal_discord.Event.{PlayerId, Roll}
use nocturnal_discord.Auction.Rng.{below, d100}
use nocturnal_discord.Auction.Rolls.{
  remove_at, max_roll_off_rounds, sort_rolls, players_of, roll_round, draw, above, tied_at,
  split_at_cut, settle, roll_winners,
}
use nocturnal_discord.Auction.Field.{
  Falling, sort_rolls-Falling, length-sort_rolls, length-players_of, length-take-le, above-le,
  cut-reach,
}

remove_at-total {ℓ} :
    {A : Type ℓ} (xs : List A) (i : ℕ)
    → i < length xs
    → (r : A × List A) × (remove_at xs i ≡ some r) × (suc (length r.1) ≡ length xs)
unfolding remove_at
remove_at-total [] i h = ground arith
remove_at-total (x ∷ xs) zero h = ((x, xs), refl, refl)
remove_at-total (x ∷ xs) (suc i) h =
    let ((y, ys), e, l) = remove_at-total xs i (omega arith) in ((y, x ∷ ys), rw e refl, ap suc l)

below-total : (n s : ℕ) → 0 < n → (r : ℕ × ℕ) × (below n s ≡ some r) × (r.0 < n)
unfolding below
below-total zero s h = ground arith
below-total (suc n) s h = (_, refl, omega arith)

draw-total :
    (count : ℕ) (pool : List PlayerId) (s : ℕ)
    → count ≤ length pool
    → (ps : List PlayerId) × (draw count pool s ≡ some ps) × (length ps ≡ count)
unfolding draw
draw-total zero pool s h = ([], refl, refl)
draw-total (suc count) pool s h =
    let ((i, s'), e, l) = below-total (length pool) s (omega arith) in
    let ((player, left), e', l') = remove_at-total pool i l in
    let (ps, e'', l'') = draw-total count left s' (omega arith) in
    (player ∷ ps, rw (e, e', e'') refl, ap suc l'')

length-roll_round : (s : ℕ) (ps : List PlayerId) → length (roll_round s ps).0 ≡ length ps
unfolding roll_round
length-roll_round s [] = refl
length-roll_round s (p ∷ ps) = ap suc (length-roll_round (d100 s).1 ps)

get_elem?-total : (rs : List Roll) (i : ℕ) → i < length rs → (c : Roll) × (get_elem? rs i ≡ some c)
get_elem?-total [] i h = ground arith
get_elem?-total (r ∷ rs) zero h = (r, refl)
get_elem?-total (r ∷ rs) (suc i) h = get_elem?-total rs i (omega arith)

split_at_cut-total :
    (field : List Roll) (slots : ℕ)
    → Falling field
    → 0 < slots
    → slots ≤ length field
    → (r : List PlayerId × ℕ × List PlayerId) × (split_at_cut field slots ≡ some r)
      × (length r.0 + r.1 ≡ slots)
      × (0 < r.1)
      × (r.1 ≤ length r.2)
unfolding split_at_cut
split_at_cut-total field slots v h k =
    let (c, e) = get_elem?-total field (slots - 1) (omega arith) in
    let low = above-le (slots - 1) field c v e in
    let high = cut-reach (slots - 1) field c v e in
    let size = length-take-le (length (above c.roll field)) field (omega arith) in
    let over = length (above c.roll field) in
    (
      (players_of (take over field), slots - over, tied_at c.roll field),
      rw e refl,
      rw (length-players_of, size) (omega arith),
      omega arith,
      omega arith,
    )

settle-total :
    (left : ℕ) (field : List Roll) (slots s : ℕ)
    → Falling field
    → 0 < slots
    → slots ≤ length field
    → (r : List PlayerId × List (List Roll)) × (settle left field slots s ≡ some r)
      × (length r.0 ≡ slots)
      × (length r.1 ≤ left)
unfolding settle
settle-total zero field slots s v h k =
    let ((over, vacant, tied), e, sum, some_open, short) = split_at_cut-total field slots v h k in
    elim (Bool-cases (leb (length tied) vacant)) [
      | inl fits ↦
          ((over ++ tied, []), rw (e, fits) refl, rw length-append (ground arith), omega arith)
      | inr more ↦
          let (drawn, e', l) = draw-total vacant tied s (ground arith) in
          ((over ++ drawn, []), rw (e, more, e') refl, rw length-append (omega arith), omega arith)
    ]
settle-total (suc left) field slots s v h k =
    let ((over, vacant, tied), e, sum, some_open, short) = split_at_cut-total field slots v h k in
    let round = (roll_round s tied).0 in
    let size = length-roll_round s tied in
    let sorted = length-sort_rolls round in
    let ((more, rounds), e', l, bound) =
      settle-total left (sort_rolls round) vacant (roll_round s tied).1 (sort_rolls-Falling round)
        some_open (omega arith) in
    elim (Bool-cases (leb (length tied) vacant)) [
      | inl fits ↦
          ((over ++ tied, []), rw (e, fits) refl, rw length-append (ground arith), omega arith)
      | inr over_full ↦ (
        (over ++ more, round ∷ rounds),
        rw (e, over_full, e') refl,
        rw length-append (omega arith),
        omega arith,
      )
    ]

-- The winners of a roll are drawn, whatever the rolls and the seed: as many as there are items, or
-- as rolls where those are fewer, after sixteen rounds of roll-off at most.
pub roll_winners-count :
    (rolls : List Roll) (num_items s : ℕ)
    → (r : List PlayerId × List (List Roll)) × (roll_winners rolls num_items s ≡ some r)
      × (length r.0 ≡ min (max num_items 1) (length rolls))
      × (length r.1 ≤ max_roll_off_rounds)
unfolding roll_winners
roll_winners-count rolls num_items s =
    let size = length-sort_rolls rolls in
    elim (Bool-cases (leb (length (sort_rolls rolls)) (max num_items 1))) [
      | inl few ↦ (
        (players_of (sort_rolls rolls), []),
        rw few refl,
        rw length-players_of (ground arith),
        omega arith,
      )
      | inr many ↦
          let (r, e, l, bound) =
            settle-total max_roll_off_rounds (sort_rolls rolls) (max num_items 1) s
              (sort_rolls-Falling rolls) (ground arith) (ground arith) in
          (r, rw (many, e) refl, ground arith, bound)
    ]
