-- ===== src/Auction/Chosen.antt =====
-- The bids that win are bids that were made, and no more than there are items: `top_bids` and
-- `winners` of crates/nocturnal-core/src/auction.rs.
use nocturnal_discord.Prelude.{
  ℕ, zero, suc, ◌-◌, ◌≤◌, ◌≡◌, subst, Option, some, List, [], ◌∷◌, ◌++◌, ◌==◌, arith, ltb, inl, inr,
  Bool-cases,
}
use nocturnal_discord.Prelude.Int.{ℤ, leb_ℤ, ltb_ℤ}
use nocturnal_discord.Prelude.Lists.{
  length, take, All, All-append, All-keep, All-sort_by, All-take, length-take, length-append,
}
use nocturnal_discord.Event.{PlayerId}
use nocturnal_discord.Platform.{Platform}
use nocturnal_discord.State.{Bid}
use nocturnal_discord.Prelude.Chain.{bind_some}
use nocturnal_discord.Auction.Bids.{
  take_player, pick_one, pick, top_bids, sort_by_amount_desc, min_to_win, main_bids, alt_bids,
  winners, choose, candidates,
}

some_pair {ℓ κ} :
    {A : Type ℓ} {B : Type κ} (a a' : A) (b b' : B)
    → ◌≡◌ {A = Option (A × B)} (some (a, b)) (some (a', b'))
    → (a ≡ a') × (b ≡ b')
some_pair a a' b b' e = (cc, cc)

some_pick :
    (b b' : Bid) (left left' : List Bid) (s s' : ℕ)
    → ◌≡◌ {A = Option (Bid × List Bid × ℕ)} (some (b, left, s)) (some (b', left', s'))
    → (b ≡ b') × (left ≡ left')
some_pick b b' left left' s s' e = (cc, cc)

module _ {κ} (P : Bid → Type κ) where
  take_player-All :
      (player : PlayerId) (bids left : List Bid) (b : Bid)
      → take_player player bids ≡ some (b, left)
      → All P bids
      → P b × All P left
  unfolding take_player
  take_player-All player [] left b e h = cc
  take_player-All player (x ∷ bids) left b e h = elim (Bool-cases (x.player == player)) [
    | inl found ↦
        let (same, rest) = some_pair x b bids left (rw found at e) in
        (subst P same h.0, subst (All P) rest h.1)
    | inr other ↦
        let ((b', left'), later, e') = bind_some (take_player player bids) _ _ (rw other at e) in
        let (same, rest) = some_pair b' b (x ∷ left') left e' in
        let (chosen, others) = take_player-All player bids left' b' later h.1 in
        (subst P same chosen, subst (All P) rest (h.0, others))
  ]

  pick_one-All :
      (p : Platform) (pool left : List Bid) (s s' : ℕ) (b : Bid)
      → pick_one p pool s ≡ some (b, left, s')
      → All P pool
      → P b × All P left
  unfolding pick_one
  pick_one-All p [] left s s' b e h = cc
  pick_one-All p (x ∷ []) left s s' b e h =
      let (same, rest) = some_pick x b [] left s s' e in (subst P same h.0, subst (All P) rest tt)
  pick_one-All p (x ∷ y ∷ pool) left s s' b e h = elim (Bool-cases (ltb_ℤ y.amount x.amount)) [
    | inl alone ↦
        let (same, rest) = some_pick x b (y ∷ pool) left s s' (rw alone at e) in
        (subst P same h.0, subst (All P) rest h.1)
    | inr tied ↦
        let ((player, s1), _, e1) =
          bind_some (choose p (candidates p x.amount (x ∷ y ∷ pool)) s) _ _ (rw tied at e) in
        let ((b', left'), taken, e2) = bind_some (take_player player (x ∷ y ∷ pool)) _ _ e1 in
        let (same, rest) = some_pick b' b left' left s1 s' e2 in
        let (chosen, others) = take_player-All player (x ∷ y ∷ pool) left' b' taken h in
        (subst P same chosen, subst (All P) rest others)
  ]

  pick-All :
      (p : Platform) (n : ℕ) (pool bs : List Bid) (s s' : ℕ)
      → pick p n pool s ≡ some (bs, s')
      → All P pool
      → All P bs × (length bs ≤ n)
  unfolding pick
  pick-All p zero pool bs s s' e h =
      let (same, _) = some_pair [] bs s s' e in
      subst (λ ys. All P ys × (length ys ≤ 0)) same (tt, omega arith)
  pick-All p (suc n) [] bs s s' e h =
      let (same, _) = some_pair [] bs s s' e in
      subst (λ ys. All P ys × (length ys ≤ suc n)) same (tt, omega arith)
  pick-All p (suc n) (x ∷ pool) bs s s' e h =
      let ((b, left, s1), one, e1) = bind_some (pick_one p (x ∷ pool) s) _ _ e in
      let ((rest, s2), more, e2) = bind_some (pick p n left s1) _ _ e1 in
      let (first, h1) = pick_one-All p (x ∷ pool) left s s1 b one h in
      let (all, few) = pick-All p n left rest s1 s2 more h1 in
      let (same, _) = some_pair (b ∷ rest) bs s2 s' e2 in
      subst (λ ys. All P ys × (length ys ≤ suc n)) same ((first, all), omega arith)

  top_bids-All :
      (p : Platform) (bids bs : List Bid) (n s s' : ℕ)
      → top_bids p bids n s ≡ some (bs, s')
      → All P bids
      → All P bs × (length bs ≤ n)
  unfolding top_bids sort_by_amount_desc
  top_bids-All p [] bs n s s' e h =
      let (same, _) = some_pair [] bs s s' e in
      subst (λ ys. All P ys × (length ys ≤ n)) same (tt, omega arith)
  top_bids-All p (b ∷ bids) bs zero s s' e h =
      let (same, _) = some_pair [] bs s s' e in
      subst (λ ys. All P ys × (length ys ≤ 0)) same (tt, omega arith)
  top_bids-All p (b ∷ bids) bs (suc n) s s' e h =
      let (least, _, e1) = bind_some (min_to_win (sort_by_amount_desc (b ∷ bids)) (suc n)) _ _ e in
      pick-All p (suc n) _ bs s s' e1 (
        All-keep P (λ x. leb_ℤ least x.amount) (sort_by_amount_desc (b ∷ bids))
          (All-sort_by P (λ x y. leb_ℤ y.amount x.amount) (b ∷ bids) h))

  -- The winners are among the bids, and no more than asked for.
  pub winners-All :
      (p : Platform) (bids bs : List Bid) (n : ℕ) (lock over : ℤ) (s : ℕ)
      → winners p bids n lock over s ≡ some bs
      → All P bids
      → All P bs × (length bs ≤ n)
  unfolding winners main_bids alt_bids
  winners-All p bids bs n lock over s e h =
      let mains = main_bids p bids lock over in
      let ((first, s1), one, e1) = bind_some (top_bids p mains n s) _ _ e in
      let (all, few) = top_bids-All p mains first n s s1 one (All-keep P _ bids h) in
      elim (Bool-cases (ltb (length first) n)) [
        | inl short ↦
            let ((fill, s2), two, e2) =
              bind_some (top_bids p (alt_bids p mains bids) n s1) _ _ (rw short at e1) in
            let (more, _) =
              top_bids-All p (alt_bids p mains bids) fill n s1 s2 two (All-keep P _ bids h) in
            let same : first ++ take (n - length first) fill ≡ bs = cc in
            subst (λ ys. All P ys × (length ys ≤ n)) same
              (
                All-append P first (take (n - length first) fill) all
                    (All-take P (n - length first) fill more),
                omega (
                  arith,
                  length-append first (take (n - length first) fill),
                  length-take (n - length first) fill,
                ),
              )
        | inr full ↦
            let same : first ≡ bs = cc in subst (λ ys. All P ys × (length ys ≤ n)) same (all, few)
      ]
