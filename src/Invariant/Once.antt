-- ===== src/Invariant/Once.antt =====
-- Who bids and who rolls on an auction, no player twice: apply.rs of crates/nocturnal-core/src.
use nocturnal_discord.Prelude.{
  ℕ, ◌≡◌, refl, Bool, false, List, [], ◌∷◌, ◌++◌, map, arith, Bool-cases, inl, inr, if◌then◌else◌,
  ◌==◌, ◌||◌,
}
use nocturnal_discord.Prelude.Lists.{any, keep, modify_first}
use nocturnal_discord.Prelude.OrdMap.{nat_key, text_key}
use nocturnal_discord.Event.{PlayerId, PlacedBid, Roll}
use nocturnal_discord.State.{Bid}
use nocturnal_discord.Apply.Auctions.{place, add_roll, bid_of}

abbrev pub is_in : PlayerId → List PlayerId → Bool
is_in k = any (λ q. q == k)

-- No player twice.
abbrev pub Once : List PlayerId → Type 0
Once [] = Unit
Once (k ∷ ks) = (is_in k ks ≡ false) × Once ks

abbrev pub join : PlayerId → List PlayerId → List PlayerId
join k ks = if is_in k ks then ks else ks ++ k ∷ []

is_in-append :
    (j k : PlayerId) (ks : List PlayerId) → is_in j (ks ++ k ∷ []) ≡ (is_in j ks || k == j)
is_in-append j k [] = ground arith
is_in-append j k (i ∷ ks) = ground (arith, is_in-append j k ks)

append-Once :
    (k : PlayerId) (ks : List PlayerId) → is_in k ks ≡ false → Once ks → Once (ks ++ k ∷ [])
append-Once k [] h v = (refl, tt)
append-Once k (j ∷ ks) h v = (rw is_in-append (ground arith), append-Once k ks (ground arith) v.1)

pub join-Once : (k : PlayerId) (ks : List PlayerId) → Once ks → Once (join k ks)
join-Once k ks v = elim (Bool-cases (is_in k ks)) [
  | inl e ↦ rw e v
  | inr e ↦ rw e (append-Once k ks e v)
]

is_in-keep :
    (f : PlayerId → Bool) (k : PlayerId) (ks : List PlayerId)
    → is_in k ks ≡ false
    → is_in k (keep f ks) ≡ false
is_in-keep f k [] h = refl
is_in-keep f k (j ∷ ks) h = ground (arith, is_in-keep f k ks)

pub keep-Once : (f : PlayerId → Bool) (ks : List PlayerId) → Once ks → Once (keep f ks)
keep-Once f [] v = tt
keep-Once f (k ∷ ks) v = elim (Bool-cases (f k)) [
  | inl e ↦ rw e (is_in-keep f k ks v.0, keep-Once f ks v.1)
  | inr e ↦ rw e (keep-Once f ks v.1)
]

abbrev pub bidders : List Bid → List PlayerId
bidders = map (λ (b : Bid). b.player)

abbrev pub rollers_of : List Roll → List PlayerId
rollers_of = map (λ (r : Roll). r.player)

pub bidders-keep :
    (f : PlayerId → Bool) (bids : List Bid)
    → bidders (keep (λ (b : Bid). f b.player) bids) ≡ keep f (bidders bids)
bidders-keep f [] = refl
bidders-keep f (b ∷ bids) = ground (arith, bidders-keep f bids)

any-bidders :
    (k : PlayerId) (bids : List Bid)
    → any (λ (b : Bid). b.player == k) bids ≡ is_in k (bidders bids)
any-bidders k [] = refl
any-bidders k (b ∷ bids) = rw (any-bidders k bids) refl

bidders-modify_first :
    (f : Bid → Bool) (g : Bid → Bid)
    → ((b : Bid) → (g b).player ≡ b.player)
    → (bids : List Bid) → bidders (modify_first f g bids) ≡ bidders bids
bidders-modify_first f g h [] = refl
bidders-modify_first f g h (b ∷ bids) = ground (arith, h b, bidders-modify_first f g h bids)

bidders-append :
    (bids : List Bid) (b : Bid) → bidders (bids ++ b ∷ []) ≡ bidders bids ++ b.player ∷ []
bidders-append [] b = refl
bidders-append (a ∷ bids) b = rw (bidders-append bids b) refl

pub bidders-place :
    (b : PlacedBid) (bids : List Bid) → bidders (place b bids) ≡ join b.player (bidders bids)
unfolding place
bidders-place b bids =
    rw (← any-bidders b.player bids)
      (elim (Bool-cases (any (λ (x : Bid). x.player == b.player) bids)) [
        | inl e ↦ rw e (bidders-modify_first _ _ (λ x. refl) bids)
        | inr e ↦ rw e (bidders-append bids (bid_of b))
      ])

any-rollers_of :
    (k : PlayerId) (rolls : List Roll)
    → any (λ (r : Roll). r.player == k) rolls ≡ is_in k (rollers_of rolls)
any-rollers_of k [] = refl
any-rollers_of k (r ∷ rolls) = rw (any-rollers_of k rolls) refl

rollers_of-append :
    (rolls : List Roll) (r : Roll)
    → rollers_of (rolls ++ r ∷ []) ≡ rollers_of rolls ++ r.player ∷ []
rollers_of-append [] r = refl
rollers_of-append (a ∷ rolls) r = rw (rollers_of-append rolls r) refl

pub rollers_of-add_roll :
    (k : PlayerId) (n : ℕ) (rolls : List Roll)
    → rollers_of (add_roll k n rolls) ≡ join k (rollers_of rolls)
unfolding add_roll
rollers_of-add_roll k n rolls =
    rw (← any-rollers_of k rolls) (elim (Bool-cases (any (λ (r : Roll). r.player == k) rolls)) [
      | inl e ↦ rw e refl
      | inr e ↦ rw e (rollers_of-append rolls _)
    ])
