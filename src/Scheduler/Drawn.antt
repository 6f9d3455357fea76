-- ===== src/Scheduler/Drawn.antt =====
-- A roll auction that is due is drawn: crates/nocturnal/src/scheduler.rs.
use nocturnal_discord.Prelude.{
  ℕ, ◌+◌, ◌≡◌, refl, ◌∙◌, ◌⊎◌, true, false, Option, none, some, List, [], ◌∷◌, String, arith, map,
  inl, inr,
}
use nocturnal_discord.Prelude.Int.{ℤ}
use nocturnal_discord.Prelude.OrdMap
use nocturnal_discord.Prelude.OrdMap.{text_key}
use nocturnal_discord.Event.{Event, Actor, GuildId, Roll, Winner}
use nocturnal_discord.Platform.{Platform}
use nocturnal_discord.Reject.{ok}
use nocturnal_discord.State.{GuildState, Auction, AuctionStatus, is_roll, tie_break_seed}
use nocturnal_discord.Auction.Drawn.{roll_winners-count}
use nocturnal_discord.Apply.Step.{apply_event}
use nocturnal_discord.Apply.Auctions.{auction_closed, close, auction_finalized, auction_roll_off}
use nocturnal_discord.Contract.Guard.{apply_all}
use nocturnal_discord.Decide.Auctions.{decide_close_auction}
use nocturnal_discord.Prelude.Int.{as_u64}
use nocturnal_discord.Decide.Winners.{
  decide_finalize_auction, compute_roll_winners, roll_events, roll_winner,
}
use nocturnal_discord.Decide.Step.{decide_guild}
use nocturnal_discord.Invariant.Status.{status_of}
use nocturnal_discord.Scheduler.{Due, due_of, steps, command, run_steps}

module _ (p : Platform) (g : GuildState) (ts : ℤ) (id : String) (a : Auction)
    (found : OrdMap.get g.auctions id ≡ some a) where
  -- Closing leaves the auction closed, and a roll auction.
  closed :
      (seed : Option ℕ)
      → (a' : Auction) × (OrdMap.get
            (apply_event p g ts Actor.system (Event.auction_closed id none seed)).auctions
            id
          ≡ some a')
        × (a'.status ≡ AuctionStatus.closed)
        × (a'.flavor ≡ a.flavor)
  unfolding apply_event auction_closed close
  closed seed = (
    close none seed a,
    rw (OrdMap.get-modify g.auctions id id _, OrdMap.same_refl id, found) refl,
    refl,
    refl,
  )

  finalized :
      (ws : List Winner) (seed : ℕ)
      → status_of (apply_event p g ts Actor.system (Event.auction_finalized id ws seed)) id
        ≡ some AuctionStatus.finalized
  unfolding apply_event auction_finalized
  finalized ws seed = rw (OrdMap.get-modify g.auctions id id _, OrdMap.same_refl id, found) refl

  rolled_off :
      (rounds : List (List Roll))
      → (a' : Auction) × (OrdMap.get
            (apply_event p g ts Actor.system (Event.auction_roll_off id rounds)).auctions
            id
          ≡ some a')
  unfolding apply_event auction_roll_off
  rolled_off rounds = (
    record a { roll_offs = rounds },
    rw (OrdMap.get-modify g.auctions id id _, OrdMap.same_refl id, found) refl,
  )

module _ (p : Platform) (ts : ℤ) (id : String) where
  -- The draw ends with the auction finalized, with a roll-off before it or not.
  roll_events-finalized :
      (g : GuildState) (a : Auction) (seed : ℕ) (ws : List Winner) (rounds : List (List Roll))
      → OrdMap.get g.auctions id ≡ some a
      → status_of (apply_all p g ts Actor.system (roll_events p id seed (ws, rounds))) id
        ≡ some AuctionStatus.finalized
  unfolding roll_events apply_all
  roll_events-finalized g a seed ws [] found = finalized p g ts id a found ws seed
  roll_events-finalized g a seed ws (round ∷ rounds) found =
      let (a', found') = rolled_off p g ts id a found (round ∷ rounds) in
      finalized p (apply_event p g ts Actor.system (Event.auction_roll_off id (round ∷ rounds))) ts
        id a' found' ws seed

  compute_roll_winners-eq :
      (g : GuildState) (a : Auction) (seed : ℕ)
      → OrdMap.get g.auctions id ≡ some a
      → (r : List Winner × List (List Roll)) × (compute_roll_winners g id seed ≡ some r)
  unfolding compute_roll_winners
  compute_roll_winners-eq g a seed found =
      let (r, e, _, _) = roll_winners-count a.rolls a.num_items seed in
      ((map (roll_winner a) r.0, r.1), rw (found, e, compute_roll_winners) refl)

  -- A closed roll auction is drawn when it is finalized.
  finalize-closed :
      (g : GuildState) (a : Auction)
      → OrdMap.get g.auctions id ≡ some a
      → a.status ≡ AuctionStatus.closed
      → is_roll a.flavor ≡ true
      → (es : List Event) × (decide_finalize_auction p g id ≡ ok es)
        × (status_of (apply_all p g ts Actor.system es) id ≡ some AuctionStatus.finalized)
  unfolding decide_finalize_auction
  finalize-closed g a found status roll =
      let (r, drawn) = compute_roll_winners-eq g a (tie_break_seed a) found in
      (
        roll_events p id (tie_break_seed a) r,
        rw (found, status, roll, drawn, decide_finalize_auction) refl,
        roll_events-finalized g a (tie_break_seed a) r.0 r.1 found,
      )

  close-opened :
      (g : GuildState) (a : Auction) (now : ℤ)
      → OrdMap.get g.auctions id ≡ some a
      → a.status ≡ AuctionStatus.opened
      → (seed : Option ℕ) × (decide_close_auction g now id none
          ≡ ok (Event.auction_closed id none seed ∷ []))
  unfolding decide_close_auction
  close-opened g a now found status =
      (some (as_u64 now), rw (found, status, decide_close_auction) refl)

-- What is due is to be closed, or is closed and to be finalized.
due_of-cases :
    (now : ℤ) (id : String) (a : Auction) (d : Due)
    → due_of now (id, a) ≡ some d
    → ((a.status ≡ AuctionStatus.opened) × (d.finalize ≡ false) × (d.flavor ≡ a.flavor))
      ⊎ ((a.status ≡ AuctionStatus.closed) × (d.finalize ≡ true))
unfolding due_of
due_of-cases now id a d e = ground arith

module _ (p : Platform) (guild : GuildId) (clock : ℕ → ℤ) where
  closes :
      (i : ℕ) (g : GuildState) (id : String) (seed : Option ℕ)
      → decide_close_auction g (clock i) id none ≡ ok (Event.auction_closed id none seed ∷ [])
      → run_steps p guild clock i g id (false ∷ true ∷ [])
        ≡ run_steps p guild clock
            (i + 1)
            (apply_event p g (clock i) Actor.system (Event.auction_closed id none seed))
            id
            (true ∷ [])
  unfolding run_steps command decide_guild apply_all
  closes i g id seed e = rw (e, run_steps) refl

  run_finalize :
      (i : ℕ) (g : GuildState) (id : String) (a : Auction)
      → OrdMap.get g.auctions id ≡ some a
      → a.status ≡ AuctionStatus.closed
      → is_roll a.flavor ≡ true
      → (g' : GuildState) × (run_steps p guild clock i g id (true ∷ []) ≡ ok g')
        × (status_of g' id ≡ some AuctionStatus.finalized)
  unfolding run_steps command decide_guild
  run_finalize i g id a found status roll =
      let (es, decided, done) = finalize-closed p (clock i) id g a found status roll in
      (apply_all p g (clock i) Actor.system es, rw (decided, run_steps) refl, done)

  run_close :
      (i : ℕ) (g : GuildState) (id : String) (a : Auction)
      → OrdMap.get g.auctions id ≡ some a
      → a.status ≡ AuctionStatus.opened
      → is_roll a.flavor ≡ true
      → (g' : GuildState) × (run_steps p guild clock i g id (false ∷ true ∷ []) ≡ ok g')
        × (status_of g' id ≡ some AuctionStatus.finalized)
  run_close i g id a found status roll =
      let (seed, decided) = close-opened p (clock i) id g a (clock i) found status in
      let (a1, found1, status1, flavor1) = closed p g (clock i) id a found seed in
      let g1 = apply_event p g (clock i) Actor.system (Event.auction_closed id none seed) in
      let (g', ran, done) = run_finalize (i + 1) g1 id a1 found1 status1 (rw flavor1 roll) in
      (g', closes i g id seed decided ∙ ran, done)

  -- The steps of a roll auction of the guild that is due end with the auction finalized, whatever
  -- the clock shows at them.
  pub steps-drawn :
      (g : GuildState) (id : String) (a : Auction) (now : ℤ) (d : Due) (i : ℕ)
      → OrdMap.get g.auctions id ≡ some a
      → is_roll a.flavor ≡ true
      → due_of now (id, a) ≡ some d
      → (g' : GuildState) × (run_steps p guild clock i g id (steps d) ≡ ok g')
        × (status_of g' id ≡ some AuctionStatus.finalized)
  unfolding steps
  steps-drawn g id a now d i found roll due = elim (due_of-cases now id a d due) [
    | inr (status, last) ↦ rw last (run_finalize i g id a found status roll)
    | inl (status, first, flavor) ↦ rw (first, flavor, roll) (run_close i g id a found status roll)
  ]
