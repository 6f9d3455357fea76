-- ===== src/Scheduler/Cycle.antt =====
-- The whole of a cycle of the auction timers: `auction_cycle` of crates/nocturnal/src/scheduler.rs.
use nocturnal_discord.Prelude.{
  ℕ, ◌+◌, ◌≡◌, refl, sym, ap, subst, subst⁻¹, ◌∙◌, ◌⊎◌, Bool, true, false, Option, none, some, List,
  [], ◌∷◌, String, arith, inl, inr, Bool-cases,
}
use nocturnal_discord.Prelude.Int.{ℤ}
use nocturnal_discord.Prelude.OrdMap
use nocturnal_discord.Prelude.OrdMap.{OrdMap, same, same→eq, text_key}
use nocturnal_discord.Event.{Event, Actor, GuildId}
use nocturnal_discord.Platform.{Platform}
use nocturnal_discord.Reject.{Result, ok, err, panic}
use nocturnal_discord.State.{GuildState, Auction, AuctionStatus, is_roll}
use nocturnal_discord.Apply.Step.{apply_event}
use nocturnal_discord.Apply.Auctions.{auction_closed, close, auction_finalized, auction_roll_off}
use nocturnal_discord.Contract.Guard.{apply_all}
use nocturnal_discord.Decide.Auctions.{decide_close_auction}
use nocturnal_discord.Decide.Winners.{decide_finalize_auction, roll_events}
use nocturnal_discord.Decide.Step.{decide_guild}
use nocturnal_discord.Invariant.Status.{status_of, may_reach, decision-may_reach}
use nocturnal_discord.Scheduler.{
  Due, due_of, due_among, due_auctions, steps, command, run_steps, run_due, auction_cycle, ctx,
}
use nocturnal_discord.Scheduler.Drawn.{steps-drawn}

module _ (p : Platform) (k id : String) (other : same k id ≡ false) (ts : ℤ) where
  modify-apart :
      (m : OrdMap String Auction) (f : Auction → Auction)
      → OrdMap.get (OrdMap.modify m k f) id ≡ OrdMap.get m id
  modify-apart m f = rw (OrdMap.get-modify m k id f, other) refl

  close-apart :
      (g : GuildState) (now : ℤ) (es : List Event)
      → decide_close_auction g now k none ≡ ok es
      → OrdMap.get (apply_all p g ts Actor.system es).auctions id ≡ OrdMap.get g.auctions id
  unfolding decide_close_auction apply_all apply_event auction_closed close
  close-apart g now es h = grind (arith, modify-apart)

  finalize-apart :
      (g : GuildState) (es : List Event)
      → decide_finalize_auction p g k ≡ ok es
      → OrdMap.get (apply_all p g ts Actor.system es).auctions id ≡ OrdMap.get g.auctions id
  unfolding decide_finalize_auction roll_events apply_all apply_event auction_finalized
      auction_roll_off
  finalize-apart g es h = grind (arith, modify-apart)

due_of-auction_id :
    (now : ℤ) (id : String) (a : Auction) (d : Due)
    → due_of now (id, a) ≡ some d
    → d.auction_id ≡ id
unfolding due_of
due_of-auction_id now id a d e = ground arith

due_among-some :
    (now : ℤ) (x : String × Auction) (xs : OrdMap String Auction) (d : Due)
    → due_of now x ≡ some d
    → due_among now (x ∷ xs) ≡ d ∷ due_among now xs
unfolding due_among
due_among-some now x xs d e = rw (e, due_among) refl

due_among-none :
    (now : ℤ) (x : String × Auction) (xs : OrdMap String Auction)
    → due_of now x ≡ none
    → due_among now (x ∷ xs) ≡ due_among now xs
unfolding due_among
due_among-none now x xs e = rw (e, due_among) refl

finalized-stays :
    (s : Option AuctionStatus)
    → may_reach (some AuctionStatus.finalized) s ≡ true
    → s ≡ some AuctionStatus.finalized
finalized-stays s h = ground arith

module _ (p : Platform) (guild : GuildId) (clock : ℕ → ℤ) where
  command-apart :
      (k id : String) (i : ℕ) (g : GuildState) (b : Bool) (es : List Event)
      → same k id ≡ false
      → decide_guild p g (ctx p guild clock i) (command k b) ≡ ok es
      → OrdMap.get (apply_all p g (clock i) Actor.system es).auctions id ≡ OrdMap.get g.auctions id
  unfolding command decide_guild
  command-apart k id i g true es other h = finalize-apart p k id other (clock i) g es h
  command-apart k id i g false es other h = close-apart p k id other (clock i) g (clock i) es h

  -- The outcomes of a run: it panics, or leaves a guild with the property.
  abbrev pub Ends : (GuildState → Type 0) → Result GuildState → Type 0
  Ends P r = (r ≡ panic) ⊎ ((g : GuildState) × (r ≡ ok g) × P g)

  -- What each accepted command keeps, the steps of an auction keep.
  run_steps-keeps :
      {P : GuildState → Type 0} (k : String)
      → ((i : ℕ) (g : GuildState) (b : Bool) (es : List Event)
          → decide_guild p g (ctx p guild clock i) (command k b) ≡ ok es
          → P g
          → P (apply_all p g (clock i) Actor.system es))
      → (bs : List Bool) (i : ℕ) (g : GuildState) → P g
      → Ends P (run_steps p guild clock i g k bs)
  unfolding run_steps
  run_steps-keeps {P} k keep [] i g v = inr (g, refl, v)
  run_steps-keeps {P} k keep (b ∷ bs) i g v =
      go (decide_guild p g (ctx p guild clock i) (command k b)) refl
        (run_steps-keeps {P = P} k keep bs (i + 1))
    where
      go :
          (r : Result (List Event))
          → decide_guild p g (ctx p guild clock i) (command k b) ≡ r
          → ((g' : GuildState) → P g' → Ends P (run_steps p guild clock (i + 1) g' k bs))
          → Ends P (elim r as (λ _. Result GuildState) [
            | ok es ↦ run_steps p guild clock (i + 1) (apply_all p g (clock i) Actor.system es) k bs
            | err x ↦ ok g
            | panic ↦ panic
          ])
      go (ok es) e rest = rest (apply_all p g (clock i) Actor.system es) (keep i g b es e v)
      go (err x) e rest = inr (g, refl, v)
      go panic e rest = inl refl

  -- The auctions after one.
  run_due-after :
      {P Q : GuildState → Type 0} (i : ℕ) (g : GuildState) (d : Due) (ds : List Due)
      → Ends P (run_steps p guild clock i g d.auction_id (steps d))
      → ((g' : GuildState) → P g' → Ends Q (run_due p guild clock (i + 2) g' ds))
      → Ends Q (run_due p guild clock i g (d ∷ ds))
  unfolding run_due
  run_due-after i g d ds (inl e) rest = inl (rw (e, run_due) refl)
  run_due-after {P} {Q} i g d ds (inr (g', e, v)) rest = rw (e, run_due) (rest g' v)

  -- An auction that is finalized stays so.
  run_due-finalized :
      (id : String) (ds : List Due) (i : ℕ) (g : GuildState)
      → status_of g id ≡ some AuctionStatus.finalized
      → Ends (λ g'. status_of g' id ≡ some AuctionStatus.finalized) (run_due p guild clock i g ds)
  run_due-finalized id [] i g v = unfold run_due in inr (g, refl, v)
  run_due-finalized id (d ∷ ds) i g v =
      run_due-after i g d ds
        (run_steps-keeps {P = λ g'. status_of g' id ≡ some AuctionStatus.finalized} d.auction_id
          (λ j g' b es e w. finalized-stays _ (
            subst
              (λ s. may_reach s (status_of (apply_all p g' (clock j) Actor.system es) id) ≡ true) w
              (decision-may_reach p g' (ctx p guild clock j) (command d.auction_id b) es id e)))
          (steps d) i g v)
        (λ g' w. run_due-finalized id ds (i + 2) g' w)

  module _ (now : ℤ) (id : String) (a : Auction) (d : Due) (roll : is_roll a.flavor ≡ true)
      (due : due_of now (id, a) ≡ some d) where
    abbrev pub Drawn : Result GuildState → Type 0
    Drawn = Ends (λ g'. status_of g' id ≡ some AuctionStatus.finalized)

    own_steps :
        (i : ℕ) (g : GuildState)
        → OrdMap.get g.auctions id ≡ some a
        → Drawn (run_steps p guild clock i g d.auction_id (steps d))
    unfolding steps
    own_steps i g found =
        let (g', ran, final) = steps-drawn p guild clock g id a now d i found roll due in
        rw (due_of-auction_id now id a d due) (inr (g', ran, final))

    run_due-here :
        (ds : List Due) (i : ℕ) (g : GuildState)
        → OrdMap.get g.auctions id ≡ some a
        → Drawn (run_due p guild clock i g (d ∷ ds))
    run_due-here ds i g found =
        run_due-after {P = λ g'. status_of g' id ≡ some AuctionStatus.finalized}
          {Q = λ g'. status_of g' id ≡ some AuctionStatus.finalized} i g d ds (own_steps i g found)
          (λ g' w. run_due-finalized id ds (i + 2) g' w)

    run_due-other :
        (other : Due) (ds : List Due) (i : ℕ) (g : GuildState)
        → same other.auction_id id ≡ false
        → OrdMap.get g.auctions id ≡ some a
        → ((g' : GuildState)
            → OrdMap.get g'.auctions id ≡ some a
            → Drawn (run_due p guild clock (i + 2) g' ds))
        → Drawn (run_due p guild clock i g (other ∷ ds))
    run_due-other other ds i g apart found rest =
        run_due-after {P = λ g'. OrdMap.get g'.auctions id ≡ some a}
          {Q = λ g'. status_of g' id ≡ some AuctionStatus.finalized} i g other ds
          (run_steps-keeps {P = λ g'. OrdMap.get g'.auctions id ≡ some a} other.auction_id
            (λ j g' b es e w. command-apart other.auction_id id j g' b es apart e ∙ w) (steps other)
            i g found)
          rest

    run_due-Drawn :
        (xs : OrdMap String Auction) (i : ℕ) (g : GuildState)
        → OrdMap.get xs id ≡ some a
        → OrdMap.get g.auctions id ≡ some a
        → Drawn (run_due p guild clock i g (due_among now xs))
    unfolding OrdMap.get
    run_due-Drawn [] i g listed found = cc
    run_due-Drawn ((j, b) ∷ xs) i g listed found = elim (Bool-cases (same j id)) [
      | inl here ↦
          let this : b ≡ a = some_path b a (sym (rw here refl) ∙ listed) in
          let due' : due_of now (j, b) ≡ some d =
            ap (λ k. due_of now (k, b)) (same→eq j id here)
            ∙ ap (λ x. due_of now (id, x)) this
            ∙ due in
          subst⁻¹ (λ ds. Drawn (run_due p guild clock i g ds)) (due_among-some now (j, b) xs d due')
            (run_due-here (due_among now xs) i g found)
      | inr apart ↦
          let later : OrdMap.get xs id ≡ some a = sym (rw apart refl) ∙ listed in
          passed_over j b xs i g apart found (λ i' g' f. run_due-Drawn xs i' g' later f)
            (due_of now (j, b)) refl
    ]
      where
        some_path : (x y : Auction) → ◌≡◌ {A = Option Auction} (some x) (some y) → x ≡ y
        some_path x y e = cc

        passed_over :
            (j : String) (b : Auction) (xs : OrdMap String Auction) (i : ℕ) (g : GuildState)
            → same j id ≡ false
            → OrdMap.get g.auctions id ≡ some a
            → ((i' : ℕ) (g' : GuildState)
                → OrdMap.get g'.auctions id ≡ some a
                → Drawn (run_due p guild clock i' g' (due_among now xs)))
            → (o : Option Due) → due_of now (j, b) ≡ o
            → Drawn (run_due p guild clock i g (due_among now ((j, b) ∷ xs)))
        passed_over j b xs i g apart found rest none e =
            subst⁻¹ (λ ds. Drawn (run_due p guild clock i g ds)) (due_among-none now (j, b) xs e)
              (rest i g found)
        passed_over j b xs i g apart found rest (some other) e =
            subst⁻¹ (λ ds. Drawn (run_due p guild clock i g ds))
              (due_among-some now (j, b) xs other e)
              (run_due-other other (due_among now xs) i g
                (ap (λ k. same k id) (due_of-auction_id now j b other e) ∙ apart) found
                (λ g' f. rest (i + 2) g' f))

    -- Where a cycle sees an auction of rolls due, among whatever other auctions are due and whatever
    -- the clock shows at its steps, the cycle ends with the auction finalized, or in a panic.
    pub auction_cycle-Drawn :
        (g : GuildState)
        → OrdMap.get g.auctions id ≡ some a
        → Drawn (auction_cycle p guild clock now g)
    unfolding auction_cycle due_auctions
    auction_cycle-Drawn g found = run_due-Drawn g.auctions 0 g found found
