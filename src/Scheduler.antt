-- ===== src/Scheduler.antt =====
-- The timers of auctions: `auction_cycle` of crates/nocturnal/src/scheduler.rs.
pub mod Drawn
pub mod Cycle
use nocturnal_discord.Prelude.{
  ℕ, ◌+◌, Bool, true, false, Option, none, some, List, [], ◌∷◌, String, ◌&&◌, if◌then◌else◌,
}
use nocturnal_discord.Prelude.Int.{ℤ, pos, leb_ℤ, add_i64}
use nocturnal_discord.Event.{Flavor, Actor, GuildId}
use nocturnal_discord.Command.{Command, Ctx}
use nocturnal_discord.Platform.{Platform}
use nocturnal_discord.Reject.{Result, ok, err, panic}
use nocturnal_discord.State.{GuildState, Auction, AuctionStatus, is_roll}
use nocturnal_discord.Contract.Guard.{apply_all}
use nocturnal_discord.Decide.Step.{decide_guild}

-- `LONG_AUCTION_GRACE_MS`
abbrev pub long_auction_grace_ms : ℤ
long_auction_grace_ms = pos 1_200_000

abbrev pub is_long : Flavor → Bool
is_long Flavor.long = true
is_long _ = false

pub record Due : Type 0 where
  pub auction_id : String
  pub flavor : Flavor
  pub finalize : Bool
  pub due_ms : ℤ

abbrev due_at : String → Auction → Bool → ℤ → Option Due
due_at id a finalize due_ms =
    some (record { auction_id = id; flavor = a.flavor; finalize = finalize; due_ms = due_ms })

-- What is due of an auction.
unfoldable pub due_of : ℤ → String × Auction → Option Due
unfolding add_i64
due_of now (id, a) = elim a.status [
  | AuctionStatus.opened ↦
      if leb_ℤ a.deadline_ts_ms now then due_at id a false a.deadline_ts_ms else none
  | AuctionStatus.closed ↦
      let grace = add_i64 a.deadline_ts_ms long_auction_grace_ms in
      if is_long a.flavor && leb_ℤ grace now
      then due_at id a true grace
      else if is_roll a.flavor && leb_ℤ a.deadline_ts_ms now
      then due_at id a true a.deadline_ts_ms
      else none
  | _ ↦ none
]

unfoldable pub due_among : ℤ → List (String × Auction) → List Due
due_among now [] = []
due_among now (x ∷ xs) =
    let rest = due_among now xs in elim (due_of now x) [ none ↦ rest | some d ↦ d ∷ rest ]

unfoldable pub due_auctions : GuildState → ℤ → List Due
unfolding due_among due_of
due_auctions g now = due_among now g.auctions

-- A roll auction that closes is drawn in the same cycle.
unfoldable pub steps : Due → List Bool
steps d =
    if d.finalize then true ∷ [] else (if is_roll d.flavor then false ∷ true ∷ [] else false ∷ [])

unfoldable pub command : String → Bool → Command
command id finalize =
    if finalize then Command.finalize_auction id else Command.close_auction id none

module _ (p : Platform) (guild : GuildId) (clock : ℕ → ℤ) where
  abbrev pub ctx : ℕ → Ctx
  ctx i = record { guild = guild; actor = Actor.system; now_ms = clock i }

  -- The steps of one auction on its guild; a rejection ends them. The clock is read at each.
  unfoldable pub run_steps : ℕ → GuildState → String → List Bool → Result GuildState
  unfolding command decide_guild apply_all
  run_steps i g id [] = ok g
  run_steps i g id (finalize ∷ rest) = elim (decide_guild p g (ctx i) (command id finalize)) [
    | ok es ↦ run_steps (i + 1) (apply_all p g (clock i) Actor.system es) id rest
    | err r ↦ ok g
    | panic ↦ panic
  ]

  unfoldable pub run_due : ℕ → GuildState → List Due → Result GuildState
  unfolding run_steps steps
  run_due i g [] = ok g
  run_due i g (d ∷ ds) = elim (run_steps i g d.auction_id (steps d)) [
    | ok g' ↦ run_due (i + 2) g' ds
    | err r ↦ err r
    | panic ↦ panic
  ]

  -- `auction_cycle`
  unfoldable pub auction_cycle : ℤ → GuildState → Result GuildState
  unfolding due_auctions run_due
  auction_cycle now g = run_due 0 g (due_auctions g now)
