-- ===== src/Tests.antt =====
-- The theorems at concrete inputs, over a platform with ASCII case and exact percentages.
pub mod Archive
pub mod Genesis
pub mod Kills
pub mod Fit
pub mod Players
pub mod Winners
pub mod Bids
pub mod Configs
pub mod Provision
pub mod Dates
pub mod Log
use nocturnal_discord.Prelude.{
  ℕ, ◌+◌, ◌/◌, ◌*◌, ◌≡◌, refl, true, false, none, some, List, [], ◌∷◌, String, arith, compare, ◌==◌,
  if◌then◌else◌, max, ◌&&◌, min, ◌≤◌, Bool-cases, inl, inr,
}
use nocturnal_discord.Prelude.Int.{ℤ, pos, negsuc, add_i64, ltb_ℤ, wrap_i64, ◌+ℤ◌}
use nocturnal_discord.Prelude.Lists.{length}
use nocturnal_discord.Prelude.OrdMap
use nocturnal_discord.Prelude.OrdMap.{nat_key, text_key}
use nocturnal_discord.Event.{Event, Envelope, F64, Actor, PlayerId, Roll, Flavor}
use nocturnal_discord.Command.{Command, Ctx}
use nocturnal_discord.Platform.{Platform, failed}
use nocturnal_discord.Reject.{ok}
use nocturnal_discord.State.{GuildState, LogEntry, default_guild, default_player, balance}
use nocturnal_discord.Decide.Step.{decide_guild, guild_or_empty}
use nocturnal_discord.Decide.Raids.{decide_start_raid, decide_adjust_dkp}
use nocturnal_discord.Decide.Roster.{decide_issue_token}
use nocturnal_discord.Contract.Guard.{Guards, apply_all}
use nocturnal_discord.Contract.Whole.{decide_guild-Guards}
use nocturnal_discord.Invariant.Status.{status_of, may_reach, decision-may_reach}
use nocturnal_discord.Invariant.Raids.{OneActive, decision-OneActive}
use nocturnal_discord.Invariant.Access.{Managed, Remembers, decision-Managed}
use nocturnal_discord.Apply.Step.{apply_event}
use nocturnal_discord.Apply.Raids.{raid_merged}
use nocturnal_discord.Money.Sums.{log_sum}
use nocturnal_discord.Money.Booked.{AllBooked, apply_event-AllBooked}
use nocturnal_discord.Money.Debit.{raid_merged-balance, decide_adjust_dkp-balance}
use nocturnal_discord.Ledger.Sound.{guild_at}
use nocturnal_discord.Invariant.Reached.{Sound, Reached-Sound}
use nocturnal_discord.Auction.Rolls.{roll_winners, max_roll_off_rounds}
use nocturnal_discord.Auction.Drawn.{roll_winners-count}
use nocturnal_discord.Invariant.Entries.{OnePerPlayer, apply_event-OnePerPlayer}
use nocturnal_discord.Ledger.{Ledger, new, propose, commit, execute, envelope, replay}
use nocturnal_discord.Ledger.Recovery.{Reached, start, step, replay-Reached, propose-commit}

-- Whole numbers stand for the floats: enough for percentages in a test.
abbrev pub exact : ℕ → F64
exact n = record { bits = n }

abbrev pub plain : Platform
plain = record {
  to_lowercase = λ s. s;
  char_to_uppercase = λ c. String.◌∷◌ c String.[];
  char_to_lowercase = λ c. String.◌∷◌ c String.[];
  f64_of = exact;
  add_f64 = λ a b. exact (a.bits + b.bits);
  div_f64 = λ a b. exact (a.bits * 100 / b.bits);
  mul_f64 = λ a b. a;
  floor_f64 = λ a. a;
  max_f64 = λ a b. exact (max a.bits b.bits);
  neg_infinity = exact 0;
  eq_f64 = λ a b. a.bits == b.bits;
  total_cmp = λ a b. compare a.bits b.bits;
  f64_as_i64 = λ a. pos a.bits;
  Json = ℕ;
  from_str = λ s. failed "no parser";
  member = λ j s. none;
  as_str = λ j. none;
  is_array = λ j. false;
}

abbrev pub at_noon : Ctx
at_noon = record { guild = 1; actor = Actor.user 7; now_ms = pos 43_200_000 }

abbrev begin_raid : Command
begin_raid = Command.start_raid "r1" "Vox" (pos 360_000) (pos 1) (7 ∷ 8 ∷ []) none

abbrev begun : List Event
begun =
    Event.raid_started "r1" "Vox" (pos 360_000) (pos 1) none
    ∷ Event.raid_awarded "r1" (7 ∷ 8 ∷ []) (pos 1) "Start"
    ∷ []

decide-begin_raid : decide_guild plain default_guild at_noon begin_raid ≡ ok begun
unfolding decide_guild decide_start_raid
decide-begin_raid = refl

decide_guild-Guards_example : Guards plain default_guild (pos 43_200_000) (Actor.user 7) begun
decide_guild-Guards_example =
    decide_guild-Guards plain default_guild at_noon begin_raid begun decide-begin_raid

decision-may_reach_example :
    may_reach
      (status_of default_guild "a")
      (status_of (apply_all plain default_guild (pos 43_200_000) (Actor.user 7) begun) "a")
    ≡ true
decision-may_reach_example =
    decision-may_reach plain default_guild at_noon begin_raid begun "a" decide-begin_raid

default-OneActive : OneActive default_guild
unfolding OrdMap.get
default-OneActive id h = cc

decision-OneActive_example :
    OneActive (apply_all plain default_guild (pos 43_200_000) (Actor.user 7) begun)
decision-OneActive_example =
    decision-OneActive plain default_guild at_noon begin_raid begun decide-begin_raid
      default-OneActive

default-Managed : Managed default_guild
unfolding OrdMap.get OrdMap.contains_key
default-Managed u h = cc

abbrev pub issue : Command
issue = Command.issue_token "ann" "fp" "officer"

abbrev issued : List Event
issued = Event.telemetry_token_issued "ann" "fp" "officer" ∷ []

decide-issue : decide_guild plain default_guild at_noon issue ≡ ok issued
unfolding decide_guild decide_issue_token OrdMap.contains_key OrdMap.get
decide-issue = refl

decision-Managed_example :
    Managed (apply_all plain default_guild (pos 43_200_000) (Actor.user 7) issued)
    × Remembers default_guild (apply_all plain default_guild (pos 43_200_000) (Actor.user 7) issued)
decision-Managed_example =
    decision-Managed plain default_guild at_noon issue issued decide-issue default-Managed

abbrev pub staged : List Envelope
staged = envelope 0 at_noon (Event.telemetry_token_issued "ann" "fp" "officer") ∷ []

pub propose-issue : propose plain new at_noon issue ≡ ok staged
unfolding propose guild_or_empty decide_guild decide_issue_token OrdMap.contains_key OrdMap.get
propose-issue = refl

propose-commit_example : (l : Ledger) × (commit plain new staged ≡ some l)
propose-commit_example = propose-commit plain new at_noon issue staged (omega arith) propose-issue

abbrev pub after_issue : Ledger
after_issue =
    elim (replay plain new
      (envelope 0 at_noon (Event.telemetry_token_issued "ann" "fp" "officer"))) [
        | none ↦ new
        | some l ↦ l
      ]

execute-issue : execute plain new at_noon issue ≡ ok (after_issue, staged)
unfolding execute guild_or_empty decide_guild decide_issue_token OrdMap.contains_key OrdMap.get
execute-issue = refl

pub issue-Reached : Reached plain after_issue staged
issue-Reached = step at_noon issue start execute-issue

replay-Reached_example : commit plain new staged ≡ some after_issue
replay-Reached_example = replay-Reached plain after_issue staged issue-Reached

abbrev entry : LogEntry
entry = record { dkp = pos 5; comment = "raid"; ts_ms = pos 0; raid = none; item = none }

-- Player 7 with five points and one line of log.
abbrev pub funded : GuildState
funded = record default_guild {
  players = (7, record default_player { balance = pos 5; log = entry ∷ [] }) ∷ [];
}

funded-AllBooked : AllBooked funded.players
unfolding OrdMap.get log_sum add_i64 wrap_i64 ◌+ℤ◌
funded-AllBooked k = elim (Bool-cases (OrdMap.same 7 k)) [ inl e ↦ rw e refl | inr e ↦ rw e tt ]

abbrev debit : Command
debit = Command.adjust_dkp 7 (negsuc 2) "fee" none

abbrev debited : List Event
debited = Event.dkp_adjusted 7 (negsuc 2) "fee" none none ∷ []

apply_event-AllBooked_example :
    AllBooked
      (apply_event plain funded
        (pos 9)
        (Actor.user 7)
        (Event.dkp_adjusted 7 (negsuc 2) "fee" none none)).players
apply_event-AllBooked_example =
    apply_event-AllBooked plain funded (pos 9) (Actor.user 7)
      (Event.dkp_adjusted 7 (negsuc 2) "fee" none none) tt funded-AllBooked

decide-debit : decide_adjust_dkp funded 7 (negsuc 2) "fee" none ≡ ok debited
unfolding decide_adjust_dkp balance OrdMap.get add_i64 wrap_i64 ◌+ℤ◌ OrdMap.same
decide-debit = refl

decide_adjust_dkp-balance_example :
    (balance (apply_all plain funded (pos 9) (Actor.user 7) debited) 7 ≡ (
      if OrdMap.same {K = PlayerId} 7 7
      then add_i64 (balance funded 7) (negsuc 2)
      else balance funded 7))
    × ((ltb_ℤ (negsuc 2) (pos 0)
          && ltb_ℤ (balance (apply_all plain funded (pos 9) (Actor.user 7) debited) 7) (pos 0))
        ≡ false)
decide_adjust_dkp-balance_example =
    decide_adjust_dkp-balance plain funded (pos 9) (Actor.user 7) 7 (negsuc 2) "fee" none debited 7
      decide-debit

raid_merged-balance_example : balance (raid_merged funded "a" "b") 7 ≡ balance funded 7
raid_merged-balance_example = raid_merged-balance funded 7 "a" "b"

-- Three rolls, two of them tied for the one item.
abbrev pub tie : List Roll
tie =
    record { player = 7; roll = 90 }
    ∷ record { player = 8; roll = 90 }
    ∷ record { player = 9; roll = 12 }
    ∷ []

roll_winners-count_example :
    (r : List PlayerId × List (List Roll)) × (roll_winners tie 1 5 ≡ some r)
    × (length r.0 ≡ min (max 1 1) (length tie))
    × (length r.1 ≤ max_roll_off_rounds)
roll_winners-count_example = roll_winners-count tie 1 5

abbrev open_sword : Event
open_sword = Event.auction_opened (record {
  auction_id = "a";
  item = record { id = "1"; name = "Sword"; url = none; stat_block = none; image = none };
  flavor = Flavor.short;
  min_bid = pos 1;
  num_items = 1;
  min_bid_to_lock_for_main = pos 0;
  over_bid_to_win_main = pos 0;
  deadline_ts_ms = pos 100;
  debit_dkp = true;
  live = false;
  voice_channel = none;
  rollers = none;
  roll_cost = pos 0;
})

abbrev bid_on_sword : ℤ → Event
bid_on_sword amount = Event.bid_placed (record {
  auction_id = "a";
  player = 7;
  amount = amount;
  for_main = true;
  attendance = exact 100;
  character = none;
})

abbrev bidding : GuildState
bidding =
    apply_event plain (apply_event plain default_guild (pos 1) (Actor.user 7) open_sword) (pos 2)
      (Actor.user 7) (bid_on_sword (pos 2))

default-OnePerPlayer : OnePerPlayer default_guild
unfolding OrdMap.get
default-OnePerPlayer id = tt

bidding-OnePerPlayer : OnePerPlayer bidding
bidding-OnePerPlayer =
    apply_event-OnePerPlayer plain
      (apply_event plain default_guild (pos 1) (Actor.user 7) open_sword) (pos 2) (Actor.user 7)
      (bid_on_sword (pos 2))
      (apply_event-OnePerPlayer plain default_guild (pos 1) (Actor.user 7) open_sword
        default-OnePerPlayer)

apply_event-OnePerPlayer_example :
    OnePerPlayer (apply_event plain bidding (pos 3) (Actor.user 7) (bid_on_sword (pos 4)))
apply_event-OnePerPlayer_example =
    apply_event-OnePerPlayer plain bidding (pos 3) (Actor.user 7) (bid_on_sword (pos 4))
      bidding-OnePerPlayer

Reached-Sound_example : Sound (guild_at after_issue.state 1)
Reached-Sound_example = Reached-Sound plain after_issue staged 1 issue-Reached
