-- ===== src/Ledger.antt =====
-- `Ledger` of crates/nocturnal-core/src/lib.rs: propose, commit and replay.
pub mod Recovery
pub mod Sound
use nocturnal_discord.Prelude.{
  ℕ, suc, ◌+◌, ◌%◌, ◌^◌, Option, none, some, List, [], ◌∷◌, ◌==◌, if◌then◌else◌,
}
use nocturnal_discord.Event.{Event, Envelope}
use nocturnal_discord.Command.{Command, Ctx}
use nocturnal_discord.Platform.{Platform}
use nocturnal_discord.Reject.{Result, ok, err, panic, ◌>>=◌, or_panic}
use nocturnal_discord.State.{State, default_state}
use nocturnal_discord.Apply.Step.{apply}
use nocturnal_discord.Decide.Step.{decide}

pub record Ledger : Type 0 where
  pub state : State
  pub next_seq : ℕ

-- `Ledger::new`
abbrev pub new : Ledger
new = record { state = default_state; next_seq = 0 }

abbrev pub envelope : ℕ → Ctx → Event → Envelope
envelope seq ctx event = record {
  seq = seq;
  ts_ms = ctx.now_ms;
  guild = ctx.guild;
  actor = ctx.actor;
  v = 1;
  correlation_id = none;
  event = event;
}

-- The envelopes of the events from the `i`-th on.
unfoldable pub stage : ℕ → Ctx → ℕ → List Event → List Envelope
stage next_seq ctx i [] = []
stage next_seq ctx i (e ∷ es) =
    envelope ((next_seq + i) % 2 ^ 64) ctx e ∷ stage next_seq ctx (i + 1) es

module _ (p : Platform) where
  -- `Ledger::propose`
  unfoldable pub propose : Ledger → Ctx → Command → Result (List Envelope)
  unfolding stage decide
  propose l ctx cmd = do events ← decide p l.state ctx cmd; ok (stage l.next_seq ctx 0 events)

  -- `Ledger::replay`, and the body of the loop of `commit`: a sequence gap panics.
  unfoldable pub replay : Ledger → Envelope → Option Ledger
  unfolding apply
  replay l env =
      if env.seq == l.next_seq
      then some (record { state = apply p l.state env; next_seq = (l.next_seq + 1) % 2 ^ 64 })
      else none

  -- `Ledger::commit`
  unfoldable pub commit : Ledger → List Envelope → Option Ledger
  unfolding replay
  commit l [] = some l
  commit l (env ∷ envs) = elim (replay l env) [ none ↦ none | some l' ↦ commit l' envs ]

  -- `Ledger::execute`: the new ledger and the envelopes.
  unfoldable pub execute : Ledger → Ctx → Command → Result (Ledger × List Envelope)
  unfolding propose commit
  execute l ctx cmd = do envs ← propose l ctx cmd; l' ← or_panic (commit l envs); ok (l', envs)
