-- ===== src/Ledger/Recovery.antt =====
-- A ledger is rebuilt from its log: crates/nocturnal-core/src/lib.rs.
use nocturnal_discord.Prelude.{
  ℕ, ◌+◌, ◌%◌, ◌^◌, ◌<◌, ◌≡◌, refl, sym, Option, none, some, List, [], ◌∷◌, ◌++◌, inl, inr,
  Option-cases, ==_iff, arith,
}
use nocturnal_discord.Event.{Event, Envelope}
use nocturnal_discord.Command.{Command, Ctx}
use nocturnal_discord.Platform.{Platform}
use nocturnal_discord.Reject.{Result, ok, err, panic, ◌>>=◌}
use nocturnal_discord.Ledger.{Ledger, new, stage, propose, replay, commit, execute, envelope}
use nocturnal_discord.Decide.Step.{decide}
use nocturnal_discord.Apply.Step.{apply}

-- The sequence number stays a `u64`.
abbrev pub InRange : Ledger → Type 0
InRange l = l.next_seq < 2 ^ 64

module _ (p : Platform) where
  -- The ledgers that commands lead to from an empty one, each with its log.
  pub data Reached : Ledger → List Envelope → Type 1 where
    start : Reached new []
    step :
        {l l' : Ledger} {log envs : List Envelope} (ctx : Ctx) (cmd : Command)
        → Reached l log
        → execute p l ctx cmd ≡ ok (l', envs)
        → Reached l' (log ++ envs)

  pub commit-append :
      (xs ys : List Envelope) (l : Ledger)
      → commit p l (xs ++ ys) ≡ elim (commit p l xs) [ none ↦ none | some l' ↦ commit p l' ys ]
  unfolding commit
  commit-append [] ys l = refl
  commit-append (x ∷ xs) ys l = elim (Option-cases (replay p l x)) [
    | inl gap ↦ rw (gap, commit)
    | inr (l', e) ↦ rw (e, commit) (commit-append xs ys l')
  ]

  -- A commit is the replay of the first envelope, then the commit of the others.
  pub commit-cons :
      (l l' : Ledger) (env : Envelope) (envs : List Envelope)
      → commit p l (env ∷ envs) ≡ some l'
      → (l1 : Ledger) × (replay p l env ≡ some l1) × (commit p l1 envs ≡ some l')
  unfolding commit
  commit-cons l l' env envs h = go (replay p l env) refl h
    where
      go :
          (o : Option Ledger)
          → replay p l env ≡ o
          → elim o [ none ↦ none | some l1 ↦ commit p l1 envs ] ≡ some l'
          → (l1 : Ledger) × (replay p l env ≡ some l1) × (commit p l1 envs ≡ some l')
      go none next rest = cc
      go (some l1) next rest = (l1, next, rest)

  pub replay-next :
      (l : Ledger) (env : Envelope)
      → env.seq ≡ l.next_seq
      → replay p l env
        ≡ some (record { state = apply p l.state env; next_seq = (l.next_seq + 1) % 2 ^ 64 })
  unfolding replay
  replay-next l env e = rw ((==_iff _ _).1 e)

  -- The staged envelopes carry just the numbers that the commit wants.
  commit-stage :
      (es : List Event) (ctx : Ctx) (n i : ℕ) (l : Ledger)
      → l.next_seq ≡ (n + i) % 2 ^ 64
      → (l' : Ledger) × (commit p l (stage n ctx i es) ≡ some l')
  unfolding commit stage
  commit-stage [] ctx n i l h = (l, refl)
  commit-stage (e ∷ es) ctx n i l h =
      rw (replay-next l (envelope ((n + i) % 2 ^ 64) ctx e) (sym h), commit)
        (commit-stage es ctx n (i + 1) _ (omega arith))

  -- What a command proposes is committed without a sequence gap, from any ledger whose sequence
  -- number is a `u64`.
  pub propose-commit :
      (l : Ledger) (ctx : Ctx) (cmd : Command) (envs : List Envelope)
      → InRange l
      → propose p l ctx cmd ≡ ok envs
      → (l' : Ledger) × (commit p l envs ≡ some l')
  unfolding propose
  propose-commit l ctx cmd envs h e = go (decide p l.state ctx cmd) e
    where
      go :
          (r : Result (List Event))
          → (r >>= λ events. ok (stage l.next_seq ctx 0 events)) ≡ ok envs
          → (l' : Ledger) × (commit p l envs ≡ some l')
      go (ok es) eq =
          let same_envs : stage l.next_seq ctx 0 es ≡ envs = cc in
          rw (← same_envs) (commit-stage es ctx l.next_seq 0 l (omega arith))
      go (err x) eq = cc
      go panic eq = cc

  execute-commit :
      (l l' : Ledger) (ctx : Ctx) (cmd : Command) (envs : List Envelope)
      → execute p l ctx cmd ≡ ok (l', envs)
      → commit p l envs ≡ some l'
  unfolding execute
  execute-commit l l' ctx cmd envs e = ground arith

  -- Replaying the log of any sequence of accepted commands, from an empty ledger, rebuilds the
  -- ledger that the commands led to.
  pub replay-Reached :
      (l : Ledger) (log : List Envelope) → Reached l log → commit p new log ≡ some l
  unfolding commit
  replay-Reached l log start = refl
  replay-Reached l log (step {l = k} {log = before} {envs = envs} ctx cmd r e) =
      rw (commit-append before envs new, replay-Reached k before r)
        (execute-commit k l ctx cmd envs e)
