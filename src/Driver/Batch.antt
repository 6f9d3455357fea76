-- ===== src/Driver/Batch.antt =====
-- What one command does to the writer: crates/nocturnal/src/driver.rs.
use nocturnal_discord.Prelude.{
  ◌∙◌, subst⁻¹, ==_iff, ◌++◌, ℕ, suc, ◌+◌, ◌%◌, ◌^◌, ◌<◌, ◌≡◌, refl, ap, subst, Option, none, some,
  List, [], ◌∷◌, arith,
}
use nocturnal_discord.Prelude.Lists.{length}
use nocturnal_discord.Event.{Event, Envelope}
use nocturnal_discord.Command.{Command, Ctx}
use nocturnal_discord.Platform.{Platform}
use nocturnal_discord.Apply.Step.{apply}
use nocturnal_discord.Reject.{Rejection, Result, ok, err, panic, ◌>>=◌}
use nocturnal_discord.Ledger.{Ledger, stage, propose, replay, commit}
use nocturnal_discord.Ledger.Recovery.{commit-cons}
use nocturnal_discord.Decide.Step.{decide}
use nocturnal_discord.Store.Codec.{Codec}
use nocturnal_discord.Store.Log.{Run}
use nocturnal_discord.Store.Wal
use nocturnal_discord.Store.Wal.{Dir, Wal, on_disk, append, open_with, WalResult}
use nocturnal_discord.Driver.{Writer, Reply, accepted, rejected, storage, stopped, persist, execute}

pub stage-Run :
    (es : List Event) (ctx : Ctx) (n i : ℕ)
    → n + i + length es < 2 ^ 64
    → Run (n + i) (stage n ctx i es)
unfolding stage
stage-Run [] ctx n i h = tt
stage-Run (e ∷ es) ctx n i h = (
  omega arith,
  subst (λ m. Run m (stage n ctx (i + 1) es)) (omega arith)
      (stage-Run es ctx n (i + 1) (omega arith)),
)

length-stage : (es : List Event) (ctx : Ctx) (n i : ℕ) → length (stage n ctx i es) ≡ length es
unfolding stage
length-stage [] ctx n i = refl
length-stage (e ∷ es) ctx n i = ap suc (length-stage es ctx n (i + 1))

module _ (p : Platform) where
  pub propose-Run :
      (l : Ledger) (ctx : Ctx) (cmd : Command) (envs : List Envelope)
      → propose p l ctx cmd ≡ ok envs
      → l.next_seq + length envs < 2 ^ 64
      → Run l.next_seq envs
  unfolding propose
  propose-Run l ctx cmd envs e h = go (decide p l.state ctx cmd) e
    where
      go :
          (r : Result (List Event))
          → (r >>= λ events. ok (stage l.next_seq ctx 0 events)) ≡ ok envs
          → Run l.next_seq envs
      go (ok es) eq =
          let same : stage l.next_seq ctx 0 es ≡ envs = cc in
          let size = ap length same in
          subst (Run l.next_seq) same (
            subst (λ m. Run m (stage l.next_seq ctx 0 es)) (omega arith)
              (stage-Run es ctx l.next_seq 0
                (omega (arith, size, length-stage es ctx l.next_seq 0))))
      go (err x) eq = cc
      go panic eq = cc

  replay-next_seq :
      (l l' : Ledger) (env : Envelope)
      → replay p l env ≡ some l'
      → l'.next_seq ≡ (l.next_seq + 1) % 2 ^ 64
  unfolding replay
  replay-next_seq l l' env h = ground arith

  pub commit-next_seq :
      (envs : List Envelope) (l l' : Ledger)
      → commit p l envs ≡ some l'
      → l.next_seq + length envs < 2 ^ 64
      → l'.next_seq ≡ l.next_seq + length envs
  unfolding commit
  commit-next_seq [] l l' e h = let same : l ≡ l' = cc in rw (← same) (omega arith)
  commit-next_seq (env ∷ envs) l l' e h =
      let (l1, next, rest) = commit-cons p l l' env envs e in
      let one = replay-next_seq l l1 env next in
      omega (arith, one, commit-next_seq envs l1 l' rest (omega (arith, one)))

  replay-eq :
      (l : Ledger) (env : Envelope)
      → env.seq ≡ l.next_seq
      → (l' : Ledger) × (replay p l env ≡ some l') × (l'.next_seq ≡ (l.next_seq + 1) % 2 ^ 64)
  unfolding replay
  replay-eq l env e = (
    record { state = apply p l.state env; next_seq = (l.next_seq + 1) % 2 ^ 64 },
    rw (e, (==_iff l.next_seq l.next_seq).1 refl) refl,
    refl,
  )

  commit-step :
      (envs : List Envelope) (l l1 : Ledger) (env : Envelope)
      → replay p l env ≡ some l1
      → commit p l (env ∷ envs) ≡ commit p l1 envs
  unfolding commit
  commit-step envs l l1 env e = rw (e, commit)

  -- What goes on from the ledger is applied without a panic.
  pub commit-Run :
      (envs : List Envelope) (l : Ledger)
      → Run l.next_seq envs
      → l.next_seq + length envs < 2 ^ 64
      → (l' : Ledger) × (commit p l envs ≡ some l')
  unfolding commit
  commit-Run [] l r h = (l, refl)
  commit-Run (env ∷ envs) l r h =
      let (l1, one, next) = replay-eq l env r.0 in
      let after : l1.next_seq ≡ l.next_seq + 1 = omega arith in
      let (l', rest) = commit-Run envs l1 (subst⁻¹ (λ m. Run m envs) after r.1) (omega arith) in
      (l', commit-step envs l l1 env one ∙ rest)

pub Run-first : (n : ℕ) (first rest : List Envelope) → Run n (first ++ rest) → Run n first
Run-first n [] rest r = tt
Run-first n (env ∷ first) rest r = (r.0, Run-first (n + 1) first rest r.1)

module _ (p : Platform) (c : Codec) where
  -- An accepted batch has been appended and applied.
  persist-accepted :
      (w w' : Writer) (es envs : List Envelope)
      → persist p c w es ≡ (w', accepted envs)
      → (es ≡ envs)
        × (append c w.wal es ≡ (w'.wal, Wal.ok tt))
        × (commit p w.ledger es ≡ some w'.ledger)
  unfolding persist
  persist-accepted w w' es envs e = go (append c w.wal es) refl (commit p w.ledger es) refl e
    where
      go :
          (a : Wal × WalResult (Unit {0}))
          → append c w.wal es ≡ a
          → (o : Option Ledger) → commit p w.ledger es ≡ o
          → elim a.1 as (λ _. Writer × Reply) [
            | Wal.err x ↦ (record w { wal = a.0 }, storage x)
            | Wal.ok _ ↦ elim o as (λ _. Writer × Reply) [
              | none ↦ (record w { wal = a.0 }, stopped)
              | some ledger ↦ (record { wal = a.0; ledger = ledger }, accepted es)
            ]
          ]
            ≡ (w', accepted envs)
          → (es ≡ envs)
            × (append c w.wal es ≡ (w'.wal, Wal.ok tt))
            × (commit p w.ledger es ≡ some w'.ledger)
      go (wal, Wal.err x) ea o eo eq = ground arith
      go (wal, Wal.ok done) ea none eo eq = ground arith
      go (wal, Wal.ok done) ea (some l) eo eq = (ground arith, ground arith, ground arith)

  pub execute-accepted :
      (w w' : Writer) (ctx : Ctx) (cmd : Command) (envs : List Envelope)
      → execute p c w ctx cmd ≡ (w', accepted envs)
      → (propose p w.ledger ctx cmd ≡ ok envs)
        × (append c w.wal envs ≡ (w'.wal, Wal.ok tt))
        × (commit p w.ledger envs ≡ some w'.ledger)
  unfolding execute
  execute-accepted w w' ctx cmd envs e = go (propose p w.ledger ctx cmd) refl e
    where
      go :
          (r : Result (List Envelope))
          → propose p w.ledger ctx cmd ≡ r
          → elim r as (λ _. Writer × Reply) [
            | ok es ↦ persist p c w es
            | err x ↦ (w, rejected x)
            | panic ↦ (w, stopped)
          ]
            ≡ (w', accepted envs)
          → (propose p w.ledger ctx cmd ≡ ok envs)
            × (append c w.wal envs ≡ (w'.wal, Wal.ok tt))
            × (commit p w.ledger envs ≡ some w'.ledger)
      go (ok es) er eq =
          let (same, appended, committed) = persist-accepted w w' es envs eq in (cc, cc, cc)
      go (err x) er eq = ground arith
      go panic er eq = ground arith

  persist-rejected :
      (w w' : Writer) (es : List Envelope) (x : Rejection)
      → persist p c w es ≡ (w', rejected x)
      → w ≡ w'
  unfolding persist
  persist-rejected w w' es x e = ground arith

  pub execute-rejected :
      (w w' : Writer) (ctx : Ctx) (cmd : Command) (x : Rejection)
      → execute p c w ctx cmd ≡ (w', rejected x)
      → w ≡ w'
  unfolding execute
  execute-rejected w w' ctx cmd x e = go (propose p w.ledger ctx cmd) e
    where
      go :
          (r : Result (List Envelope))
          → elim r as (λ _. Writer × Reply) [
            | ok es ↦ persist p c w es
            | err y ↦ (w, rejected y)
            | panic ↦ (w, stopped)
          ]
            ≡ (w', rejected x)
          → w ≡ w'
      go (ok es) eq = persist-rejected w w' es x eq
      go (err y) eq = ap (λ (r : Writer × Reply). r.0) eq
      go panic eq = ap (λ (r : Writer × Reply). r.0) eq
