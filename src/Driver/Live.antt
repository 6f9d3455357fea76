-- ===== src/Driver/Live.antt =====
-- A decision that is made is also carried out: crates/nocturnal/src/driver.rs.
use nocturnal_discord.Prelude.{◌+◌, ◌^◌, ◌<◌, ◌≡◌, ap, ◌∙◌, subst, some, List, arith}
use nocturnal_discord.Prelude.Lists.{length, All}
use nocturnal_discord.Event.{Envelope}
use nocturnal_discord.Command.{Command, Ctx}
use nocturnal_discord.Platform.{Platform}
use nocturnal_discord.Reject.{ok}
use nocturnal_discord.Ledger.{Ledger, propose, commit}
use nocturnal_discord.Ledger.Recovery.{propose-commit}
use nocturnal_discord.Store.Codec.{Codec, IsStorable}
use nocturnal_discord.Store.Log.{Run, append-IsLog}
use nocturnal_discord.Store.Wal
use nocturnal_discord.Store.Wal.{append}
use nocturnal_discord.Driver.{Writer, accepted, execute, persist}
use nocturnal_discord.Driver.Durable.{Serving, Serving-IsDurable}
use nocturnal_discord.Driver.Batch.{propose-Run}

module _ (p : Platform) (c : Codec) where
  persist-eq :
      (w : Writer) (envs : List Envelope) (wal : Wal.Wal) (l : Ledger)
      → append c w.wal envs ≡ (wal, Wal.ok tt)
      → commit p w.ledger envs ≡ some l
      → persist p c w envs ≡ (record { wal = wal; ledger = l }, accepted envs)
  unfolding persist
  persist-eq w envs wal l a k =
      rw (a, persist, k)
        (ap
          (λ (r : Wal.Wal × Wal.WalResult (Unit {0})).
            (record { wal = r.0; ledger = l }, accepted envs))
          a)

  execute-eq :
      (w : Writer) (ctx : Ctx) (cmd : Command) (envs : List Envelope)
      → propose p w.ledger ctx cmd ≡ ok envs
      → execute p c w ctx cmd ≡ persist p c w envs
  unfolding execute
  execute-eq w ctx cmd envs e = rw (e, execute)

  -- In a serving writer, what a command proposes, where it can be stored and its numbers fit 64
  -- bits, is appended, applied and answered.
  pub execute-Serving :
      (w : Writer) (log envs : List Envelope) (ctx : Ctx) (cmd : Command)
      → Serving p c w log
      → propose p w.ledger ctx cmd ≡ ok envs
      → All (IsStorable c) envs
      → w.wal.next_seq + length envs < 2 ^ 64
      → (w' : Writer) × (execute p c w ctx cmd ≡ (w', accepted envs))
  execute-Serving w log envs ctx cmd r e s fits =
      let v = Serving-IsDurable p c w log r in
      let run = propose-Run p w.ledger ctx cmd envs e (omega (arith, v.in_step)) in
      let (wal, appended, logged) =
        append-IsLog c 0 w.wal log envs v.logged s (subst (λ m. Run m envs) v.in_step run) fits in
      let (l, committed) =
        propose-commit p w.ledger ctx cmd envs (omega (arith, v.in_step, v.in_u64)) e in
      (
        record { wal = wal; ledger = l },
        execute-eq w ctx cmd envs e ∙ (persist-eq w envs wal l appended committed),
      )
