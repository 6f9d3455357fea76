-- ===== src/Driver.antt =====
-- The single writer of crates/nocturnal/src/driver.rs: a command is decided, appended to the log
-- and then applied, and a boot replays the log.
pub mod Batch
pub mod Durable
pub mod Live
use nocturnal_discord.Prelude.{ℕ, Option, none, some, List, [], ◌∷◌}
use nocturnal_discord.Event.{Envelope}
use nocturnal_discord.Command.{Command, Ctx}
use nocturnal_discord.Platform.{Platform}
use nocturnal_discord.Reject.{Rejection, ok, err, panic}
use nocturnal_discord.Ledger.{Ledger, new, propose, commit}
use nocturnal_discord.Store.Codec.{Codec}
use nocturnal_discord.Store.Wal
use nocturnal_discord.Store.Wal.{Dir, Wal, WalError, open_with, append}

-- What the writer thread owns: the store, which is its log here, and the ledger.
pub record Writer : Type 0 where
  pub wal : Wal
  pub ledger : Ledger

-- The reply to a command; `stopped` is a panic of the thread.
pub data Reply : Type 0 where
  accepted : List Envelope → Reply
  rejected : Rejection → Reply
  storage : WalError → Reply
  stopped : Reply

pub data Booted : Type 0 where
  serving : Writer → Booted
  failed : WalError → Booted
  corrupt : Booted

module _ (p : Platform) (c : Codec) where
  -- Append, then commit.
  unfoldable pub persist : Writer → List Envelope → Writer × Reply
  persist w envelopes =
      let (wal, appended) = append c w.wal envelopes in
      elim appended [
        | Wal.err e ↦ (record w { wal = wal }, storage e)
        | Wal.ok _ ↦ elim (commit p w.ledger envelopes) [
          | none ↦ (record w { wal = wal }, stopped)
          | some ledger ↦ (record { wal = wal; ledger = ledger }, accepted envelopes)
        ]
      ]

  -- `Request::Execute`
  unfoldable pub execute : Writer → Ctx → Command → Writer × Reply
  unfolding persist
  execute w ctx cmd = elim (propose p w.ledger ctx cmd) [
    | ok envelopes ↦ persist w envelopes
    | err r ↦ (w, rejected r)
    | panic ↦ (w, stopped)
  ]

  -- `start_with_archive`: open the log and replay it.
  unfoldable pub boot : Dir → ℕ → Booted
  boot dir segment_max_bytes = elim (open_with c dir segment_max_bytes) [
    | Wal.err e ↦ failed e
    | Wal.ok (wal, envelopes) ↦ elim (commit p new envelopes) [
      | none ↦ corrupt
      | some ledger ↦ serving (record { wal = wal; ledger = ledger })
    ]
  ]
