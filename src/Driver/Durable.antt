-- ===== src/Driver/Durable.antt =====
-- Nothing that was accepted is lost: crates/nocturnal/src/driver.rs over
-- crates/nocturnal-store/src/wal.rs.
use nocturnal_discord.Prelude.{
  ℕ, ◌+◌, ◌^◌, ◌<◌, ◌≡◌, refl, sym, ap, ◌∙◌, subst, true, false, some, List, [], ◌∷◌, ◌++◌, arith,
}
use nocturnal_discord.Prelude.Lists.{length, All, length-append}
use nocturnal_discord.Event.{Envelope}
use nocturnal_discord.Command.{Command, Ctx}
use nocturnal_discord.Platform.{Platform}
use nocturnal_discord.Reject.{Rejection, ok}
use nocturnal_discord.Ledger.{Ledger, propose, new, commit}
use nocturnal_discord.Ledger.Recovery.{commit-append}
use nocturnal_discord.Store.Bytes.{Bytes, is_utf8, has_newline}
use nocturnal_discord.Store.Codec.{Codec, IsStorable}
use nocturnal_discord.Store.Log.{IsLog, Run, append-IsLog}
use nocturnal_discord.Store.Recovery.{reopened, open_with-on_disk, open_with-torn}
use nocturnal_discord.Store.Wal
use nocturnal_discord.Store.Wal.{Dir, Wal, on_disk, append, open_with, WalResult}
use nocturnal_discord.Driver.{Writer, accepted, rejected, Booted, serving, execute, boot}
use nocturnal_discord.Driver.Batch.{
  propose-Run, Run-first, commit-Run, commit-next_seq, execute-accepted, execute-rejected,
}

-- What the first boot makes of an empty directory.
abbrev pub first_boot : ℕ → Writer
first_boot max = record {
  wal = record { dir = []; path = 0; file = []; bytes = 0; segment_max_bytes = max; next_seq = 0 };
  ledger = new;
}

first_boot-boot : (p : Platform) (c : Codec) (max : ℕ) → boot p c [] max ≡ serving (first_boot max)
unfolding boot open_with commit
first_boot-boot p c max = refl

-- A serving writer, with everything that its log has taken since its directory was empty. A command
-- is accepted or refused. The process may die while it writes a command's records, after the first
-- of them and some bytes of the next, and boot again.
pub data Serving (p : Platform) (c : Codec) : Writer → List Envelope → Type 1 where
  booted : (max : ℕ) → 0 < max → Serving p c (first_boot max) []
  served :
      {w w' : Writer} {log envs : List Envelope} (ctx : Ctx) (cmd : Command)
      → Serving p c w log
      → execute p c w ctx cmd ≡ (w', accepted envs)
      → All (IsStorable c) envs
      → w.wal.next_seq + length envs < 2 ^ 64
      → Serving p c w' (log ++ envs)
  refused :
      {w w' : Writer} {log : List Envelope} (ctx : Ctx) (cmd : Command) (r : Rejection)
      → Serving p c w log
      → execute p c w ctx cmd ≡ (w', rejected r)
      → Serving p c w' log
  crashed :
      {w w' : Writer} {log : List Envelope} (first rest : List Envelope) (ctx : Ctx) (cmd : Command)
      (wal : Wal) (torn : Bytes)
      → Serving p c w log
      → propose p w.ledger ctx cmd ≡ ok (first ++ rest)
      → All (IsStorable c) first
      → w.wal.next_seq + length (first ++ rest) < 2 ^ 64
      → append c w.wal first ≡ (wal, Wal.ok tt)
      → has_newline torn ≡ false
      → is_utf8 torn ≡ true
      → boot p c (on_disk (record wal { file = wal.file ++ torn })) wal.segment_max_bytes
        ≡ serving w'
      → Serving p c w' (log ++ first)

-- What a serving writer keeps: its log holds what it accepted, and its ledger is the log's replay.
pub record IsDurable (p : Platform) (c : Codec) (w : Writer) (log : List Envelope) : Type 0 where
  pub logged : IsLog c w.wal 0 log
  pub replayed : commit p new log ≡ some w.ledger
  pub in_step : w.ledger.next_seq ≡ w.wal.next_seq
  pub in_u64 : w.wal.next_seq < 2 ^ 64

reopened-eq :
    (c : Codec) (w : Wal) (log : List Envelope) (v : IsLog c w 0 log) → reopened c w 0 log v ≡ w
reopened-eq c w [] v = ground (arith, v.next)
reopened-eq c w (env ∷ log) v = refl

module _ (p : Platform) (c : Codec) where
  boot-eq :
      (w : Writer) (log : List Envelope) (dir : Dir) (max : ℕ) (v : IsDurable p c w log)
      → open_with c dir max ≡ Wal.ok (reopened c w.wal 0 log v.logged, log)
      → boot p c dir max ≡ serving w
  unfolding boot
  boot-eq w log dir max v e =
      rw (e, boot, v.replayed)
        (ap (λ wal. serving (record { wal = wal; ledger = w.ledger }))
          (reopened-eq c w.wal log v.logged))

  -- Records that go on from the log are appended and applied.
  appended-IsDurable :
      (w w' : Writer) (log envs : List Envelope)
      → IsDurable p c w log
      → Run w.ledger.next_seq envs
      → All (IsStorable c) envs
      → w.wal.next_seq + length envs < 2 ^ 64
      → append c w.wal envs ≡ (w'.wal, Wal.ok tt)
      → commit p w.ledger envs ≡ some w'.ledger
      → IsDurable p c w' (log ++ envs)
  appended-IsDurable w w' log envs v run s fits appended committed =
      let (wal, appended', logged) =
        append-IsLog c 0 w.wal log envs v.logged s (subst (λ m. Run m envs) v.in_step run) fits in
      let same : wal ≡ w'.wal =
        ap (λ (r : Wal × WalResult (Unit {0})). r.0) (sym appended' ∙ appended) in
      let logged' = subst (λ x. IsLog c x 0 (log ++ envs)) same logged in
      let next = commit-next_seq p envs w.ledger w'.ledger committed (omega (arith, v.in_step)) in
      record {
        logged = logged';
        replayed = rw (commit-append p log envs new, v.replayed) committed;
        in_step =
            omega (arith, next, v.in_step, logged'.next, v.logged.next, length-append log envs);
        in_u64 = omega (arith, logged'.next, v.logged.next, length-append log envs);
      }

  served-IsDurable :
      (w w' : Writer) (log envs : List Envelope) (ctx : Ctx) (cmd : Command)
      → IsDurable p c w log
      → execute p c w ctx cmd ≡ (w', accepted envs)
      → All (IsStorable c) envs
      → w.wal.next_seq + length envs < 2 ^ 64
      → IsDurable p c w' (log ++ envs)
  served-IsDurable w w' log envs ctx cmd v e s fits =
      let (proposed, appended, committed) = execute-accepted p c w w' ctx cmd envs e in
      let run = propose-Run p w.ledger ctx cmd envs proposed (omega (arith, v.in_step)) in
      appended-IsDurable w w' log envs v run s fits appended committed

  -- A boot over the log with bytes left at its end gives back the writer.
  boot-torn :
      (w : Writer) (log : List Envelope) (torn : Bytes)
      → IsDurable p c w log
      → has_newline torn ≡ false
      → is_utf8 torn ≡ true
      → boot p c (on_disk (record w.wal { file = w.wal.file ++ torn })) w.wal.segment_max_bytes
        ≡ serving w
  boot-torn w log torn v one_line text =
      boot-eq w log _ _ v (open_with-torn c w.wal 0 log v.logged torn one_line text v.in_u64)

  -- The first records of a command, whose log is booted from.
  begun-IsDurable :
      (w : Writer) (log first rest : List Envelope) (ctx : Ctx) (cmd : Command) (wal : Wal)
      → IsDurable p c w log
      → propose p w.ledger ctx cmd ≡ ok (first ++ rest)
      → All (IsStorable c) first
      → w.wal.next_seq + length (first ++ rest) < 2 ^ 64
      → append c w.wal first ≡ (wal, Wal.ok tt)
      → (l : Ledger) × (commit p w.ledger first ≡ some l)
        × IsDurable p c (record { wal = wal; ledger = l }) (log ++ first)
  begun-IsDurable w log first rest ctx cmd wal v proposed s fits appended =
      let size = length-append first rest in
      let run =
        Run-first w.ledger.next_seq first rest
          (propose-Run p w.ledger ctx cmd (first ++ rest) proposed (omega (arith, v.in_step))) in
      let (l, committed) = commit-Run p first w.ledger run (omega (arith, v.in_step)) in
      (
        l,
        committed,
        appended-IsDurable w (record { wal = wal; ledger = l }) log first v run s (omega arith)
            appended committed,
      )

  serving-eq : (w w' : Writer) → ◌≡◌ {A = Booted} (serving w) (serving w') → w ≡ w'
  serving-eq w w' e = cc

  -- Of a serving writer, whatever commands and crashes came, the log holds what it has taken, in this
  -- order and numbered from 0, and the ledger is the replay of it, with the same next number.
  pub Serving-IsDurable :
      (w : Writer) (log : List Envelope) → Serving p c w log → IsDurable p c w log
  Serving-IsDurable w log (booted max room) = record {
    logged = record {
      sealed = [];
      here = [];
      split = refl;
      held = refl;
      holding = refl;
      counted = refl;
      run = tt;
      next = refl;
      below = tt;
      named = omega arith;
      started = λ h. absurd (omega arith);
      room = room;
    };
    replayed = unfold commit in refl;
    in_step = refl;
    in_u64 = omega arith;
  }
  Serving-IsDurable w log (served {w = before} {log = past} {envs = envs} ctx cmd r e s fits) =
      served-IsDurable before w past envs ctx cmd (Serving-IsDurable before past r) e s fits
  Serving-IsDurable w log (refused {w = before} ctx cmd x r e) =
      subst (λ k. IsDurable p c k log) (execute-rejected p c before w ctx cmd x e)
        (Serving-IsDurable before log r)
  Serving-IsDurable w log
        (crashed {w = before} {log = past} first rest ctx cmd wal torn r e s fits a one_line text
          again) =
      let (l, _, v) =
        begun-IsDurable before past first rest ctx cmd wal (Serving-IsDurable before past r) e s
          fits a in
      let begun : Writer = record { wal = wal; ledger = l } in
      subst (λ k. IsDurable p c k (past ++ first))
        (serving-eq begun w (sym (boot-torn begun (past ++ first) torn v one_line text) ∙ again)) v

  -- A clean boot gives back the very writer that was stopped.
  pub boot-Serving :
      (w : Writer) (log : List Envelope)
      → Serving p c w log
      → boot p c (on_disk w.wal) w.wal.segment_max_bytes ≡ serving w
  boot-Serving w log r =
      let v = Serving-IsDurable w log r in
      boot-eq w log _ _ v (open_with-on_disk c w.wal 0 log v.logged v.in_u64)

  -- A crash while the records of a command are written, which can be stored and whose numbers fit
  -- 64 bits, keeps those that were written whole, which may be some and not all of the command's:
  -- where whole characters of the next one are left, without a newline, the boot gives back the
  -- writer's ledger with these applied.
  pub boot-crashed :
      (w : Writer) (log first rest : List Envelope) (ctx : Ctx) (cmd : Command) (wal : Wal)
      (torn : Bytes)
      → Serving p c w log
      → propose p w.ledger ctx cmd ≡ ok (first ++ rest)
      → All (IsStorable c) first
      → w.wal.next_seq + length (first ++ rest) < 2 ^ 64
      → append c w.wal first ≡ (wal, Wal.ok tt)
      → has_newline torn ≡ false
      → is_utf8 torn ≡ true
      → (l : Ledger) × (commit p w.ledger first ≡ some l)
        × (boot p c (on_disk (record wal { file = wal.file ++ torn })) wal.segment_max_bytes
            ≡ serving (record { wal = wal; ledger = l }))
  boot-crashed w log first rest ctx cmd wal torn r e s fits a one_line text =
      let (l, committed, v) =
        begun-IsDurable w log first rest ctx cmd wal (Serving-IsDurable w log r) e s fits a in
      (
        l,
        committed,
        boot-torn (record { wal = wal; ledger = l }) (log ++ first) torn v one_line text,
      )
