-- ===== src/Store/Joined.antt =====
-- Opening over the partitions and the log: `open_with_archive` of
-- crates/nocturnal-store/src/compact.rs.
use nocturnal_discord.Prelude.{
  ℕ, ◌+◌, ◌^◌, ◌<◌, ◌≡◌, refl, sym, ap, subst, ◌∙◌, false, List, [], ◌∷◌, ◌++◌, ◌==◌, ltb,
  if◌then◌else◌, arith, ==_iff, max,
}
use nocturnal_discord.Prelude.Lists.{length, length-append}
use nocturnal_discord.Event.{Envelope}
use nocturnal_discord.Store.Codec.{Codec}
use nocturnal_discord.Store.Wal.{Wal, WalError, WalResult, ok, err, on_disk, align_next_seq}
use nocturnal_discord.Store.Lines.{Holding}
use nocturnal_discord.Store.Log.{IsLog, Run}
use nocturnal_discord.Store.Recovery.{reopened, open_with-on_disk}
use nocturnal_discord.Store.Archive.{
  Parquet, EventsDir, sort_by_seq, check_archived, skip_archived, join, read_all_parquet,
  open_store,
}

check_archived-Run : (envs : List Envelope) (i : ℕ) → Run i envs → check_archived i envs ≡ ok tt
unfolding check_archived
check_archived-Run [] i r = refl
check_archived-Run (env ∷ envs) i r =
    rw ((==_iff env.seq i).1 r.0) (check_archived-Run envs (i + 1) r.1)

skip_archived-overlap :
    (overlap rest : List Envelope) (j : ℕ)
    → Run j (overlap ++ rest)
    → skip_archived (j + length overlap) (overlap ++ rest) ≡ rest
unfolding skip_archived
skip_archived-overlap [] [] j r = refl
skip_archived-overlap [] (env ∷ rest) j r = ground (arith, r.0)
skip_archived-overlap (env ∷ overlap) rest j r =
    ground (arith, r.0, skip_archived-overlap overlap rest (j + 1) r.1)

Run-next :
    (overlap rest : List Envelope) (next : Envelope) (j : ℕ)
    → Run j (overlap ++ next ∷ rest)
    → next.seq ≡ j + length overlap
Run-next [] rest next j r = omega (arith, r.0)
Run-next (env ∷ overlap) rest next j r = omega (arith, Run-next overlap rest next (j + 1) r.1)

-- What is left of the log after the archive goes on from it.
after_archive :
    (wal : Wal) (overlap rest : List Envelope) (j : ℕ)
    → Run j (overlap ++ rest)
    → elim rest as (λ _. WalResult (Wal × List Envelope)) [
      | [] ↦ ok (wal, [])
      | next ∷ later ↦
          if next.seq == j + length overlap
          then ok (wal, next ∷ later)
          else err (WalError.sequence_gap (j + length overlap) next.seq)
    ]
      ≡ ok (wal, rest)
after_archive wal overlap [] j r = refl
after_archive wal overlap (next ∷ rest) j r =
    rw ((==_iff next.seq (j + length overlap)).1 (Run-next overlap rest next j r)) refl

-- The log goes on from the archive, with some of what is archived before that.
join-some :
    (wal : Wal) (overlap rest : List Envelope) (j : ℕ) (first : Envelope) (tail : List Envelope)
    → overlap ++ rest ≡ first ∷ tail
    → Run j (overlap ++ rest)
    → join (j + length overlap) wal (first ∷ tail) ≡ ok (wal, rest)
unfolding join
join-some wal overlap rest j first tail e r =
    let run : Run j (first ∷ tail) = subst (Run j) e r in
    let within : ltb (j + length overlap) first.seq ≡ false = ground (arith, run.0) in
    let skipped : skip_archived (j + length overlap) (first ∷ tail) ≡ rest =
      subst (λ envs. skip_archived (j + length overlap) envs ≡ rest) e
        (skip_archived-overlap overlap rest j r) in
    rw (within, skipped) (after_archive wal overlap rest j r)

nil-of-append : {A : Type 0} → (xs ys : List A) → ◌≡◌ {A = List A} [] (xs ++ ys) → ys ≡ []
nil-of-append [] ys e = sym e
nil-of-append (x ∷ xs) ys e = cc

-- The log as it was left, whether it has records or not.
join-IsLog :
    (c : Codec) (w : Wal) (j : ℕ) (overlap rest : List Envelope)
    → (v : IsLog c w j (overlap ++ rest))
    → join (j + length overlap) (reopened c w j (overlap ++ rest) v) (overlap ++ rest)
      ≡ ok (w, rest)
unfolding join align_next_seq
join-IsLog c w j [] [] v =
    let none_here : v.here ≡ [] = nil-of-append v.sealed v.here v.split in
    let empty : w.file ≡ [] = subst (λ envs. Holding c envs w.file) none_here v.holding in
    let no_bytes : w.bytes ≡ 0 = v.counted ∙ ap length empty in
    let same : max 0 (j + 0) ≡ w.next_seq = omega (arith, v.next) in
    rw no_bytes (ap (λ n. ok (record w { bytes = 0; next_seq = n }, [])) same)
join-IsLog c w j [] (first ∷ rest) v = join-some w [] (first ∷ rest) j first rest refl v.run
join-IsLog c w j (first ∷ overlap) rest v =
    join-some w (first ∷ overlap) rest j first (overlap ++ rest) refl v.run

module _ (c : Codec) (q : Parquet) where
  -- Opened over partitions that read as events numbered from 0, and a log, with numbers in 64
  -- bits, that goes on from them or from an earlier number where a compaction was cut short, the
  -- store gives each event once and the log as it was left.
  pub open_store-joined :
      (w : Wal) (pre overlap rest found : List Envelope) (events_dir : EventsDir)
      → IsLog c w (length pre) (overlap ++ rest)
      → w.next_seq < 2 ^ 64
      → read_all_parquet c q events_dir ≡ ok found
      → sort_by_seq found ≡ pre ++ overlap
      → Run 0 (pre ++ overlap)
      → open_store c q events_dir (on_disk w) w.segment_max_bytes
        ≡ ok (record { wal = w; events_dir = events_dir }, (pre ++ overlap) ++ rest)
  unfolding open_store
  open_store-joined w pre overlap rest found events_dir v room read sorted run =
      rw
        (
          read,
          sorted,
          check_archived-Run (pre ++ overlap) 0 run,
          open_with-on_disk c w (length pre) (overlap ++ rest) v room,
          length-append pre overlap,
          join-IsLog c w (length pre) overlap rest v,
        )
        refl
