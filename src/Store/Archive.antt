-- ===== src/Store/Archive.antt =====
-- `Store` of crates/nocturnal-store/src/compact.rs: monthly partitions and the log behind them.
use nocturnal_discord.Prelude.{
  ℕ, ◌+◌, Bool, Option, none, some, List, [], ◌∷◌, ◌++◌, ◌==◌, ltb, leb, if◌then◌else◌, String,
}
use nocturnal_discord.Prelude.Lists.{length, is_nil, sort_by}
use nocturnal_discord.Prelude.Int.{ℤ}
use nocturnal_discord.Prelude.OrdMap
use nocturnal_discord.Prelude.OrdMap.{OrdMap, text_key}
use nocturnal_discord.Calendar.{partition_name}
use nocturnal_discord.Event.{Event, Envelope, GuildId}
use nocturnal_discord.Event
use nocturnal_discord.Store.Bytes.{Bytes}
use nocturnal_discord.Store.Codec.{Codec}
use nocturnal_discord.Store.Wal.{
  Dir, Wal, WalError, WalResult, ok, err, ◌>>=◌, open_with, read_sealed, align_next_seq,
}

-- A row of a partition: the columns of `schema`.
pub record Row : Type 0 where
  pub seq : ℕ
  pub ts_ms : ℤ
  pub guild : GuildId
  pub kind : String
  pub json : Bytes

-- A record batch of the Parquet library: `column_by_name`, down to a column of texts.
pub record Batch : Type 0 where
  pub text_column : String → Option (List Bytes)

-- The Parquet library: a file of rows, and the reader of the batches of a file, each of which may
-- fail.
pub record Parquet : Type 0 where
  pub write : List Row → Option Bytes
  pub read : Bytes → Option (List (Option Batch))

-- `CompactionReport`
pub record CompactionReport : Type 0 where
  pub events_moved : ℕ
  pub partitions_written : List String
  pub segments_deleted : ℕ

-- The events directory by the names of its files, and the log.
abbrev pub EventsDir : Type 0
EventsDir = OrdMap String Bytes

pub record Store : Type 0 where
  pub wal : Wal
  pub events_dir : EventsDir

unfoldable pub seq_leb : Envelope → Envelope → Bool
seq_leb a b = leb a.seq b.seq

-- `sort_by_key(|e| e.seq)`
abbrev pub sort_by_seq : List Envelope → List Envelope
sort_by_seq = sort_by seq_leb

-- `dedup_by_key(|e| e.seq)`: of neighbours with one number, the first stays.
unfoldable pub dedup_after : ℕ → List Envelope → List Envelope
dedup_after n [] = []
dedup_after n (env ∷ envs) =
    let rest = dedup_after env.seq envs in if env.seq == n then dedup_after n envs else env ∷ rest

unfoldable pub dedup_by_seq : List Envelope → List Envelope
unfolding dedup_after
dedup_by_seq [] = []
dedup_by_seq (env ∷ envs) = env ∷ dedup_after env.seq envs

-- The events that move to a partition with what it holds.
abbrev pub merged : List Envelope → List Envelope → List Envelope
merged envs before = dedup_by_seq (sort_by_seq (envs ++ before))

-- The events of each partition, in the order of the partitions.
unfoldable pub group : List Envelope → OrdMap String (List Envelope) → OrdMap String (List Envelope)
unfolding OrdMap.upsert
group [] groups = groups
group (env ∷ envs) groups =
    group envs (OrdMap.upsert groups (partition_name env.ts_ms) [] (λ old. old ++ env ∷ []))

-- The archived numbers count from 0.
unfoldable pub check_archived : ℕ → List Envelope → WalResult (Unit {0})
check_archived i [] = ok tt
check_archived i (env ∷ envs) =
    if env.seq == i then check_archived (i + 1) envs else err (WalError.sequence_gap i env.seq)

-- The events of the log that are not archived.
unfoldable pub skip_archived : ℕ → List Envelope → List Envelope
skip_archived expected [] = []
skip_archived expected (env ∷ envs) =
    if ltb env.seq expected then skip_archived expected envs else env ∷ envs

-- The join of the archive and the log, at the number that is expected after the archive.
unfoldable pub join : ℕ → Wal → List Envelope → WalResult (Wal × List Envelope)
join expected wal [] = ok (align_next_seq wal expected, [])
join expected wal (first ∷ tail) =
    if ltb expected first.seq
    then err (WalError.sequence_gap expected first.seq)
    else elim (skip_archived expected (first ∷ tail)) [
      | [] ↦ ok (wal, [])
      | next ∷ rest ↦
          if next.seq == expected
          then ok (wal, next ∷ rest)
          else err (WalError.sequence_gap expected next.seq)
    ]

module _ (c : Codec) where
  -- The events of the sealed segments.
  unfoldable pub read_all_sealed : Dir → WalResult (List Envelope)
  unfolding read_sealed
  read_all_sealed [] = ok []
  read_all_sealed ((name, file) ∷ dir) = do
    here ← read_sealed c name file
    later ← read_all_sealed dir
    ok (here ++ later)

module _ (c : Codec) (q : Parquet) where
  unfoldable pub row : Envelope → Option Row
  row env = elim (c.to_string env) [
    | none ↦ none
    | some json ↦ some (record {
      seq = env.seq;
      ts_ms = env.ts_ms;
      guild = env.guild;
      kind = Event.kind env.event;
      json = json;
    })
  ]

  unfoldable pub rows : List Envelope → WalResult (List Row)
  rows [] = ok []
  rows (env ∷ envs) = elim (row env) [
    | none ↦ err WalError.not_serializable
    | some r ↦ rows envs >>= λ rest. ok (r ∷ rest)
  ]

  -- `write_parquet`: the file.
  unfoldable pub write_parquet : List Envelope → WalResult Bytes
  unfolding rows row
  write_parquet envs = rows envs >>= λ rs. elim (q.write rs) [
    | none ↦ err WalError.not_written
    | some file ↦ ok file
  ]

  unfoldable pub read_rows : String → List Bytes → WalResult (List Envelope)
  read_rows name [] = ok []
  read_rows name (json ∷ jsons) = elim (c.from_str json) [
    | none ↦ err (WalError.corrupt_partition name)
    | some env ↦ read_rows name jsons >>= λ rest. ok (env ∷ rest)
  ]

  -- The loop over the batches of a file.
  unfoldable pub read_batches : String → List (Option Batch) → WalResult (List Envelope)
  unfolding read_rows
  read_batches name [] = ok []
  read_batches name (none ∷ batches) = err (WalError.corrupt_partition name)
  read_batches name (some batch ∷ batches) = elim (batch.text_column "json") [
    | none ↦ err (WalError.corrupt_partition name)
    | some jsons ↦
        read_rows name jsons >>= λ here. read_batches name batches >>= λ later. ok (here ++ later)
  ]

  -- `read_parquet`
  unfoldable pub read_parquet : String → Bytes → WalResult (List Envelope)
  unfolding read_batches
  read_parquet name file = elim (q.read file) [
    | none ↦ err (WalError.corrupt_partition name)
    | some batches ↦ read_batches name batches
  ]

  -- `read_all_parquet`
  unfoldable pub read_all_parquet : EventsDir → WalResult (List Envelope)
  unfolding read_parquet
  read_all_parquet [] = ok []
  read_all_parquet ((name, file) ∷ dir) = do
    here ← read_parquet name file
    later ← read_all_parquet dir
    ok (here ++ later)

  -- `Store::open`
  unfoldable pub open_store : EventsDir → Dir → ℕ → WalResult (Store × List Envelope)
  unfolding read_all_parquet check_archived open_with join skip_archived sort_by
  open_store events_dir dir segment_max_bytes = do
    found ← read_all_parquet events_dir
    let archived = sort_by_seq found
    _ ← check_archived 0 archived
    (wal, tail) ← open_with c dir segment_max_bytes
    (wal', later) ← join (length archived) wal tail
    ok (record { wal = wal'; events_dir = events_dir }, archived ++ later)

  -- What a partition holds already.
  unfoldable pub existing : EventsDir → String → WalResult (List Envelope)
  unfolding read_parquet
  existing events_dir name = elim (OrdMap.get events_dir name) [
    | none ↦ ok []
    | some file ↦ read_parquet name file
  ]

  -- The partition is written over, and read back; the directory is what that leaves.
  unfoldable pub write_back : EventsDir → String → List Envelope → EventsDir × WalResult (Unit {0})
  unfolding write_parquet read_parquet
  write_back events_dir name envs = elim (write_parquet envs) [
    | err e ↦ (events_dir, err e)
    | ok file ↦ (
      OrdMap.insert events_dir name file,
      read_parquet name file >>= λ back.
          if length back == length envs then ok tt else err (WalError.corrupt_partition name),
    )
  ]

  unfoldable pub write_partition :
      EventsDir → String → List Envelope → EventsDir × WalResult (Unit {0})
  unfolding existing write_back dedup_by_seq sort_by
  write_partition events_dir name envs = elim (existing events_dir name) [
    | err e ↦ (events_dir, err e)
    | ok before ↦ write_back events_dir name (merged envs before)
  ]

  unfoldable pub write_partitions :
      EventsDir → OrdMap String (List Envelope) → EventsDir × WalResult (List String)
  unfolding write_partition
  write_partitions events_dir [] = (events_dir, ok [])
  write_partitions events_dir ((name, envs) ∷ groups) =
      let (events_dir', done) = write_partition events_dir name envs in
      elim done [
        | err e ↦ (events_dir', err e)
        | ok _ ↦
            let (events_dir'', names) = write_partitions events_dir' groups in
            (events_dir'', names >>= λ ns. ok (name ∷ ns))
      ]

  -- `Store::compact`: the segments are removed when every partition is read back.
  unfoldable pub compact : Store → Store × WalResult CompactionReport
  unfolding read_all_sealed group write_partitions
  compact s =
      if is_nil s.wal.dir
      then (s, ok (record { events_moved = 0; partitions_written = []; segments_deleted = 0 }))
      else elim (read_all_sealed c s.wal.dir) [
        | err e ↦ (s, err e)
        | ok moving ↦
            let (events_dir, names) = write_partitions s.events_dir (group moving []) in
            elim names [
              | err e ↦ (record s { events_dir = events_dir }, err e)
              | ok ns ↦ (
                record { wal = record s.wal { dir = [] }; events_dir = events_dir },
                ok (record {
                  events_moved = length moving;
                  partitions_written = ns;
                  segments_deleted = length s.wal.dir;
                }),
              )
            ]
      ]
