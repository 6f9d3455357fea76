-- ===== src/Store/Compaction.antt =====
-- No event is lost when the log moves to the partitions: `compact` of
-- crates/nocturnal-store/src/compact.rs.
use nocturnal_discord.Prelude.{
  ℕ, ◌≡◌, refl, sym, ap, subst⁻¹, inl, inr, true, false, List, [], ◌∷◌, Bool-cases, String,
}
use nocturnal_discord.Prelude.Lists.{All-append, All, length, is_nil}
use nocturnal_discord.Prelude.OrdMap.{text_key, nat_key}
use nocturnal_discord.Calendar.{partition_name}
use nocturnal_discord.Event.{Envelope}
use nocturnal_discord.Store.Bytes.{Bytes}
use nocturnal_discord.Store.Codec.{Codec, IsStorable}
use nocturnal_discord.Store.Wal.{Dir, WalResult, ok, err, read_sealed}
use nocturnal_discord.Store.Lines.{Holding, read_segment-Holding}
use nocturnal_discord.Store.Log.{Held}
use nocturnal_discord.Store.Archive.{
  Store, Parquet, EventsDir, CompactionReport, group, write_partitions, read_all_sealed, compact,
}
use nocturnal_discord.Store.Partitions.{Faithful, AllRead}
use nocturnal_discord.Store.Groups.{group-AllIn, All-group}
use nocturnal_discord.Store.Kept.{Kept, Known, All-map, Fits, Written, write_partitions-Written}

read_all_sealed-Held :
    (c : Codec) (dir : Dir) (moving : List Envelope)
    → Held c dir moving
    → read_all_sealed c dir ≡ ok moving
unfolding read_all_sealed read_sealed
read_all_sealed-Held c [] moving h = ap ok (sym h)
read_all_sealed-Held c ((name, file) ∷ dir) moving (here, later, split, holding, h) =
    rw
      (
        read_segment-Holding c name here file holding false,
        read_all_sealed-Held c dir later h,
        split,
      )
      refl

Holding-IsStorable :
    (c : Codec) (envs : List Envelope) (bytes : Bytes)
    → Holding c envs bytes
    → All (IsStorable c) envs
Holding-IsStorable c [] bytes h = tt
Holding-IsStorable c (env ∷ envs) bytes (v, rest, e, h) = (v, Holding-IsStorable c envs rest h)

Held-IsStorable :
    (c : Codec) (dir : Dir) (envs : List Envelope) → Held c dir envs → All (IsStorable c) envs
Held-IsStorable c [] envs h = subst⁻¹ (All (IsStorable c)) h tt
Held-IsStorable c ((name, file) ∷ dir) envs (here, later, split, holding, h) =
    subst⁻¹ (All (IsStorable c)) split (
      All-append (IsStorable c) here later (Holding-IsStorable c here file holding)
        (Held-IsStorable c dir later h))

nothing-Held :
    (c : Codec) (dir : Dir) (envs : List Envelope)
    → is_nil dir ≡ true
    → Held c dir envs
    → (dir ≡ []) × (envs ≡ [])
nothing-Held c [] envs n h = (refl, h)
nothing-Held c (s ∷ dir) envs n h = cc

module _ (c : Codec) (q : Parquet) where
  -- What a compaction of events that move does to a store whose partitions have events to be kept.
  abbrev pub Compacted :
      Store → List Envelope → List Envelope → Store × WalResult CompactionReport → Type 0
  Compacted s moving keeping (s', err x) = All (Kept c q s'.events_dir) keeping × (s'.wal ≡ s.wal)
  Compacted s moving keeping (s', ok report) =
      All (Kept c q s'.events_dir) keeping
      × All (Kept c q s'.events_dir) moving
      × (s'.wal ≡ record s.wal { dir = [] })
      × (report.events_moved ≡ length moving)

module _ (c : Codec) (q : Parquet) (f : Faithful q) (hist : ℕ → Envelope) where
  -- The store after the partitions are written.
  abbrev removed :
      Store
      → List Envelope
      → EventsDir × WalResult (List String)
      → Store × WalResult CompactionReport
  removed s moving (dir, err x) = (record s { events_dir = dir }, err x)
  removed s moving (dir, ok ns) = (
    record { wal = record s.wal { dir = [] }; events_dir = dir },
    ok (record {
      events_moved = length moving;
      partitions_written = ns;
      segments_deleted = length s.wal.dir;
    }),
  )

  compact-removed :
      (s : Store) (moving : List Envelope)
      → read_all_sealed c s.wal.dir ≡ ok moving
      → is_nil s.wal.dir ≡ false
      → compact c q s ≡ removed s moving (write_partitions c q s.events_dir (group moving []))
  unfolding compact
  compact-removed s moving e n =
      rw (n, e, compact) (cases (write_partitions c q s.events_dir (group moving [])))
    where
      cases :
          (result : EventsDir × WalResult (List String))
          → elim result.1 as (λ _. Store × WalResult CompactionReport) [
            | err x ↦ (record s { events_dir = result.0 }, err x)
            | ok ns ↦ (
              record { wal = record s.wal { dir = [] }; events_dir = result.0 },
              ok (record {
                events_moved = length moving;
                partitions_written = ns;
                segments_deleted = length s.wal.dir;
              }),
            )
          ]
            ≡ removed s moving result
      cases (dir, err x) = refl
      cases (dir, ok ns) = refl

  compact-nothing :
      (s : Store)
      → is_nil s.wal.dir ≡ true
      → compact c q s
        ≡ (s, ok (record { events_moved = 0; partitions_written = []; segments_deleted = 0 }))
  unfolding compact
  compact-nothing s n = rw n refl

  finish :
      (s : Store) (moving keeping : List Envelope) (result : EventsDir × WalResult (List String))
      → All (Kept c q s.events_dir) keeping
      → Written c q f hist s.events_dir (group moving []) result
      → Compacted c q s moving keeping (removed s moving result)
  finish s moving keeping (dir, err x) k w = (All-map keeping w k, refl)
  finish s moving keeping (dir, ok ns) k w =
      (All-map keeping w.0 k, (All-group (Kept c q dir) moving [] w.1).0, refl, refl)

  -- In a store whose sealed segments hold good records, where each event, of the partitions and of
  -- these segments, is the one that the history has under its number, and each of the partitions'
  -- can be stored, over a Parquet library whose batches have the column that was written, a
  -- compaction keeps every event that the partitions have. If it fails the log is as it was. If not,
  -- the partitions have every event of the sealed segments, and these alone are removed.
  pub compact-Compacted :
      (s : Store) (moving keeping : List Envelope)
      → Held c s.wal.dir moving
      → All (λ env. env ≡ hist env.seq) moving
      → AllRead c q (Known c hist) s.events_dir
      → All (Kept c q s.events_dir) keeping
      → Compacted c q s moving keeping (compact c q s)
  compact-Compacted s moving keeping h numbered known k = elim (Bool-cases (is_nil s.wal.dir)) [
    | inl nothing ↦
        let (no_dir, no_events) = nothing-Held c s.wal.dir moving nothing h in
        subst⁻¹ (Compacted c q s moving keeping) (compact-nothing s nothing) (
          k,
          subst⁻¹ (All (Kept c q s.events_dir)) no_events tt,
          ap (λ dir. record s.wal { dir = dir }) no_dir,
          ap length (sym no_events),
        )
    | inr some_sealed ↦
        let groups = group moving [] in
        let fits =
          group-AllIn (Fits c hist) moving []
            (all_known moving (Held-IsStorable c s.wal.dir moving h) numbered) tt in
        subst⁻¹ (Compacted c q s moving keeping)
          (compact-removed s moving (read_all_sealed-Held c s.wal.dir moving h) some_sealed)
          (finish s moving keeping (write_partitions c q s.events_dir groups) k
            (write_partitions-Written c q f hist groups s.events_dir fits known))
  ]
    where
      all_known :
          (envs : List Envelope)
          → All (IsStorable c) envs
          → All (λ env. env ≡ hist env.seq) envs
          → All (λ env. Fits c hist (partition_name env.ts_ms) env) envs
      all_known [] a b = tt
      all_known (env ∷ envs) a b = ((refl, (a.0, b.0)), all_known envs a.1 b.1)
