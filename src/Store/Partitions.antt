-- ===== src/Store/Partitions.antt =====
-- A partition that is written reads back: `write_parquet`, `read_parquet` and the body of the loop
-- of `compact` of crates/nocturnal-store/src/compact.rs.
use nocturnal_discord.Prelude.{
  ◌≡◌, refl, sym, ap, subst, ◌∙◌, ◌⊎◌, inl, inr, Option, none, some, List, [], ◌∷◌, ◌++◌, ==_iff,
  String, map, arith, Bool-cases,
}
use nocturnal_discord.Prelude.Lists.{length, All}
use nocturnal_discord.Prelude.OrdMap
use nocturnal_discord.Prelude.OrdMap.{OrdMap, text_key}
use nocturnal_discord.Event.{Event, Envelope}
use nocturnal_discord.Event
use nocturnal_discord.Store.Bytes.{Bytes}
use nocturnal_discord.Store.Codec.{Codec, IsStorable}
use nocturnal_discord.Store.Wal.{WalError, WalResult, ok, err, ◌>>=◌}
use nocturnal_discord.Store.Merging.{All-merged}
use nocturnal_discord.Store.Archive.{
  Row, Batch, read_batches, Parquet, EventsDir, row, rows, write_parquet, read_rows, read_parquet,
  existing, merged, write_back, write_partition,
}

-- The batches have a column `json` each, and these together are the one given.
abbrev pub Columns : List (Option Batch) → List Bytes → Type 0
Columns [] jsons = jsons ≡ []
Columns (none ∷ batches) jsons = ⊥
Columns (some batch ∷ batches) jsons =
    (here : List Bytes) × (later : List Bytes) × (batch.text_column "json" ≡ some here)
    × (jsons ≡ here ++ later)
    × Columns batches later

-- What is relied on of Parquet: the batches of a file that was written have the rows' column,
-- however it is cut.
abbrev pub Faithful : Parquet → Type 0
Faithful q =
    (rs : List Row) (file : Bytes)
    → q.write rs ≡ some file
    → (batches : List (Option Batch)) × (q.read file ≡ some batches)
      × Columns batches (map (λ (r : Row). r.json) rs)

module _ (c : Codec) (q : Parquet) where
  -- Each event of each partition that reads has the property.
  abbrev pub AllRead : (Envelope → Type 0) → EventsDir → Type 0
  AllRead P dir =
      (name : String) (file : Bytes) (back : List Envelope)
      → OrdMap.get dir name ≡ some file
      → read_parquet c q name file ≡ ok back
      → All P back

  pub AllRead-insert :
      (P : Envelope → Type 0) (dir : EventsDir) (name : String) (file : Bytes)
      (envs : List Envelope)
      → read_parquet c q name file ≡ ok envs
      → All P envs
      → AllRead P dir
      → AllRead P (OrdMap.insert dir name file)
  AllRead-insert P dir name file envs r h k name' file' back found r' =
      elim (Bool-cases (OrdMap.same name name')) [
        | inl same ↦
            let path = OrdMap.same→eq name name' same in
            let one : file ≡ file' =
              file_path file file'
                (sym (rw (OrdMap.get-insert dir name name' file, same) refl) ∙ found) in
            let two : ◌≡◌ {A = WalResult (List Envelope)} (ok envs) (ok back) =
              sym r
              ∙ ap (λ n. read_parquet c q n file) path
              ∙ ap (λ x. read_parquet c q name' x) one
              ∙ r' in
            subst (All P) (envs_path envs back two) h
        | inr differs ↦
            k name' file' back
              (sym (rw (OrdMap.get-insert dir name name' file, differs) refl) ∙ found) r'
      ]
    where
      file_path : (a b : Bytes) → ◌≡◌ {A = Option Bytes} (some a) (some b) → a ≡ b
      file_path a b e = cc

      envs_path : (a b : List Envelope) → ◌≡◌ {A = WalResult (List Envelope)} (ok a) (ok b) → a ≡ b
      envs_path a b e = cc

  -- What `existing` finds has the property.
  pub existing-All :
      (P : Envelope → Type 0) (dir : EventsDir) (name : String) (before : List Envelope)
      → AllRead P dir
      → existing c q dir name ≡ ok before
      → All P before
  unfolding existing
  existing-All P dir name before h e = go (OrdMap.get dir name) refl e
    where
      go :
          (o : Option Bytes)
          → OrdMap.get dir name ≡ o
          → elim o as (λ _. WalResult (List Envelope)) [
            | none ↦ ok []
            | some file ↦ read_parquet c q name file
          ]
            ≡ ok before
          → All P before
      go none found eq = let same : ◌≡◌ {A = List Envelope} [] before = cc in subst (All P) same tt
      go (some file) found eq = h name file before found eq

module _ (c : Codec) (q : Parquet) (f : Faithful q) where
  row_of : Envelope → Bytes → Row
  row_of env json = record {
    seq = env.seq;
    ts_ms = env.ts_ms;
    guild = env.guild;
    kind = Event.kind env.event;
    json = json;
  }

  rows-cons :
      (env : Envelope) (envs : List Envelope) (json : Bytes) (rs : List Row)
      → c.to_string env ≡ some json
      → rows c q envs ≡ ok rs
      → rows c q (env ∷ envs) ≡ ok (row_of env json ∷ rs)
  unfolding rows row row_of
  rows-cons env envs json rs e k = rw (e, rows, k) refl

  read_rows-cons :
      (name : String) (env : Envelope) (envs : List Envelope) (json : Bytes) (jsons : List Bytes)
      → c.from_str json ≡ some env
      → read_rows c q name jsons ≡ ok envs
      → read_rows c q name (json ∷ jsons) ≡ ok (env ∷ envs)
  unfolding read_rows
  read_rows-cons name env envs json jsons e k = rw (e, k, read_rows) refl

  -- The rows of storable envelopes, and these read from them.
  rows-IsStorable :
      (name : String) (envs : List Envelope)
      → All (IsStorable c) envs
      → (rs : List Row) × (rows c q envs ≡ ok rs)
        × (read_rows c q name (map (λ (x : Row). x.json) rs) ≡ ok envs)
  unfolding rows read_rows row_of
  rows-IsStorable name [] s = ([], refl, refl)
  rows-IsStorable name (env ∷ envs) s =
      let (rs, e, back) = rows-IsStorable name envs s.1 in
      (
        row_of env s.0.json ∷ rs,
        rows-cons env envs s.0.json rs s.0.printed e,
        read_rows-cons name env envs s.0.json (map (λ (x : Row). x.json) rs) s.0.parsed back,
      )

  read_rows-append :
      (name : String) (xs ys : List Bytes)
      → read_rows c q name (xs ++ ys)
        ≡ (read_rows c q name xs >>= λ a. read_rows c q name ys >>= λ b. ok (a ++ b))
  unfolding read_rows
  read_rows-append name [] ys = right (read_rows c q name ys)
    where
      right : (m : WalResult (List Envelope)) → m ≡ (m >>= λ b. ok b)
      right (ok a) = refl
      right (err x) = refl
  read_rows-append name (x ∷ xs) ys = ground (arith, read_rows-append name xs ys)

  -- The batches read as their columns together.
  read_batches-Columns :
      (name : String) (batches : List (Option Batch)) (jsons : List Bytes)
      → Columns batches jsons
      → read_batches c q name batches ≡ read_rows c q name jsons
  unfolding read_batches
  read_batches-Columns name [] jsons h = rw h (unfold read_rows in refl)
  read_batches-Columns name (none ∷ batches) jsons h = absurd h
  read_batches-Columns name (some batch ∷ batches) jsons (here, later, column, split, rest) =
      rw (column, read_batches-Columns name batches later rest, split)
        (sym (read_rows-append name here later))

  -- A partition of envelopes that can be stored reads back as these once it is written, over a
  -- Parquet library whose batches have the column that was written.
  pub read_parquet-write_parquet :
      (name : String) (envs : List Envelope) (file : Bytes)
      → All (IsStorable c) envs
      → write_parquet c q envs ≡ ok file
      → read_parquet c q name file ≡ ok envs
  unfolding write_parquet read_parquet
  read_parquet-write_parquet name envs file s e =
      let (rs, printed, back) = rows-IsStorable name envs s in
      let wrote : q.write rs ≡ some file = written rs (q.write rs) (rw printed at e) in
      let (batches, read, columns) = f rs file wrote in
      rw (read, read_parquet)
        (read_batches-Columns name batches (map (λ (x : Row). x.json) rs) columns ∙ back)
    where
      written :
          (rs : List Row) (o : Option Bytes)
          → elim o as (λ _. WalResult Bytes) [ none ↦ err WalError.not_written | some x ↦ ok x ]
            ≡ ok file
          → o ≡ some file
      written rs none eq = cc
      written rs (some x) eq = cc

  -- A partition either stays as it is, with an error, or is written over by what reads back.
  abbrev pub Outcome :
      EventsDir → String → List Envelope → EventsDir × WalResult (Unit {0}) → Type 0
  Outcome dir name envs result =
      ((x : WalError) × (result ≡ (dir, err x)))
      ⊎ ((file : Bytes) × (before : List Envelope) × (result ≡ (OrdMap.insert dir name file, ok tt))
          × (existing c q dir name ≡ ok before)
          × (read_parquet c q name file ≡ ok (merged envs before)))

  write_back-eq :
      (dir : EventsDir) (name : String) (envs : List Envelope) (file : Bytes)
      → write_parquet c q envs ≡ ok file
      → read_parquet c q name file ≡ ok envs
      → write_back c q dir name envs ≡ (OrdMap.insert dir name file, ok tt)
  unfolding write_back
  write_back-eq dir name envs file wrote back =
      rw (wrote, back, write_back, (==_iff (length envs) (length envs)).1 refl) refl

  write_back-err :
      (dir : EventsDir) (name : String) (envs : List Envelope) (x : WalError)
      → write_parquet c q envs ≡ err x
      → write_back c q dir name envs ≡ (dir, err x)
  unfolding write_back
  write_back-err dir name envs x wrote = rw (wrote, write_back) refl

  write_partition-eq :
      (dir : EventsDir) (name : String) (envs before : List Envelope)
      → existing c q dir name ≡ ok before
      → write_partition c q dir name envs ≡ write_back c q dir name (merged envs before)
  unfolding write_partition
  write_partition-eq dir name envs before e = rw (e, write_partition) refl

  write_partition-err :
      (dir : EventsDir) (name : String) (envs : List Envelope) (x : WalError)
      → existing c q dir name ≡ err x
      → write_partition c q dir name envs ≡ (dir, err x)
  unfolding write_partition
  write_partition-err dir name envs x e = rw (e, write_partition) refl

  pub write_partition-Outcome :
      (dir : EventsDir) (name : String) (envs : List Envelope)
      → All (IsStorable c) envs
      → AllRead c q (IsStorable c) dir
      → Outcome dir name envs (write_partition c q dir name envs)
  write_partition-Outcome dir name envs s d = found (existing c q dir name) refl
    where
      stored :
          (before : List Envelope)
          → existing c q dir name ≡ ok before
          → (o : WalResult Bytes) → write_parquet c q (merged envs before) ≡ o
          → Outcome dir name envs (write_partition c q dir name envs)
      stored before e (err x) wrote = inl (
        x,
        write_partition-eq dir name envs before e
            ∙ write_back-err dir name (merged envs before) x wrote,
      )
      stored before e (ok file) wrote =
          let all =
            All-merged (IsStorable c) envs before s
              (existing-All c q (IsStorable c) dir name before d e) in
          let back = read_parquet-write_parquet name (merged envs before) file all wrote in
          inr (
            file,
            before,
            write_partition-eq dir name envs before e
                ∙ write_back-eq dir name (merged envs before) file wrote back,
            e,
            back,
          )

      found :
          (o : WalResult (List Envelope))
          → existing c q dir name ≡ o
          → Outcome dir name envs (write_partition c q dir name envs)
      found (err x) e = inl (x, write_partition-err dir name envs x e)
      found (ok before) e = stored before e (write_parquet c q (merged envs before)) refl
