-- ===== src/Tests/Archive.antt =====
-- The theorems on the partitions at concrete inputs, over files of one row.
use nocturnal_discord.Prelude.{◌≡◌, refl, Option, none, some, List, [], ◌∷◌, ◌++◌}
use nocturnal_discord.Prelude.Lists.{sort_by, insert_by}
use nocturnal_discord.Store.Bytes.{Bytes, newline}
use nocturnal_discord.Store.Codec.{line_of}
use nocturnal_discord.Store.Log.{Held}
use nocturnal_discord.Store.Wal
use nocturnal_discord.Store.Wal.{on_disk}
use nocturnal_discord.Store.Archive.{
  Row, Parquet, Store, EventsDir, read_all_parquet, read_parquet, read_rows, read_batches,
  write_parquet, rows, row, sort_by_seq, open_store, compact,
}
use nocturnal_discord.Store.Joined.{open_store-joined}
use nocturnal_discord.Store.Partitions.{Faithful, AllRead, read_parquet-write_parquet}
use nocturnal_discord.Store.Compaction.{Compacted, compact-Compacted}
use nocturnal_discord.Store.Kept.{Known}
use nocturnal_discord.Prelude.OrdMap
use nocturnal_discord.Prelude.OrdMap.{text_key}
use nocturnal_discord.Driver.Durable.{first_boot}
use nocturnal_discord.Tests.{staged}
use nocturnal_discord.Tests.Log.{
  braces, the_envelope, the_envelope-IsStorable, after_command, after_command-room, one-IsLog,
}

abbrev write_one : List Row → Option Bytes
write_one (r ∷ []) = some r.json
write_one _ = none

abbrev single : Parquet
single = record {
  write = write_one;
  read = λ file. some (some (record { text_column = λ name. some (file ∷ []) }) ∷ []);
}

single-Faithful : Faithful single
single-Faithful [] file e = cc
single-Faithful (r ∷ []) file e = (
  some (record { text_column = λ name. some (file ∷ []) }) ∷ [],
  refl,
  (file ∷ [], [], refl, cc, refl),
)
single-Faithful (r ∷ r' ∷ rs) file e = cc

-- An archive of the one event, which the log still holds.
abbrev archive : EventsDir
archive = ("1970-01.parquet", 123 ∷ 125 ∷ []) ∷ []

archive-read : read_all_parquet braces single archive ≡ Wal.ok staged
unfolding read_all_parquet read_parquet read_batches read_rows
archive-read = refl

archive-sorted : sort_by_seq staged ≡ [] ++ staged
unfolding sort_by insert_by
archive-sorted = refl

open_store-joined_example :
    open_store braces single archive (on_disk after_command.wal) after_command.wal.segment_max_bytes
    ≡ Wal.ok (record { wal = after_command.wal; events_dir = archive }, ([] ++ staged) ++ [])
open_store-joined_example =
    open_store-joined braces single after_command.wal [] staged [] staged archive one-IsLog
      after_command-room archive-read archive-sorted (refl, tt)

write-one : write_parquet braces single staged ≡ Wal.ok (123 ∷ 125 ∷ [])
unfolding write_parquet rows row
write-one = refl

read_parquet-write_parquet_example :
    read_parquet braces single "1970-01.parquet" (123 ∷ 125 ∷ []) ≡ Wal.ok staged
read_parquet-write_parquet_example =
    read_parquet-write_parquet braces single single-Faithful "1970-01.parquet" staged
      (123 ∷ 125 ∷ []) (the_envelope-IsStorable, tt) write-one

-- One sealed segment with one record.
abbrev sealed_store : Store
sealed_store = record {
  wal = record (first_boot 4).wal {
    dir = (0, line_of braces the_envelope-IsStorable.json ++ newline ∷ []) ∷ [];
    path = 1;
    next_seq = 1;
  };
  events_dir = [];
}

sealed-Held : Held braces sealed_store.wal.dir staged
sealed-Held = (staged, [], refl, (the_envelope-IsStorable, [], refl, refl), refl)

nothing-read : AllRead braces single (Known braces (λ n. the_envelope)) []
unfolding OrdMap.get
nothing-read name file back found r = cc

compact-Compacted_example :
    Compacted braces single sealed_store staged [] (compact braces single sealed_store)
compact-Compacted_example =
    compact-Compacted braces single single-Faithful (λ n. the_envelope) sealed_store staged []
      sealed-Held (refl, tt) nothing-read tt
