-- ===== src/Lib.antt =====
-- The core of nocturnal-discord: the ledger of a guild's DKP, raids, auctions, roster and access.
--
-- The program is an event-sourced bot with a single writer. A command is decided against the state
-- (crates/nocturnal-core/src/decide.rs), which accepts it with a list of events or rejects it; the
-- events, in envelopes with a sequence number, are persisted and then folded into the state
-- (crates/nocturnal-core/src/apply.rs). At boot the log is replayed through the same fold. The
-- other crates feed commands to this core and show its state.
--
-- The writer thread (crates/nocturnal/src/driver.rs) owns the ledger and the log. It appends the
-- envelopes of a command to the log (crates/nocturnal-store/src/wal.rs) before it applies them, and
-- boots by reading the log, of which it cuts a record that a crash has left half written.
--
-- The files, and the code that each is about (paths under crates/nocturnal-core/src, unless they
-- begin with crates):
--   Event, Event/Names      event.rs: events, envelopes, the display form of a character's name
--   Command                 command.rs: commands and their context
--   Reject                  reject.rs: rejections with their slugs, and the result of a decision
--   State, State/*          state.rs: guild state, configuration (Config), attendance
--                           (Attendance), raid nights (Nights)
--   Auction/*               auction.rs: the generator (Rng), rolls (Rolls), bids (Bids);
--                           rolls in order and at the cut (Field), the roll-off as a whole (Drawn),
--                           who can win with a bid (Chosen)
--   Apply/*                 apply.rs: one function per event, named for it, composed in Step
--   Decide/*                decide.rs: decide_<command> for each command (Winners: the finalization
--                           of an auction; Chosen: what they can pay), composed in Step
--   Ledger                  lib.rs: propose, commit, execute, replay
--   Ledger/Recovery         replay of the log of accepted commands
--   Ledger/Sound            what each decision keeps holds of every ledger that commands lead to
--   Contract/*              what holds of the state where an event is applied (Guard; of a
--                           configuration in Settings), for each command (Raids, Auctions, Roster)
--                           and for any (Whole)
--   Invariant/*             auction statuses (Status), the active raid (Raids), access (Access),
--                           bids and rolls of one player (Once, Entries), what a bid does (Placed),
--                           configurations (Configured), over the life of a ledger (Reached)
--   Money/*                 balances against logs (Sums, Booked), what one command moves (Debit)
--   Who, Who/Listed         who.rs: the names and the time of a pasted /who; the names that
--                           lines of the game give (Listed)
--   Calendar, Calendar/*    dates: who.rs, crates/nocturnal-store/src/compact.rs,
--                           crates/nocturnal/src/raid_names.rs
--   Store/*                 crates/nocturnal-store/src/wal.rs: text (Bytes), a record (Codec), the
--                           log (Wal); a record read back (Records), the lines of a segment
--                           (Lines), appending (Log), opening (Recovery);
--                           crates/nocturnal-store/src/compact.rs: partitions, opening and
--                           compaction (Archive), over both (Joined), merging (Merging), writing
--                           a partition (Partitions), months (Groups), what is kept (Kept), a
--                           compaction as a whole (Compaction)
--   Driver, Driver/*        crates/nocturnal/src/driver.rs: execute and boot; one command (Batch),
--                           the lives of a writer (Durable), commands carried out (Live)
--   Scheduler, Scheduler/*  crates/nocturnal/src/scheduler.rs: the timers of auctions, one auction
--                           that is due (Drawn), a cycle as a whole (Cycle)
--   Provision, Provision/*  crates/nocturnal-provision/src/lib.rs: tokens_file (Provision; the loop
--                           as two passes in Tokens, a rewrite in Rewrite), append_token (Append,
--                           Solid, Issue), materialize (Files; names in Names, files in Settled, a
--                           run in Materialize); rematerialize of crates/nocturnal/src/provision.rs
--                           (Projection)
--   Migrate, Migrate/*      crates/nocturnal-migrate/src/lib.rs: genesis_commands (Migrate), its
--                           run (Genesis), the balances (Balances), the whole (Matched)
--   RaidNames, RaidNames/*  crates/nocturnal/src/raid_names.rs: bosses, the name and the kill list of
--                           a raid; what the list holds (Kills), against the
--                           deaths that are reported (Reported)
--   LootFit, LootFit/*      crates/nocturnal/src/loot_fit.rs: the masks and their lines (LootFit),
--                           what an item would replace and the split of characters (Gear)
--   Prelude/*               integers, maps, lists and text that the parts share
--   Tests, Tests/*          the theorems at concrete inputs
--
-- How the code is read. Mutation of the state is state passing. A `Result` is ok, err with the
-- rejection, or panic, the last for an index or a sequence number that does not fit. A `BTreeMap`
-- or `BTreeSet` is a list of entries in the order of the keys, compared as integers or as text. An
-- i64 is an integer that each sum, difference and negation reduces to 64 bits, as release builds
-- do; u64 and u32 arithmetic is reduced in the same way, and the generator is splitmix64 to the
-- bit. Machine integers that are only stored or compared are unbounded here. Library code
-- outside the repository is the record Platform, a parameter of whatever uses it: Unicode case,
-- f64 arithmetic and ordering, and the JSON reader.
--
-- The log's directory is a list of segments in the order of their names, the sequence numbers of
-- their first records, which are in the order of the padded names below 10 ^ 12. File operations
-- succeed, but for the creation of a segment that exists; a crash leaves part of a record behind.
-- The JSON of an envelope and the checksum are the record Codec, a parameter, of which the theorems
-- ask that the JSON is one line of text and reads back (IsStorable). The Parquet library is the
-- record Parquet, of which they ask that the batches of a file that was written have its column,
-- however it is cut (Faithful).
--
-- The files that the renderer derives are a tokens file and a directory, each file a text and a
-- count of the renames into place; reads and writes succeed. The digest of a token is an argument.
-- The documents of the migration are read by the JSON library, of which the records begin.
--
-- Loops are structural. The roll-off loop of auction.rs, which the source bounds by sixteen rounds,
-- recurses on the rounds that are left and ends in the draw at none, as the source does, so it
-- never runs out before the code would. The loop of top_bids takes one bid a pass and stops at the
-- number of slots, which is the recursion's argument.
--
-- Not modelled: the sentences of a rejection, serialization attributes, the archive
-- off-site, compaction as a request to the writer, metrics, the rest of the scheduler, the
-- export and the JSON reader of the migration, failures and permissions of the renderer's files,
-- the texts and Discord commands around them, and the crates for telemetry and the rest of the
-- bot, which are input and output around this core.
pub mod Prelude
pub mod Event
pub mod Command
pub mod Reject
pub mod Platform
pub mod Provision
pub mod Migrate
pub mod RaidNames
pub mod LootFit
pub mod State
pub mod Apply
pub mod Auction
pub mod Decide
pub mod Ledger
pub mod Calendar
pub mod Who
pub mod Store
pub mod Driver
pub mod Scheduler
pub mod Contract
pub mod Invariant
pub mod Money
pub mod Tests
