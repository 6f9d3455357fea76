-- ===== src/Tests/Log.antt =====
-- The theorems on the log and the writer at concrete inputs, over a codec that stores one envelope.
use nocturnal_discord.Prelude.{◌^◌, ◌<◌, ◌≡◌, refl, true, false, some, [], ◌∷◌, ◌++◌, arith}
use nocturnal_discord.Prelude.Lists.{length}
use nocturnal_discord.Prelude.OrdMap
use nocturnal_discord.Prelude.OrdMap.{nat_key}
use nocturnal_discord.Event.{Event, Envelope}
use nocturnal_discord.Ledger.{Ledger, envelope, new, propose, commit}
use nocturnal_discord.Decide.Roster.{decide_issue_token}
use nocturnal_discord.Decide.Step.{decide_guild, guild_or_empty}
use nocturnal_discord.Store.Bytes.{
  Bytes, hex8, hex_digits, hex_char, is_utf8, utf8_from, next_byte, first_byte,
}
use nocturnal_discord.Store.Codec.{Codec, line_of, encode, decode, record_of, IsStorable}
use nocturnal_discord.Store.Records.{decode-line_of}
use nocturnal_discord.Store.Log.{IsLog, append-IsLog}
use nocturnal_discord.Store.Recovery.{
  reopened, open_with-on_disk, open_with-torn, open_with-cut_char,
}
use nocturnal_discord.Store.Wal
use nocturnal_discord.Store.Wal.{on_disk, rotate, append_one, append, open_with}
use nocturnal_discord.Driver.{Writer, accepted, execute, persist, boot, serving}
use nocturnal_discord.Driver.Durable.{
  Serving, served, booted, first_boot, IsDurable, Serving-IsDurable, boot-Serving, boot-crashed,
}
use nocturnal_discord.Driver.Live.{execute-Serving}
use nocturnal_discord.Tests.{plain, at_noon, issue, staged, propose-issue}

abbrev pub the_envelope : Envelope
the_envelope = envelope 0 at_noon (Event.telemetry_token_issued "ann" "fp" "officer")

-- `{}` stands for the envelope.
abbrev pub braces : Codec
braces = record {
  to_string = λ env. some (123 ∷ 125 ∷ []);
  from_str = λ bytes. some the_envelope;
  hash = λ bytes. length bytes;
}

pub the_envelope-IsStorable : IsStorable braces the_envelope
unfolding is_utf8 utf8_from next_byte first_byte
the_envelope-IsStorable = record {
  json = 123 ∷ 125 ∷ [];
  printed = refl;
  parsed = refl;
  text = refl;
  one_line = refl;
  in_u32 = omega arith;
}

decode-line_of_example :
    decode braces (line_of braces the_envelope-IsStorable.json) ≡ record_of the_envelope
decode-line_of_example = decode-line_of braces the_envelope the_envelope-IsStorable

empty-Serving : Serving plain braces (first_boot 4) []
empty-Serving = booted 4 (omega arith)

execute-Serving_example :
    (w : Writer) × (execute plain braces (first_boot 4) at_noon issue ≡ (w, accepted staged))
execute-Serving_example =
    execute-Serving plain braces (first_boot 4) [] staged at_noon issue empty-Serving propose-issue
      (the_envelope-IsStorable, tt) (omega arith)

-- The writer after that command.
abbrev pub after_command : Writer
after_command = (execute plain braces (first_boot 4) at_noon issue).0

execute-after_command :
    execute plain braces (first_boot 4) at_noon issue ≡ (after_command, accepted staged)
unfolding execute persist propose guild_or_empty decide_guild decide_issue_token append append_one
    rotate encode hex8 hex_digits hex_char commit OrdMap.contains_key OrdMap.get
execute-after_command = refl

append-after_command : append braces (first_boot 4).wal staged ≡ (after_command.wal, Wal.ok tt)
unfolding execute persist propose guild_or_empty decide_guild decide_issue_token append append_one
    rotate encode hex8 hex_digits hex_char commit OrdMap.contains_key OrdMap.get
append-after_command = refl

one-Serving : Serving plain braces after_command staged
one-Serving =
    served at_noon issue empty-Serving execute-after_command (the_envelope-IsStorable, tt)
      (omega arith)

Serving-IsDurable_example : IsDurable plain braces after_command staged
Serving-IsDurable_example = Serving-IsDurable plain braces after_command staged one-Serving

boot-Serving_example :
    boot plain braces (on_disk after_command.wal) after_command.wal.segment_max_bytes
    ≡ serving after_command
boot-Serving_example = boot-Serving plain braces after_command staged one-Serving

-- Two bytes of a record, and the first byte of a character of two.
abbrev torn : Bytes
torn = 48 ∷ 48 ∷ []

abbrev cut : Bytes
cut = 48 ∷ 195 ∷ []

torn-text : is_utf8 torn ≡ true
unfolding is_utf8 utf8_from next_byte first_byte
torn-text = refl

cut-text : is_utf8 cut ≡ false
unfolding is_utf8 utf8_from next_byte first_byte
cut-text = refl

boot-crashed_example :
    (l : Ledger) × (commit plain new staged ≡ some l)
    × (boot plain braces
          (on_disk (record after_command.wal { file = after_command.wal.file ++ torn }))
          after_command.wal.segment_max_bytes
        ≡ serving (record { wal = after_command.wal; ledger = l }))
boot-crashed_example =
    boot-crashed plain braces (first_boot 4) [] staged [] at_noon issue after_command.wal torn
      empty-Serving propose-issue (the_envelope-IsStorable, tt) (omega arith) append-after_command
      refl torn-text

pub one-IsLog : IsLog braces after_command.wal 0 staged
one-IsLog = (Serving-IsDurable plain braces after_command staged one-Serving).logged

append-IsLog_example :
    (w : Wal.Wal) × (append braces (first_boot 4).wal staged ≡ (w, Wal.ok tt))
    × IsLog braces w 0 ([] ++ staged)
append-IsLog_example =
    append-IsLog braces 0 (first_boot 4).wal [] staged
      (Serving-IsDurable plain braces (first_boot 4) [] empty-Serving).logged
      (the_envelope-IsStorable, tt) (refl, tt) (omega arith)

pub after_command-room : after_command.wal.next_seq < 2 ^ 64
unfolding execute persist propose guild_or_empty decide_guild decide_issue_token append append_one
    rotate encode hex8 hex_digits hex_char commit OrdMap.contains_key OrdMap.get
after_command-room = omega arith

open_with-on_disk_example :
    open_with braces (on_disk after_command.wal) after_command.wal.segment_max_bytes
    ≡ Wal.ok (reopened braces after_command.wal 0 staged one-IsLog, staged)
open_with-on_disk_example =
    open_with-on_disk braces after_command.wal 0 staged one-IsLog after_command-room

open_with-torn_example :
    open_with braces
      (on_disk (record after_command.wal { file = after_command.wal.file ++ torn }))
      after_command.wal.segment_max_bytes
    ≡ Wal.ok (reopened braces after_command.wal 0 staged one-IsLog, staged)
open_with-torn_example =
    open_with-torn braces after_command.wal 0 staged one-IsLog torn refl torn-text
      after_command-room

open_with-cut_char_example :
    open_with braces
      (on_disk (record after_command.wal { file = after_command.wal.file ++ cut }))
      after_command.wal.segment_max_bytes
    ≡ Wal.err Wal.WalError.invalid_data
open_with-cut_char_example =
    open_with-cut_char braces after_command.wal 0 staged one-IsLog cut refl (omega arith) cut-text
