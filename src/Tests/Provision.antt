-- ===== src/Tests/Provision.antt =====
-- The theorems on the tokens file and the members' files at concrete inputs, over a digest that
-- adds a mark.
use nocturnal_discord.Prelude.{◌≡◌, refl, true, false, not, some, List, [], ◌∷◌, map, String, none}
use nocturnal_discord.Prelude.Lists.{All, keep, any}
use nocturnal_discord.Prelude.Text.{any_char, is_whitespace, is_empty, trim}
use nocturnal_discord.Prelude.Lines.{
  trimmed_lines, starts_with_char, after_space, strip_char, first_word,
}
use nocturnal_discord.Prelude.OrdMap
use nocturnal_discord.Prelude.OrdMap.{OrdMap, same, text_key, nat_key}
use nocturnal_discord.Event.{Event, Envelope}
use nocturnal_discord.Command.{Command}
use nocturnal_discord.Ledger.{Ledger, execute, envelope, new, replay}
use nocturnal_discord.Reject.{ok}
use nocturnal_discord.State.{guild}
use nocturnal_discord.Decide.Step.{decide_guild, guild_or_empty}
use nocturnal_discord.Apply.Roster.{telemetry_token_issued}
use nocturnal_discord.Decide.Roster.{decide_revoke_token}
use nocturnal_discord.Provision.{Grant, tokens_file, appended, valid_username}
use nocturnal_discord.Provision.Tokens.{is_foreign, entries}
use nocturnal_discord.Provision.Rewrite.{
  IsKept, tokens_file-foreign, tokens_file-missing, tokens_file-All,
}
use nocturnal_discord.Provision.Files.{Disk, user_files}
use nocturnal_discord.Provision.Settled.{Reads}
use nocturnal_discord.Provision.Materialize.{Cleared, Gone}
use nocturnal_discord.Provision.Projection.{
  projection, rematerialize, rematerialize-rematerialize, rematerialize-Reads, revoke_token-Gone,
}
use nocturnal_discord.Provision.Issue.{issue-kept}
use nocturnal_discord.Tests.{plain, at_noon, staged, after_issue, issue-Reached}
use Prim.Native.String.{◌++◌ as ◌^^◌}

abbrev digest : String → String
digest s = "h" ^^ s

abbrev managed : OrdMap String (Unit {0})
managed = ("ann", tt) ∷ ("bob", tt) ∷ []

abbrev grant : Grant
grant = record { token_fp = "haaa"; role = "viewer" }

abbrev grants : OrdMap String Grant
grants = ("ann", grant) ∷ []

abbrev text : String
text = "aaa # ann\n\nbbb # nocturnal-bot\n# a note\nccc # bob\n"

abbrev disk : Disk
disk = record { tokens = some (record { contents = text; version = 0 }); perses_dir = [] }

tokens_file_test : (tokens_file digest managed grants text).0 ≡ "bbb # nocturnal-bot\naaa # ann\n"
unfolding tokens_file after_space strip_char first_word trim OrdMap.get OrdMap.contains_key
    OrdMap.insert same
tokens_file_test = refl

tokens_file-foreign_example :
    keep
      (is_foreign digest managed grants)
      (trimmed_lines (tokens_file digest managed grants text).0)
    ≡ keep (is_foreign digest managed grants) (trimmed_lines text)
tokens_file-foreign_example = tokens_file-foreign digest managed grants text

tokens_file-All_example :
    All (IsKept digest managed grants) (trimmed_lines (tokens_file digest managed grants text).0)
tokens_file-All_example = tokens_file-All digest managed grants text

tokens_file-missing_example :
    (tokens_file digest managed grants text).1
    ≡ keep
        (λ u. not (any (λ e. same e.0 u) (entries digest managed grants (trimmed_lines text))))
        (map (λ e. e.0) grants)
tokens_file-missing_example = tokens_file-missing digest managed grants text

issue-kept_example :
    any
      (λ line. same line "aaa # ann")
      (trimmed_lines
        (tokens_file digest managed grants (appended "bbb # nocturnal-bot" "ann" "aaa")).0)
    ≡ true
issue-kept_example =
    issue-kept digest managed grants "bbb # nocturnal-bot" "aaa" "ann" grant
      (unfold OrdMap.contains_key in unfold OrdMap.get in unfold same in refl)
      (unfold OrdMap.get in unfold same in refl) refl
      (unfold any_char in unfold is_whitespace in refl) (unfold is_empty in refl)
      (unfold starts_with_char in refl) (unfold valid_username in refl)

rematerialize-rematerialize_example :
    rematerialize digest after_issue 1 (rematerialize digest after_issue 1 disk).0 ≡ (
      (rematerialize digest after_issue 1 disk).0,
      record {
        tokens_rewritten = false;
        files_written = 0;
        files_removed = 0;
        grants_without_secret = (rematerialize digest after_issue 1 disk).1.grants_without_secret;
      },
    )
rematerialize-rematerialize_example =
    rematerialize-rematerialize plain digest after_issue staged 1 disk issue-Reached

rematerialize-Reads_example :
    All
      (λ e.
        All
          (Reads (rematerialize digest after_issue 1 disk).0.perses_dir)
          (user_files e.0 e.1.role))
      (projection after_issue 1).1
    × Cleared
        (projection after_issue 1).1
        (rematerialize digest after_issue 1 disk).0.perses_dir
        (projection after_issue 1).0
rematerialize-Reads_example =
    rematerialize-Reads plain digest after_issue staged 1 disk issue-Reached

abbrev revoked : List Envelope
revoked = envelope 1 at_noon (Event.telemetry_token_revoked "ann") ∷ []

abbrev after_revoke : Ledger
after_revoke =
    elim (replay plain after_issue (envelope 1 at_noon (Event.telemetry_token_revoked "ann"))) [
      | none ↦ new
      | some l ↦ l
    ]

execute-revoke :
    execute plain after_issue at_noon (Command.revoke_token "ann") ≡ ok (after_revoke, revoked)
unfolding execute guild_or_empty guild decide_guild decide_revoke_token OrdMap.contains_key
    OrdMap.get OrdMap.upsert OrdMap.insert OrdMap.get_or same telemetry_token_issued
execute-revoke = refl

revoke_token-Gone_example : Gone "ann" (rematerialize digest after_revoke 1 disk).0
revoke_token-Gone_example =
    revoke_token-Gone plain digest after_issue after_revoke staged revoked at_noon "ann" disk
      issue-Reached execute-revoke
