-- ===== src/Provision.antt =====
-- The renderer of crates/nocturnal-provision/src/lib.rs: `tokens.txt` and the per-member files of
-- the dashboard, derived from the telemetry grants of the ledger. The digest of a token is the
-- hash library's, an argument.
pub mod Tokens
pub mod Rewrite
pub mod Files
pub mod Names
pub mod Settled
pub mod Materialize
pub mod Projection
pub mod Append
pub mod Solid
pub mod Issue
use nocturnal_discord.Prelude.{
  ℕ, ◌+◌, Bool, true, false, not, ◌&&◌, ◌||◌, Option, none, some, List, [], ◌∷◌, ◌++◌, map, String,
  ◌==◌, leb, if◌then◌else◌,
}
use nocturnal_discord.Prelude.Lists.{keep}
use nocturnal_discord.Prelude.Text.{trim, is_empty, text_length, ends_with_char}
use nocturnal_discord.Prelude.Lines.{
  trimmed_lines, join_lines, starts_with_char, strip_char, after_space, first_word,
}
use nocturnal_discord.Prelude.Chain.{◌>>=◌}
use nocturnal_discord.Prelude.OrdMap
use nocturnal_discord.Prelude.OrdMap.{OrdMap, same, text_key}
use Prim.Native.Char.{Char, code}
use Prim.Native.String.{◌++◌ as ◌^^◌}

pub record Grant : Type 0 where
  pub token_fp : String
  pub role : String

unfoldable pub username_char : Char → Bool
username_char ch =
    let c = code ch in (leb 97 c && leb c 122) || (leb 48 c && leb c 57) || c == 46 || c == 95

unfoldable pub all_username_chars : String → Bool
unfolding username_char
all_username_chars String.[] = true
all_username_chars (String.◌∷◌ c s) = username_char c && all_username_chars s

unfoldable pub valid_username : String → Bool
unfolding all_username_chars text_length
valid_username name =
    let len = text_length name in (leb 2 len && leb len 32) && all_username_chars name

-- A name that is not empty.
unfoldable pub some_name : String → Option String
unfolding is_empty
some_name name = if is_empty name then none else some name

unfoldable pub line_username : String → Option String
unfolding some_name
line_username line = do
  comment ← after_space line
  name ← strip_char (trim comment) 35
  some_name (trim name)

-- The map of kept lines and the lines written so far, in the loop of `tokens_file`.
pub record Scan : Type 0 where
  pub kept : OrdMap String String
  pub out : List String

module _ (fingerprint : String → String) (managed : OrdMap String (Unit {0}))
    (grants : OrdMap String Grant) where
  -- `is_some_and(|g| g.token_fp == fingerprint(secret))`
  unfoldable pub vouched : String → String → Bool
  vouched user line = elim (OrdMap.get grants user) [
    | none ↦ false
    | some g ↦ same g.token_fp (fingerprint (first_word line))
  ]

  -- The rest of the loop's body, for a line that names a user.
  unfoldable pub scan_user : Scan → String → String → Scan
  unfolding OrdMap.contains_key vouched
  scan_user s line user =
      if not (OrdMap.contains_key managed user)
      then record s { out = s.out ++ line ∷ [] }
      else (if vouched user line then record s { kept = OrdMap.insert s.kept user line } else s)

  -- The body of the loop, on a trimmed line.
  unfoldable pub scan_line : Scan → String → Scan
  unfolding is_empty starts_with_char line_username scan_user
  scan_line s line =
      if is_empty line
      then s
      else (if starts_with_char line 35 then s else elim (line_username line) [
        | none ↦ record s { out = s.out ++ line ∷ [] }
        | some user ↦ scan_user s line user
      ])

  unfoldable pub scan : Scan → List String → Scan
  unfolding scan_line
  scan s [] = s
  scan s (line ∷ lines) = scan (scan_line s line) lines

  -- What is written, and the members whose secret is gone.
  unfoldable pub tokens_file : String → String × List String
  unfolding trimmed_lines scan join_lines OrdMap.contains_key
  tokens_file existing =
      let s = scan (record { kept = []; out = [] }) (trimmed_lines existing) in
      (
        join_lines (s.out ++ map (λ e. e.1) s.kept),
        keep (λ u. not (OrdMap.contains_key s.kept u)) (map (λ e. e.0) grants),
      )

-- The text that `append_token` writes.
unfoldable pub appended : String → String → String → String
unfolding is_empty ends_with_char
appended text user secret =
    let whole =
      (if not (is_empty text) && not (ends_with_char text 10) then text ^^ "\n" else text) in
    whole ^^ (secret ^^ (" # " ^^ (user ^^ "\n")))
