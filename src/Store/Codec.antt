-- ===== src/Store/Codec.antt =====
-- One record of the log: `encode` and `decode` of crates/nocturnal-store/src/wal.rs.
use nocturnal_discord.Prelude.{
  ℕ, ◌^◌, ◌<◌, ◌≡◌, true, false, Option, none, some, [], ◌∷◌, ◌++◌, ◌==◌, if◌then◌else◌,
}
use nocturnal_discord.Event.{Envelope}
use nocturnal_discord.Store.Bytes.{
  Bytes, newline, space, hex8, from_str_radix, split_once, is_utf8, has_newline,
}

-- serde_json on envelopes, and crc32fast.
pub record Codec : Type 0 where
  pub to_string : Envelope → Option Bytes
  pub from_str : Bytes → Option Envelope
  pub hash : Bytes → ℕ

-- Why a record is refused; the source spells these out.
pub data Reason : Type 0 where
  missing_crc bad_crc : Reason
  crc_mismatch : (stored computed : ℕ) → Reason
  bad_json torn_record : Reason

pub data Decoded : Type 0 where
  record_of : Envelope → Decoded
  refused : Reason → Decoded

module _ (c : Codec) where
  -- The line of a record, without its newline.
  abbrev pub line_of : Bytes → Bytes
  line_of json = hex8 (c.hash json) ++ space ∷ json

  -- `encode`
  unfoldable pub encode : Envelope → Option Bytes
  encode env = elim (c.to_string env) [
    | none ↦ none
    | some json ↦ some (line_of json ++ newline ∷ [])
  ]

  unfoldable pub check_json : ℕ → Bytes → Decoded
  check_json expected json =
      if expected == c.hash json
      then elim (c.from_str json) [ none ↦ refused Reason.bad_json | some env ↦ record_of env ]
      else refused (Reason.crc_mismatch expected (c.hash json))

  -- `decode`
  unfoldable pub decode : Bytes → Decoded
  unfolding check_json split_once from_str_radix
  decode line = elim (split_once line) [
    | none ↦ refused Reason.missing_crc
    | some (crc_hex, json) ↦ elim (from_str_radix crc_hex) [
      | none ↦ refused Reason.bad_crc
      | some expected ↦ check_json expected json
    ]
  ]

  -- What the two libraries do with an envelope: its JSON is one line of text that reads back as the
  -- envelope, and its checksum is a `u32`.
  pub record IsStorable (env : Envelope) : Type 0 where
    pub json : Bytes
    pub printed : c.to_string env ≡ some json
    pub parsed : c.from_str json ≡ some env
    pub text : is_utf8 json ≡ true
    pub one_line : has_newline json ≡ false
    pub in_u32 : c.hash json < 2 ^ 32
