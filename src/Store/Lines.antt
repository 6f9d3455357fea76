-- ===== src/Store/Lines.antt =====
-- A segment that holds records reads as these: `read_segment` of crates/nocturnal-store/src/wal.rs.
use nocturnal_discord.Prelude.{
  ℕ, ◌+◌, ◌<◌, ◌≡◌, refl, sym, ap, ◌∙◌, Bool, true, false, Option, none, List, [], ◌∷◌, ◌++◌,
  if◌then◌else◌, arith,
}
use nocturnal_discord.Prelude.Lists.{length, take, length-append}
use nocturnal_discord.Event.{Envelope}
use nocturnal_discord.Store.Bytes.{Bytes, newline, is_utf8, lines_of, push, has_newline}
use nocturnal_discord.Store.Codec.{Codec, line_of, decode, IsStorable}
use nocturnal_discord.Store.Records.{decode-line_of, line_of_text, line_of_one_line}
use nocturnal_discord.Store.Wal.{
  WalResult, WalError, ok, err, read_lines, bad_record, read_segment, refusal,
}
use mathlib.Core.List.{append_assoc, append-nil}

-- The bytes are the records of these envelopes, one line each.
abbrev pub Holding : Codec → List Envelope → Bytes → Type 0
Holding c [] bytes = bytes ≡ []
Holding c (env ∷ envs) bytes =
    (v : IsStorable c env) × (rest : Bytes) × (bytes ≡ line_of c v.json ++ newline ∷ rest)
    × Holding c envs rest

lines_of-line :
    (line rest : Bytes)
    → has_newline line ≡ false
    → lines_of (line ++ newline ∷ rest) ≡ (line, true) ∷ lines_of rest
unfolding lines_of push
lines_of-line [] rest h = refl
lines_of-line (b ∷ line) rest h = ground (arith, lines_of-line line rest)

pub lines_of-torn :
    (line : Bytes) → has_newline line ≡ false → 0 < length line → lines_of line ≡ (line, false) ∷ []
unfolding lines_of push
lines_of-torn [] h k = ground arith
lines_of-torn (b ∷ []) h k = ground arith
lines_of-torn (b ∷ b' ∷ line) h k = ground (arith, lines_of-torn (b' ∷ line))

module _ (c : Codec) (allow_torn_tail : Bool) (name : ℕ) where
  abbrev read : ℕ → ℕ → List Envelope → List (Bytes × Bool) → WalResult (List Envelope × Option ℕ)
  read = read_lines c allow_torn_tail name

  read_lines-record :
      (offset line_no : ℕ) (out : List Envelope) (env : Envelope) (v : IsStorable c env)
      (lines : List (Bytes × Bool))
      → read offset line_no out ((line_of c v.json, true) ∷ lines)
        ≡ read (offset + length (line_of c v.json) + 1) (line_no + 1) (out ++ env ∷ []) lines
  unfolding read_lines
  read_lines-record offset line_no out env v lines =
      rw (line_of_text c env v, decode-line_of c env v, read_lines) refl

  same_read :
      (offset offset' line_no line_no' : ℕ) (out out' : List Envelope) (lines : List (Bytes × Bool))
      → offset ≡ offset'
      → line_no ≡ line_no'
      → out ≡ out'
      → read offset line_no out lines ≡ read offset' line_no' out' lines
  same_read offset offset' line_no line_no' out out' lines e f g = cc

  -- Good records are read one after the other, whatever follows them.
  pub read_lines-Holding :
      (envs : List Envelope) (bytes tail : Bytes) (offset line_no : ℕ) (out : List Envelope)
      → Holding c envs bytes
      → read offset line_no out (lines_of (bytes ++ tail))
        ≡ read (offset + length bytes) (line_no + length envs) (out ++ envs) (lines_of tail)
  read_lines-Holding [] bytes tail offset line_no out h =
      rw h
        (same_read _ _ _ _ _ _ (lines_of tail) (omega arith) (omega arith) (sym (append-nil out)))
  read_lines-Holding (env ∷ envs) bytes tail offset line_no out (v, rest, e, h) =
      let line = line_of c v.json in
      rw
        (
          e,
          append_assoc line (newline ∷ rest) tail,
          lines_of-line line (rest ++ tail) (line_of_one_line c env v),
          read_lines-record offset line_no out env v (lines_of (rest ++ tail)),
        )
        (read_lines-Holding envs rest tail (offset + length line + 1) (line_no + 1)
            (out ++ env ∷ []) h
          ∙ same_read _ _ _ _ _ _ (lines_of tail)
              (omega (arith, length-append line (newline ∷ rest))) (omega arith)
              (append_assoc out (env ∷ []) envs))

take-length {ℓ} : {A : Type ℓ} (xs ys : List A) → take (length xs) (xs ++ ys) ≡ xs
take-length [] ys = refl
take-length (x ∷ xs) ys = rw (take-length xs ys) refl

module _ (c : Codec) (name : ℕ) (envs : List Envelope) (bytes : Bytes)
    (h : Holding c envs bytes) where
  reads :
      (allow_torn_tail : Bool) (tail : Bytes)
      → read_lines c allow_torn_tail name 0 0 [] (lines_of (bytes ++ tail))
        ≡ read_lines c allow_torn_tail name (length bytes) (length envs) envs (lines_of tail)
  reads allow tail =
      read_lines-Holding c allow name envs bytes tail 0 0 [] h
      ∙ same_read c allow name _ _ _ _ _ _ (lines_of tail) (omega arith) (omega arith) refl

  reads_all :
      (allow_torn_tail : Bool)
      → read_lines c allow_torn_tail name 0 0 [] (lines_of bytes) ≡ ok (envs, none)
  unfolding read_lines lines_of
  reads_all allow =
      ap (λ b. read_lines c allow name 0 0 [] (lines_of b)) (sym (append-nil bytes))
      ∙ reads allow []

  -- A segment of good records is read whole and left as it is.
  pub read_segment-Holding :
      (allow_torn_tail : Bool) → read_segment c allow_torn_tail name bytes ≡ ok (envs, bytes)
  unfolding read_segment
  read_segment-Holding allow = rw (reads_all allow)

  module _ (torn : Bytes) (one_line : has_newline torn ≡ false) (begun : 0 < length torn) where
    reads_torn :
        (allow_torn_tail : Bool)
        → read_lines c allow_torn_tail name 0 0 [] (lines_of (bytes ++ torn)) ≡ (
            if is_utf8 torn
            then bad_record c allow_torn_tail name
                (length bytes)
                (length envs + 1)
                envs
                torn
                false
                true
                (refusal (decode c torn))
            else err WalError.invalid_data)
    unfolding read_lines
    reads_torn allow =
        reads allow torn
        ∙ ap (read_lines c allow name (length bytes) (length envs) envs)
            (lines_of-torn torn one_line begun)

    -- A torn record at the end of the last segment is cut off.
    pub read_segment-torn :
        is_utf8 torn ≡ true → read_segment c true name (bytes ++ torn) ≡ ok (envs, bytes)
    unfolding read_segment bad_record
    read_segment-torn text = rw (reads_torn true, text, take-length bytes torn)

    -- In a sealed segment it is corruption, at its line.
    pub read_segment-corrupt :
        is_utf8 torn ≡ true
        → read_segment c false name (bytes ++ torn)
          ≡ err (WalError.corrupt name (length envs + 1) (refusal (decode c torn)))
    unfolding read_segment bad_record
    read_segment-corrupt text = rw (reads_torn false, text)

    -- A record torn inside a character fails the read, in the last segment too.
    pub read_segment-cut_char :
        (allow_torn_tail : Bool)
        → is_utf8 torn ≡ false
        → read_segment c allow_torn_tail name (bytes ++ torn) ≡ err WalError.invalid_data
    unfolding read_segment
    read_segment-cut_char allow text = rw (reads_torn allow, text)
