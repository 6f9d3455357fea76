-- ===== src/Store/Wal.antt =====
-- `Wal` of crates/nocturnal-store/src/wal.rs.
use nocturnal_discord.Prelude.{
  ℕ, ◌+◌, ◌%◌, ◌^◌, Bool, true, false, not, Option, String, none, some, List, [], ◌∷◌, ◌++◌, ◌==◌,
  ltb, leb, max, ◌&&◌, if◌then◌else◌,
}
use nocturnal_discord.Prelude.Lists.{length, take, is_nil}
use nocturnal_discord.Prelude.OrdMap
use nocturnal_discord.Prelude.OrdMap.{OrdMap, nat_key}
use nocturnal_discord.Event.{Envelope}
use nocturnal_discord.Store.Bytes.{Bytes, is_utf8, lines_of}
use nocturnal_discord.Store.Codec.{Codec, Reason, Decoded, record_of, refused, encode, decode}

-- The segments of a directory. A segment's name is the sequence number of its first record, padded
-- to twelve digits, so names are in the order of these numbers below 10 ^ 12.
abbrev pub Dir : Type 0
Dir = OrdMap ℕ Bytes

pub data WalError : Type 0 where
  invalid_data already_exists not_serializable not_written : WalError
  corrupt_partition : (name : String) → WalError
  corrupt : (segment line : ℕ) (reason : Reason) → WalError
  sequence_gap : (expected found : ℕ) → WalError

pub data WalResult {ℓ} (A : Type ℓ) : Type ℓ where
  ok : A → WalResult A
  err : WalError → WalResult A

infixl 5 ◌>>=◌
abbrev pub ◌>>=◌ {ℓ κ} : {A : Type ℓ} {B : Type κ} → WalResult A → (A → WalResult B) → WalResult B
ok a >>= f = f a
err e >>= f = err e

-- The open log: the other segments of the directory, and the active one with its contents.
pub record Wal : Type 0 where
  pub dir : Dir
  pub path : ℕ
  pub file : Bytes
  pub bytes : ℕ
  pub segment_max_bytes : ℕ
  pub next_seq : ℕ

-- What the directory holds.
abbrev pub on_disk : Wal → Dir
on_disk w = OrdMap.insert w.dir w.path w.file

abbrev pub refusal : Decoded → Reason
refusal (record_of env) = Reason.torn_record
refusal (refused reason) = reason

-- `read_segment` reads on, is cut at an offset, or fails.
module _ (c : Codec) (allow_torn_tail : Bool) (name : ℕ) where
  -- A record that is not a good one: the crash's, at the end of the last segment, or corruption.
  unfoldable pub bad_record :
      ℕ → ℕ → List Envelope → Bytes → Bool → Bool → Reason → WalResult (List Envelope × Option ℕ)
  bad_record offset line_no out line complete at_eof reason =
      if allow_torn_tail && at_eof && not (complete && is_nil line)
      then ok (out, some offset)
      else err (WalError.corrupt name line_no reason)

  -- The loop, over the lines that are left.
  unfoldable pub read_lines :
      ℕ → ℕ → List Envelope → List (Bytes × Bool) → WalResult (List Envelope × Option ℕ)
  unfolding bad_record
  read_lines offset line_no out [] = ok (out, none)
  read_lines offset line_no out ((line, true) ∷ lines) = elim (is_utf8 line) [
    | false ↦ err WalError.invalid_data
    | true ↦ elim (decode c line) [
      | record_of env ↦ read_lines (offset + length line + 1) (line_no + 1) (out ++ env ∷ []) lines
      | refused reason ↦ bad_record offset (line_no + 1) out line true (is_nil lines) reason
    ]
  ]
  read_lines offset line_no out ((line, false) ∷ lines) =
      if is_utf8 line
      then bad_record offset (line_no + 1) out line false (is_nil lines) (refusal (decode c line))
      else err WalError.invalid_data

  -- `read_segment`: the records, and the file, which is cut where a torn record begins.
  unfoldable pub read_segment : Bytes → WalResult (List Envelope × Bytes)
  unfolding read_lines lines_of
  read_segment file = do
    (out, cut) ← read_lines 0 0 [] (lines_of file)
    ok (out, elim cut [ none ↦ file | some offset ↦ take offset file ])

-- The check of the sequence: the number that comes next.
unfoldable pub check_chain : ℕ → List Envelope → WalResult ℕ
check_chain next [] = ok next
check_chain next (env ∷ envs) =
    if env.seq == next
    then check_chain ((next + 1) % 2 ^ 64) envs
    else err (WalError.sequence_gap next env.seq)

abbrev pub first_seq : List Envelope → ℕ
first_seq [] = 0
first_seq (env ∷ envs) = env.seq

-- The last segment, which is appended to; an empty one where there is none.
unfoldable pub active : Dir → Dir × ℕ × Bytes
active [] = ([], 0, [])
active ((name, file) ∷ []) = ([], name, file)
active (seg ∷ seg' ∷ dir) =
    let (others, name, file) = active (seg' ∷ dir) in (seg ∷ others, name, file)

module _ (c : Codec) where
  -- Every segment in the order of the names; a torn record is allowed in the last.
  unfoldable pub read_dir : Dir → WalResult (List Envelope × Dir)
  unfolding read_segment
  read_dir [] = ok ([], [])
  read_dir ((name, file) ∷ rest) = do
    (here, file') ← read_segment c (is_nil rest) name file
    (later, rest') ← read_dir rest
    ok (here ++ later, (name, file') ∷ rest')

  -- `Wal::open_with`
  unfoldable pub open_with : Dir → ℕ → WalResult (Wal × List Envelope)
  unfolding read_dir check_chain active
  open_with dir segment_max_bytes = do
    (envelopes, dir') ← read_dir dir
    next ← check_chain (first_seq envelopes) envelopes
    let (others, path, file) = active dir'
    ok (
      record {
        dir = others;
        path = path;
        file = file;
        bytes = length file;
        segment_max_bytes = segment_max_bytes;
        next_seq = next;
      },
      envelopes,
    )

  -- `Wal::read_sealed`
  unfoldable pub read_sealed : ℕ → Bytes → WalResult (List Envelope)
  unfolding read_segment
  read_sealed name file = do (out, _) ← read_segment c false name file; ok out

-- `Wal::rotate`: `create_new` refuses a name that is taken.
unfoldable pub rotate : Wal → ℕ → WalResult Wal
rotate w name =
    if OrdMap.contains_key (on_disk w) name
    then err WalError.already_exists
    else ok (record w { dir = on_disk w; path = name; file = []; bytes = 0 })

-- `Wal::seal`
unfoldable pub seal : Wal → WalResult Wal
unfolding rotate
seal w = if ltb 0 w.bytes then rotate w w.next_seq else ok w

-- `Wal::align_next_seq`
unfoldable pub align_next_seq : Wal → ℕ → Wal
align_next_seq w n = if w.bytes == 0 then record w { next_seq = max w.next_seq n } else w

unfoldable pub names : Dir → List ℕ
names [] = []
names ((name, file) ∷ dir) = name ∷ names dir

-- `Wal::sealed_segments`
unfoldable pub sealed_segments : Wal → List ℕ
unfolding names
sealed_segments w = names w.dir

-- `Wal::size_bytes`
unfoldable pub size_bytes : Dir → ℕ
size_bytes [] = 0
size_bytes ((name, file) ∷ dir) = length file + size_bytes dir

module _ (c : Codec) where
  abbrev pub written : Wal → Bytes → Wal
  written w line = record w {
    file = w.file ++ line;
    bytes = w.bytes + length line;
    next_seq = (w.next_seq + 1) % 2 ^ 64;
  }

  -- One record of a batch.
  unfoldable pub append_one : Wal → Envelope → Wal × WalResult (Unit {0})
  unfolding rotate
  append_one w env =
      if env.seq == w.next_seq
      then elim (if leb w.segment_max_bytes w.bytes then rotate w env.seq else ok w) [
        | err e ↦ (w, err e)
        | ok w' ↦ elim (encode c env) [
          | none ↦ (w', err WalError.not_serializable)
          | some line ↦ (written w' line, ok tt)
        ]
      ]
      else (w, err (WalError.sequence_gap w.next_seq env.seq))

  -- `Wal::append`: the log as it is left, also where a record of the batch is refused.
  unfoldable pub append : Wal → List Envelope → Wal × WalResult (Unit {0})
  unfolding append_one
  append w [] = (w, ok tt)
  append w (env ∷ envs) =
      let (w', done) = append_one w env in elim done [ err e ↦ (w', err e) | ok _ ↦ append w' envs ]
