-- ===== src/Store/Recovery.antt =====
-- What opening the log gives back, after a clean stop and after a crash: `open_with` of
-- crates/nocturnal-store/src/wal.rs.
use nocturnal_discord.Prelude.{
  ℕ, ◌+◌, ◌%◌, ◌^◌, ◌<◌, ◌≡◌, refl, sym, ap, ◌∙◌, subst⁻¹, true, false, List, [], ◌∷◌, ◌++◌,
  if◌then◌else◌, arith, ==_iff,
}
use nocturnal_discord.Prelude.Lists.{length, is_nil}
use nocturnal_discord.Prelude.OrdMap.{nat_key}
use nocturnal_discord.Event.{Envelope}
use nocturnal_discord.Store.Bytes.{Bytes, is_utf8, has_newline}
use nocturnal_discord.Store.Codec.{Codec}
use nocturnal_discord.Store.Lines.{read_segment-Holding, read_segment-torn, read_segment-cut_char}
use nocturnal_discord.Store.Log.{Held, Run, IsLog, insert-Below}
use mathlib.Core.List.{append_assoc, append-nil}
use nocturnal_discord.Store.Wal.{
  Dir, Wal, WalError, ok, err, on_disk, read_segment, read_dir, check_chain, first_seq, active,
  open_with,
}

active-append :
    (dir : Dir) (name : ℕ) (file : Bytes) → active (dir ++ (name, file) ∷ []) ≡ (dir, name, file)
unfolding active
active-append [] name file = refl
active-append (s ∷ []) name file = refl
active-append (s ∷ s' ∷ dir) name file = rw (active-append (s' ∷ dir) name file)

check_chain-Run :
    (envs : List Envelope) (n : ℕ)
    → Run n envs
    → n + length envs < 2 ^ 64
    → check_chain n envs ≡ ok (n + length envs)
unfolding check_chain
check_chain-Run [] n r h = ap ok (omega arith)
check_chain-Run (env ∷ envs) n r h =
    let step : (n + 1) % 2 ^ 64 ≡ n + 1 = omega arith in
    rw ((==_iff env.seq n).1 r.0, step)
      (check_chain-Run envs (n + 1) r.1 (omega arith) ∙ ap ok (omega arith))

check_chain-first :
    (envs : List Envelope) (n : ℕ)
    → Run n envs
    → n + length envs < 2 ^ 64
    → check_chain (first_seq envs) envs ≡ ok (if is_nil envs then 0 else n + length envs)
unfolding check_chain
check_chain-first [] n r h = refl
check_chain-first (env ∷ envs) n r h =
    subst⁻¹ (λ m. check_chain m (env ∷ envs) ≡ ok (n + length (env ∷ envs))) r.0
      (check_chain-Run (env ∷ envs) n r h)

module _ (c : Codec) (name : ℕ) where
  -- The sealed segments hold good records; the last is read to some result.
  read_dir-append :
      (dir : Dir) (file file' : Bytes) (envs here : List Envelope)
      → Held c dir envs
      → read_segment c true name file ≡ ok (here, file')
      → read_dir c (dir ++ (name, file) ∷ []) ≡ ok (envs ++ here, dir ++ (name, file') ∷ [])
  unfolding read_dir
  read_dir-append [] file file' envs here h e = rw (e, h, append-nil here)
  read_dir-append ((name', sealed) ∷ dir) file file' envs here (first, later, split, g, h) e =
      rw
        (
          read_segment-Holding c name' first sealed g (is_nil (dir ++ (name, file) ∷ [])),
          read_dir-append dir file file' later here h e,
          split,
        )
        (ap (λ es. ok (es, (name', sealed) ∷ (dir ++ (name, file') ∷ [])))
          (sym (append_assoc first later here)))

  -- The last is not read.
  read_dir-fails :
      (dir : Dir) (file : Bytes) (envs : List Envelope) (error : WalError)
      → Held c dir envs
      → read_segment c true name file ≡ err error
      → read_dir c (dir ++ (name, file) ∷ []) ≡ err error
  unfolding read_dir
  read_dir-fails [] file envs error h e = rw e
  read_dir-fails ((name', sealed) ∷ dir) file envs error (first, later, split, g, h) e = rw (
    read_segment-Holding c name' first sealed g (is_nil (dir ++ (name, file) ∷ [])),
    read_dir-fails dir file later error h e,
  )

module _ (c : Codec) (w : Wal) (n : ℕ) (envs : List Envelope) (v : IsLog c w n envs) where
  -- The log as it is opened again. Where it has no record, the number that comes next is lost.
  abbrev pub reopened : Wal
  reopened = record w { next_seq = if is_nil envs then 0 else w.next_seq }

  opens :
      (file : Bytes)
      → read_segment c true w.path file ≡ ok (v.here, w.file)
      → w.next_seq < 2 ^ 64
      → open_with c (w.dir ++ (w.path, file) ∷ []) w.segment_max_bytes ≡ ok (reopened, envs)
  unfolding open_with
  opens file e room = rw (
    read_dir-append c w.path w.dir file w.file v.sealed v.here v.held e,
    ← v.split,
    check_chain-first envs n v.run (omega (arith, v.next)),
    active-append w.dir w.path w.file,
    ← v.counted,
    ← v.next,
  )

  -- Opening a log again, whose numbers fit 64 bits, gives back the envelopes that were appended,
  -- and the log as it was left, but for the next number where it has no record.
  pub open_with-on_disk :
      w.next_seq < 2 ^ 64 → open_with c (on_disk w) w.segment_max_bytes ≡ ok (reopened, envs)
  open_with-on_disk room =
      rw (insert-Below w.dir w.path w.file v.below)
        (opens w.file (read_segment-Holding c w.path v.here w.file v.holding true) room)

  -- The active segment with bytes after it that the writing of a record left.
  abbrev pub leaving : Bytes → Wal
  leaving torn = record w { file = w.file ++ torn }

  -- Bytes of a record that a crash has left at the end of a log whose numbers fit 64 bits, whole
  -- characters without a newline, are cut off when the log is opened, and nothing else is lost.
  pub open_with-torn :
      (torn : Bytes)
      → has_newline torn ≡ false
      → is_utf8 torn ≡ true
      → w.next_seq < 2 ^ 64
      → open_with c (on_disk (leaving torn)) w.segment_max_bytes ≡ ok (reopened, envs)
  open_with-torn [] one_line text room = rw (append-nil w.file) (open_with-on_disk room)
  open_with-torn (b ∷ bs) one_line text room =
      rw (insert-Below w.dir w.path (w.file ++ b ∷ bs) v.below) (
        opens (w.file ++ b ∷ bs)
          (read_segment-torn c w.path v.here w.file v.holding (b ∷ bs) one_line (omega arith) text)
          room)

  -- A log at whose end a crash has left bytes of a record, without a newline, that stop inside a
  -- character or are no text, does not open.
  pub open_with-cut_char :
      (torn : Bytes)
      → has_newline torn ≡ false
      → 0 < length torn
      → is_utf8 torn ≡ false
      → open_with c (on_disk (leaving torn)) w.segment_max_bytes ≡ err WalError.invalid_data
  unfolding open_with
  open_with-cut_char torn one_line begun cut = rw (
    insert-Below w.dir w.path (w.file ++ torn) v.below,
    read_dir-fails c w.path w.dir (w.file ++ torn) v.sealed WalError.invalid_data v.held
        (read_segment-cut_char c w.path v.here w.file v.holding torn one_line begun true cut),
  )
