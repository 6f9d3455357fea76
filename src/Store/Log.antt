-- ===== src/Store/Log.antt =====
-- The log as a sequence of envelopes, and what appending does to it: `append` and `rotate` of
-- crates/nocturnal-store/src/wal.rs.
use nocturnal_discord.Prelude.{
  ℕ, ◌+◌, ◌%◌, ◌^◌, ◌≤◌, ◌<◌, ◌≡◌, refl, sym, ap, ◌∙◌, subst, subst⁻¹, false, some, List, [], ◌∷◌,
  ◌++◌, leb, if◌then◌else◌, arith, Bool-cases, inl, inr, ==_iff,
}
use nocturnal_discord.Prelude.Lists.{length, All, length-append}
use nocturnal_discord.Prelude.OrdMap
use nocturnal_discord.Prelude.OrdMap.{nat_key}
use nocturnal_discord.Event.{Envelope}
use nocturnal_discord.Store.Bytes.{Bytes, newline}
use nocturnal_discord.Store.Codec.{Codec, line_of, encode, IsStorable}
use nocturnal_discord.Store.Records.{encode-eq}
use nocturnal_discord.Store.Lines.{Holding}
use nocturnal_discord.Store.Wal.{
  Dir, Wal, WalResult, ok, err, on_disk, rotate, written, append_one, append,
}
use mathlib.Core.List.{append_assoc, append-nil}

-- The segments hold these envelopes, in this order.
abbrev pub Held : Codec → Dir → List Envelope → Type 0
Held c [] envs = envs ≡ []
Held c ((name, file) ∷ dir) envs =
    (here : List Envelope) × (later : List Envelope) × (envs ≡ here ++ later)
    × Holding c here file
    × Held c dir later

-- The sequence numbers run on from `n`.
abbrev pub Run : ℕ → List Envelope → Type 0
Run n [] = Unit
Run n (env ∷ envs) = (env.seq ≡ n) × Run (n + 1) envs

-- Every segment is named below `k`.
abbrev pub Below : ℕ → Dir → Type 0
Below k = All (λ (s : ℕ × Bytes). s.0 < k)

-- The log holds these envelopes, numbered from `n`.
pub record IsLog (c : Codec) (w : Wal) (n : ℕ) (envs : List Envelope) : Type 0 where
  pub sealed : List Envelope
  pub here : List Envelope
  pub split : envs ≡ sealed ++ here
  pub held : Held c w.dir sealed
  pub holding : Holding c here w.file
  pub counted : w.bytes ≡ length w.file
  pub run : Run n envs
  pub next : w.next_seq ≡ n + length envs
  pub below : Below w.path w.dir
  pub named : w.path ≤ w.next_seq
  pub started : 0 < w.bytes → w.path < w.next_seq
  pub room : 0 < w.segment_max_bytes

Held-append :
    (c : Codec) (dir : Dir) (name : ℕ) (file : Bytes) (envs here : List Envelope)
    → Held c dir envs
    → Holding c here file
    → Held c (dir ++ (name, file) ∷ []) (envs ++ here)
Held-append c [] name file envs here h k = (here, [], rw h (sym (append-nil here)), k, refl)
Held-append c ((name', file') ∷ dir) name file envs here (first, later, e, g, h) k = (
  first,
  later ++ here,
  rw e (append_assoc first later here),
  g,
  Held-append c dir name file later here h k,
)

Holding-append :
    (c : Codec) (envs : List Envelope) (bytes : Bytes) (env : Envelope) (v : IsStorable c env)
    → Holding c envs bytes
    → Holding c (envs ++ env ∷ []) (bytes ++ (line_of c v.json ++ newline ∷ []))
Holding-append c [] bytes env v h = (v, [], rw h, refl)
Holding-append c (e ∷ envs) bytes env v (v', rest, eq, h) = (
  v',
  rest ++ (line_of c v.json ++ newline ∷ []),
  rw eq (append_assoc (line_of c v'.json) (newline ∷ rest) _),
  Holding-append c envs rest env v h,
)

Run-append :
    (n : ℕ) (envs : List Envelope) (env : Envelope)
    → Run n envs
    → env.seq ≡ n + length envs
    → Run n (envs ++ env ∷ [])
Run-append n [] env h e = (omega arith, tt)
Run-append n (e' ∷ envs) env h e = (h.0, Run-append (n + 1) envs env h.1 (omega arith))

Below-append :
    (k name : ℕ) (dir : Dir) (file : Bytes)
    → Below k dir
    → name < k
    → Below k (dir ++ (name, file) ∷ [])
Below-append k name [] file h l = (l, tt)
Below-append k name (s ∷ dir) file h l = (h.0, Below-append k name dir file h.1 l)

Below-le : (j k : ℕ) (dir : Dir) → j ≤ k → Below j dir → Below k dir
Below-le j k [] l h = tt
Below-le j k (s ∷ dir) l h = (omega arith, Below-le j k dir l h.1)

pub insert-Below :
    (dir : Dir) (k : ℕ) (file : Bytes)
    → Below k dir
    → OrdMap.insert dir k file ≡ dir ++ (k, file) ∷ []
unfolding OrdMap.insert
insert-Below [] k file h = refl
insert-Below ((j, f) ∷ dir) k file h = ground (arith, insert-Below dir k file)

absent-Below : (dir : Dir) (k : ℕ) → Below k dir → OrdMap.contains_key dir k ≡ false
unfolding OrdMap.contains_key OrdMap.get
absent-Below [] k h = refl
absent-Below ((j, f) ∷ dir) k h = ground (arith, absent-Below dir k, OrdMap.same_iff j k)

module _ (c : Codec) (n : ℕ) where
  pub on_disk-eq :
      (w : Wal) (envs : List Envelope)
      → IsLog c w n envs
      → on_disk w ≡ w.dir ++ (w.path, w.file) ∷ []
  on_disk-eq w envs v = insert-Below w.dir w.path w.file v.below

  -- A segment that has records is sealed, and the next is named for what comes next.
  pub rotate-IsLog :
      (w : Wal) (envs : List Envelope)
      → IsLog c w n envs
      → 0 < w.bytes
      → (w' : Wal) × (rotate w w.next_seq ≡ ok w') × IsLog c w' n envs × (w'.next_seq ≡ w.next_seq)
  unfolding rotate
  rotate-IsLog w envs v h =
      let disk = on_disk-eq w envs v in
      let above : Below w.next_seq (on_disk w) = subst⁻¹ (Below w.next_seq) disk (
        Below-append w.next_seq w.path w.dir w.file
          (Below-le w.path w.next_seq w.dir v.named v.below) (v.started h)) in
      (
        record w { dir = on_disk w; path = w.next_seq; file = []; bytes = 0 },
        rw (absent-Below (on_disk w) w.next_seq above) refl,
        record {
          sealed = v.sealed ++ v.here;
          here = [];
          split = v.split ∙ sym (append-nil _);
          held =
              subst⁻¹ (λ d. Held c d (v.sealed ++ v.here)) disk
                (Held-append c w.dir w.path w.file v.sealed v.here v.held v.holding);
          holding = refl;
          counted = refl;
          run = v.run;
          next = v.next;
          below = above;
          named = omega arith;
          started = λ h. absurd (omega arith);
          room = v.room;
        },
        refl,
      )

  written-IsLog :
      (w : Wal) (envs : List Envelope) (env : Envelope)
      → IsLog c w n envs
      → (s : IsStorable c env) → env.seq ≡ w.next_seq
      → w.next_seq + 1 < 2 ^ 64
      → IsLog c (written c w (line_of c s.json ++ newline ∷ [])) n (envs ++ env ∷ [])
  written-IsLog w envs env v s e fits =
      let step : (w.next_seq + 1) % 2 ^ 64 ≡ w.next_seq + 1 = omega arith in
      record {
        sealed = v.sealed;
        here = v.here ++ env ∷ [];
        split = ap (λ es. es ++ env ∷ []) v.split ∙ append_assoc v.sealed v.here (env ∷ []);
        held = v.held;
        holding = Holding-append c v.here w.file env s v.holding;
        counted = omega (arith, length-append w.file (line_of c s.json ++ newline ∷ []), v.counted);
        run = Run-append n envs env v.run (e ∙ v.next);
        next = omega (arith, length-append envs (env ∷ []), v.next);
        below = v.below;
        named = omega (arith, v.named);
        started = λ h. omega (arith, v.named);
        room = v.room;
      }

  append_one-eq :
      (w w' : Wal) (env : Envelope) (line : Bytes)
      → env.seq ≡ w.next_seq
      → (if leb w.segment_max_bytes w.bytes then rotate w w.next_seq else ok w) ≡ ok w'
      → encode c env ≡ some line
      → append_one c w env ≡ (written c w' line, ok tt)
  unfolding append_one
  append_one-eq w w' env line e ready printed =
      rw (e, (==_iff w.next_seq w.next_seq).1 refl, ready, printed, append_one) refl

  pub append_one-IsLog :
      (w : Wal) (envs : List Envelope) (env : Envelope)
      → IsLog c w n envs
      → IsStorable c env
      → env.seq ≡ w.next_seq
      → w.next_seq + 1 < 2 ^ 64
      → (w' : Wal) × (append_one c w env ≡ (w', ok tt)) × IsLog c w' n (envs ++ env ∷ [])
  append_one-IsLog w envs env v s e fits = elim (Bool-cases (leb w.segment_max_bytes w.bytes)) [
    | inl full ↦
        let (w', rotated, v', same_next) = rotate-IsLog w envs v (ground (arith, v.room)) in
        (
          written c w' (line_of c s.json ++ newline ∷ []),
          append_one-eq w w' env _ e (rw full rotated) (encode-eq c env s),
          written-IsLog w' envs env v' s (e ∙ sym same_next) (omega arith),
        )
    | inr space_left ↦ (
      written c w (line_of c s.json ++ newline ∷ []),
      append_one-eq w w env _ e (rw space_left refl) (encode-eq c env s),
      written-IsLog w envs env v s e fits,
    )
  ]

  append-cons :
      (w w' : Wal) (env : Envelope) (batch : List Envelope)
      → append_one c w env ≡ (w', ok tt)
      → append c w (env ∷ batch) ≡ append c w' batch
  unfolding append
  append-cons w w' env batch e =
      ap
        (λ (r : Wal × WalResult (Unit {0})). elim r.1 as (λ _. Wal × WalResult (Unit {0})) [
          | err x ↦ (r.0, err x)
          | ok _ ↦ append c r.0 batch
        ])
        e

  -- A batch of envelopes that can be stored and go on from the log, with numbers in 64 bits, is
  -- appended to it, over as many segments as that takes.
  pub append-IsLog :
      (w : Wal) (envs batch : List Envelope)
      → IsLog c w n envs
      → All (IsStorable c) batch
      → Run w.next_seq batch
      → w.next_seq + length batch < 2 ^ 64
      → (w' : Wal) × (append c w batch ≡ (w', ok tt)) × IsLog c w' n (envs ++ batch)
  unfolding append
  append-IsLog w envs [] v s r fits = (w, refl, subst⁻¹ (IsLog c w n) (append-nil envs) v)
  append-IsLog w envs (env ∷ batch) v s r fits =
      let (w1, e1, v1) = append_one-IsLog w envs env v s.0 r.0 (omega arith) in
      let next : w1.next_seq ≡ w.next_seq + 1 =
        omega (arith, v.next, v1.next, length-append envs (env ∷ [])) in
      let (w', e', v') =
        append-IsLog w1 (envs ++ env ∷ []) batch v1 s.1 (subst⁻¹ (λ m. Run m batch) next r.1)
          (omega arith) in
      (
        w',
        append-cons w w1 env batch e1 ∙ e',
        subst (IsLog c w' n) (append_assoc envs (env ∷ []) batch) v',
      )
