-- ===== src/Store/Kept.antt =====
-- Writing partitions keeps the events that they have: the loop of `compact` of
-- crates/nocturnal-store/src/compact.rs.
use nocturnal_discord.Prelude.{
  ℕ, Bool, Option, ◌==◌, ==_iff, ◌≡◌, refl, sym, ap, ◌∙◌, subst, subst⁻¹, inl, inr, true, some,
  List, [], ◌∷◌, ◌||◌, arith, Bool-cases, String,
}
use nocturnal_discord.Prelude.Lists.{All, find}
use nocturnal_discord.Prelude.OrdMap
use nocturnal_discord.Prelude.OrdMap.{OrdMap, text_key, nat_key}
use nocturnal_discord.Calendar.{partition_name}
use nocturnal_discord.Event.{Envelope}
use nocturnal_discord.Store.Bytes.{Bytes}
use nocturnal_discord.Store.Codec.{Codec, IsStorable}
use nocturnal_discord.Store.Wal.{WalResult, ok, err, ◌>>=◌}
use nocturnal_discord.Store.Archive.{
  Parquet, EventsDir, read_parquet, existing, merged, write_partition, write_partitions,
}
use nocturnal_discord.Store.Merging.{has, has-merged, All-has, All-merged}
use nocturnal_discord.Store.Partitions.{
  Faithful, AllRead, AllRead-insert, existing-All, Outcome, write_partition-Outcome,
}
use nocturnal_discord.Store.Groups.{Groups, AllIn}

-- An event that can be stored, and is the one that the history has under its number.
abbrev pub Known : Codec → (ℕ → Envelope) → Envelope → Type 0
Known c hist env = IsStorable c env × (env ≡ hist env.seq)

-- Among known events the first of a number is the event of that number.
find-Known :
    (c : Codec) (hist : ℕ → Envelope) (n : ℕ) (envs : List Envelope)
    → All (Known c hist) envs
    → has n envs ≡ true
    → find (λ x. x.seq == n) envs ≡ some (hist n)
find-Known c hist n [] h e = cc
find-Known c hist n (x ∷ envs) h e = elim (Bool-cases (x.seq == n)) [
  | inl this ↦ rw this (ap some (h.0.1 ∙ ap hist ((==_iff x.seq n).0 this)))
  | inr other ↦ rw other (find-Known c hist n envs h.1 (rw other at e))
]

find-has :
    (n : ℕ) (envs : List Envelope) (env : Envelope)
    → find (λ x. x.seq == n) envs ≡ some env
    → has n envs ≡ true
find-has n [] env e = cc
find-has n (x ∷ envs) env e = elim (Bool-cases (x.seq == n)) [
  | inl this ↦ rw this refl
  | inr other ↦ rw other (find-has n envs env (rw other at e))
]

find-All :
    (P : Envelope → Type 0) (f : Envelope → Bool) (envs : List Envelope) (env : Envelope)
    → All P envs
    → find f envs ≡ some env
    → P env
find-All P f [] env h e = cc
find-All P f (x ∷ envs) env h e = elim (Bool-cases (f x)) [
  | inl this ↦ subst P (some_path x env (sym (rw this refl) ∙ e)) h.0
  | inr other ↦ find-All P f envs env h.1 (sym (rw other refl) ∙ e)
]
  where
    some_path : (a b : Envelope) → ◌≡◌ {A = Option Envelope} (some a) (some b) → a ≡ b
    some_path a b p = cc

module _ (c : Codec) (q : Parquet) where
  -- The partition of the event reads, and has the event under its number.
  abbrev pub Kept : EventsDir → Envelope → Type 0
  Kept dir env =
      (file : Bytes) × (back : List Envelope) × (OrdMap.get dir (partition_name env.ts_ms)
        ≡ some file)
      × (read_parquet c q (partition_name env.ts_ms) file ≡ ok back)
      × (find (λ x. x.seq == env.seq) back ≡ some env)

  existing-some :
      (dir : EventsDir) (name : String) (file : Bytes) (before back : List Envelope)
      → existing c q dir name ≡ ok before
      → OrdMap.get dir name ≡ some file
      → read_parquet c q name file ≡ ok back
      → before ≡ back
  unfolding existing
  existing-some dir name file before back e g r =
      ok_path before back (sym (rw (g, existing) at e) ∙ r)
    where
      ok_path : (a b : List Envelope) → ◌≡◌ {A = WalResult (List Envelope)} (ok a) (ok b) → a ≡ b
      ok_path a b p = cc

  module _ (dir : EventsDir) (name : String) (file : Bytes) (envs before : List Envelope)
      (e : existing c q dir name ≡ ok before)
      (r : read_parquet c q name file ≡ ok (merged envs before)) (hist : ℕ → Envelope)
      (all : All (Known c hist) (merged envs before)) where
    -- An event of the partition that is written.
    insert-Kept :
        (env : Envelope)
        → name ≡ partition_name env.ts_ms
        → env ≡ hist env.seq
        → (has env.seq envs || has env.seq before) ≡ true
        → Kept (OrdMap.insert dir name file) env
    insert-Kept env path known h = (
      file,
      merged envs before,
      rw (OrdMap.get-insert dir name (partition_name env.ts_ms) file, ← path, OrdMap.same_refl name)
          refl,
      subst (λ n. read_parquet c q n file ≡ ok (merged envs before)) path r,
      find-Known c hist env.seq (merged envs before) all (has-merged env.seq envs before ∙ h)
          ∙ ap some (sym known),
    )

    -- What was kept stays.
    insert-stays :
        AllRead c q (Known c hist) dir
        → (env : Envelope) → Kept dir env
        → Kept (OrdMap.insert dir name file) env
    insert-stays known env (file', back, g, r', h) =
        elim (Bool-cases (OrdMap.same name (partition_name env.ts_ms))) [
          | inl same ↦
              let path = OrdMap.same→eq name (partition_name env.ts_ms) same in
              let found =
                existing-some dir name file' before back e
                  (subst⁻¹ (λ n. OrdMap.get dir n ≡ some file') path g)
                  (subst⁻¹ (λ n. read_parquet c q n file' ≡ ok back) path r') in
              let here = find-has env.seq back env h in
              let is_known =
                find-All (Known c hist) (λ x. x.seq == env.seq) back env
                  (known (partition_name env.ts_ms) file' back g r') h in
              insert-Kept env path is_known.1 (ground (arith, rw (← found) at here))
          | inr differs ↦ (
            file',
            back,
            rw (OrdMap.get-insert dir name (partition_name env.ts_ms) file, differs) g,
            r',
            h,
          )
        ]

pub All-map {ℓ κ κ'} :
    {A : Type ℓ} {P : A → Type κ} {Q : A → Type κ'} (xs : List A)
    → ((x : A) → P x → Q x)
    → All P xs
    → All Q xs
All-map [] f h = tt
All-map (x ∷ xs) f h = (f x h.0, All-map xs f h.1)

-- A known event of the partition of this name.
abbrev pub Fits : Codec → (ℕ → Envelope) → String → Envelope → Type 0
Fits c hist name env = (name ≡ partition_name env.ts_ms) × Known c hist env

module _ (c : Codec) (q : Parquet) (f : Faithful q) (hist : ℕ → Envelope) where
  -- What writing the partitions leaves: all that was kept, and, without an error, the groups.
  abbrev pub Written : EventsDir → Groups → EventsDir × WalResult (List String) → Type 0
  Written dir groups (dir', err x) = (env : Envelope) → Kept c q dir env → Kept c q dir' env
  Written dir groups (dir', ok names) =
      ((env : Envelope) → Kept c q dir env → Kept c q dir' env) × AllIn (λ _. Kept c q dir') groups

  -- The rest of the partitions, after one.
  abbrev after :
      String → Groups → EventsDir × WalResult (Unit {0}) → EventsDir × WalResult (List String)
  after name groups (dir, err x) = (dir, err x)
  after name groups (dir, ok _) = (
    (write_partitions c q dir groups).0,
    (write_partitions c q dir groups).1 >>= λ ns. ok (name ∷ ns),
  )

  write_partitions-after :
      (dir : EventsDir) (name : String) (envs : List Envelope) (groups : Groups)
      (result : EventsDir × WalResult (Unit {0}))
      → write_partition c q dir name envs ≡ result
      → write_partitions c q dir ((name, envs) ∷ groups) ≡ after name groups result
  unfolding write_partitions
  write_partitions-after dir name envs groups result e =
      cases (write_partition c q dir name envs) ∙ ap (after name groups) e
    where
      cases :
          (res : EventsDir × WalResult (Unit {0}))
          → elim res.1 as (λ _. EventsDir × WalResult (List String)) [
            | err x ↦ (res.0, err x)
            | ok _ ↦ (
              (write_partitions c q res.0 groups).0,
              (write_partitions c q res.0 groups).1 >>= λ ns. ok (name ∷ ns),
            )
          ]
            ≡ after name groups res
      cases (dir1, err x) = refl
      cases (dir1, ok u) = refl

  pub write_partitions-Written :
      (groups : Groups) (dir : EventsDir)
      → AllIn (Fits c hist) groups
      → AllRead c q (Known c hist) dir
      → Written dir groups (write_partitions c q dir groups)
  unfolding write_partitions
  write_partitions-Written [] dir h known = (λ env k. k, tt)
  write_partitions-Written ((name, envs) ∷ groups) dir h known =
      step
        (write_partition-Outcome c q f dir name envs (All-map envs (λ env fits. fits.1.0) h.0)
          (λ n file back g b. All-map back (λ env k. k.0) (known n file back g b)))
        (λ dir'. write_partitions-Written groups dir' h.1)
    where
      added :
          (file : Bytes) (before : List Envelope)
          → existing c q dir name ≡ ok before
          → read_parquet c q name file ≡ ok (merged envs before)
          → All (Known c hist) (merged envs before)
          → (xs : List Envelope) → All (Fits c hist name) xs
          → All (λ env. has env.seq envs ≡ true) xs
          → All (Kept c q (OrdMap.insert dir name file)) xs
      added file before found back all [] a b = tt
      added file before found back all (x ∷ xs) a b = (
        insert-Kept c q dir name file envs before found back hist all x a.0.0 a.0.1.1
            (ground (arith, b.0)),
        added file before found back all xs a.1 b.1,
      )

      rest :
          (dir1 : EventsDir)
          → ((env : Envelope) → Kept c q dir env → Kept c q dir1 env)
          → All (Kept c q dir1) envs
          → (result : EventsDir × WalResult (List String)) → Written dir1 groups result
          → Written dir ((name, envs) ∷ groups) (result.0, result.1 >>= λ ns. ok (name ∷ ns))
      rest dir1 stays new (dir2, err x) w = λ env k. w env (stays env k)
      rest dir1 stays new (dir2, ok ns) w =
          (λ env k. w.0 env (stays env k), (All-map envs w.0 new, w.1))

      step :
          Outcome c q f dir name envs (write_partition c q dir name envs)
          → ((dir' : EventsDir)
              → AllRead c q (Known c hist) dir'
              → Written dir' groups (write_partitions c q dir' groups))
          → Written dir ((name, envs) ∷ groups) (write_partitions c q dir ((name, envs) ∷ groups))
      step (inl (x, e)) ih =
          subst⁻¹ (Written dir ((name, envs) ∷ groups))
            (write_partitions-after dir name envs groups (dir, err x) e) (λ env k. k)
      step (inr (file, before, e, found, back)) ih =
          let dir1 = OrdMap.insert dir name file in
          let all =
            All-merged (Known c hist) envs before (All-map envs (λ env fits. fits.1) h.0)
              (existing-All c q (Known c hist) dir name before known found) in
          let known1 =
            AllRead-insert c q (Known c hist) dir name file (merged envs before) back all known in
          subst⁻¹ (Written dir ((name, envs) ∷ groups))
            (write_partitions-after dir name envs groups (dir1, ok tt) e)
            (rest dir1 (insert-stays c q dir name file envs before found back hist all known)
              (added file before found back all envs h.0 (All-has envs envs (λ n k. k)))
              (write_partitions c q dir1 groups) (ih dir1 known1))
