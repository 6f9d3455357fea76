-- ===== src/Store/Merging.antt =====
-- What a merge keeps: the sort and the removal of doubles in `compact` of
-- crates/nocturnal-store/src/compact.rs.
use nocturnal_discord.Prelude.{
  ℕ, ◌≡◌, refl, ap, ◌∙◌, Bool, true, false, List, [], ◌∷◌, ◌++◌, ◌==◌, ◌||◌, if◌then◌else◌, arith,
  ==_iff,
}
use nocturnal_discord.Prelude.Lists.{All-append, All-sort_by, any, All, insert_by, sort_by}
use nocturnal_discord.Event.{Envelope}
use nocturnal_discord.Store.Archive.{seq_leb, sort_by_seq, dedup_after, dedup_by_seq, merged}

-- Some event has this number.
abbrev pub has : ℕ → List Envelope → Bool
has n = any (λ env. env.seq == n)

module _ {κ} (P : Envelope → Type κ) where
  All-dedup_after : (n : ℕ) (envs : List Envelope) → All P envs → All P (dedup_after n envs)
  unfolding dedup_after
  All-dedup_after n [] h = tt
  All-dedup_after n (env ∷ envs) h =
      pick (env.seq == n) (All-dedup_after n envs h.1) (All-dedup_after env.seq envs h.1)
    where
      pick :
          (b : Bool)
          → All P (dedup_after n envs)
          → All P (dedup_after env.seq envs)
          → All P (if b then dedup_after n envs else env ∷ dedup_after env.seq envs)
      pick true rest later = rest
      pick false rest later = (h.0, later)

  All-dedup_by_seq : (envs : List Envelope) → All P envs → All P (dedup_by_seq envs)
  unfolding dedup_by_seq
  All-dedup_by_seq [] h = tt
  All-dedup_by_seq (env ∷ envs) h = (h.0, All-dedup_after env.seq envs h.1)

  pub All-merged :
      (envs before : List Envelope) → All P envs → All P before → All P (merged envs before)
  All-merged envs before h k =
      All-dedup_by_seq (sort_by_seq (envs ++ before))
        (All-sort_by P seq_leb (envs ++ before) (All-append P envs before h k))

has-insert_by :
    (n : ℕ) (env : Envelope) (envs : List Envelope)
    → has n (insert_by seq_leb env envs) ≡ has n (env ∷ envs)
unfolding insert_by
has-insert_by n env [] = refl
has-insert_by n env (e ∷ envs) = ground (arith, has-insert_by n env envs)

has-sort_by : (n : ℕ) (envs : List Envelope) → has n (sort_by_seq envs) ≡ has n envs
unfolding sort_by
has-sort_by n [] = refl
has-sort_by n (env ∷ envs) =
    has-insert_by n env (sort_by_seq envs) ∙ ap (λ b. (env.seq == n) || b) (has-sort_by n envs)

has-dedup_after :
    (n m : ℕ) (envs : List Envelope)
    → ((m == n) || has n (dedup_after m envs)) ≡ ((m == n) || has n envs)
unfolding dedup_after
has-dedup_after n m [] = refl
has-dedup_after n m (env ∷ envs) =
    ground (arith, has-dedup_after n m envs, has-dedup_after n env.seq envs)

has-dedup_by_seq : (n : ℕ) (envs : List Envelope) → has n (dedup_by_seq envs) ≡ has n envs
unfolding dedup_by_seq
has-dedup_by_seq n [] = refl
has-dedup_by_seq n (env ∷ envs) = has-dedup_after n env.seq envs

has-append : (n : ℕ) (xs ys : List Envelope) → has n (xs ++ ys) ≡ (has n xs || has n ys)
has-append n [] ys = refl
has-append n (env ∷ xs) ys = ground (arith, has-append n xs ys)

-- A merge has the numbers of both.
pub has-merged :
    (n : ℕ) (envs before : List Envelope)
    → has n (merged envs before) ≡ (has n envs || has n before)
has-merged n envs before =
    has-dedup_by_seq n (sort_by_seq (envs ++ before))
    ∙ has-sort_by n (envs ++ before)
    ∙ has-append n envs before

-- Each event's number is among those of the list.
pub All-has :
    (envs all : List Envelope)
    → ((n : ℕ) → has n envs ≡ true → has n all ≡ true)
    → All (λ env. has env.seq all ≡ true) envs
All-has [] all h = tt
All-has (env ∷ envs) all h = (
  h env.seq (rw ((==_iff env.seq env.seq).1 refl) refl),
  All-has envs all (λ n k. h n (ground (arith, k))),
)
