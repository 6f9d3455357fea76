-- ===== src/Store/Groups.antt =====
-- The events of each partition: the grouping in `compact` of crates/nocturnal-store/src/compact.rs.
use nocturnal_discord.Prelude.{
  ◌≡◌, refl, subst, inl, inr, Bool, true, false, some, none, List, [], ◌∷◌, ◌++◌, if◌then◌else◌,
  Bool-cases, String, Ordering,
}
use nocturnal_discord.Prelude.Lists.{All-append, All}
use nocturnal_discord.Prelude.OrdMap
use nocturnal_discord.Prelude.OrdMap.{OrdMap, text_key}
use nocturnal_discord.Calendar.{partition_name}
use nocturnal_discord.Event.{Envelope}
use nocturnal_discord.Store.Archive.{group}

abbrev pub Groups : Type 0
Groups = OrdMap String (List Envelope)

abbrev old : Groups → String → List Envelope
old m k = OrdMap.get_or m k []

old-first :
    (j k : String) (w : List Envelope) (m : Groups)
    → OrdMap.same j k ≡ true
    → old ((j, w) ∷ m) k ≡ w
unfolding OrdMap.get_or OrdMap.get
old-first j k w m e = rw (e, OrdMap.get_or, OrdMap.get) refl

old-later :
    (j k : String) (w : List Envelope) (m : Groups)
    → OrdMap.same j k ≡ false
    → old ((j, w) ∷ m) k ≡ old m k
unfolding OrdMap.get_or OrdMap.get
old-later j k w m e = rw (e, OrdMap.get_or, OrdMap.get) refl

gt-same : (k j : String) → text_key.cmp k j ≡ Ordering.gt → OrdMap.same j k ≡ false
gt-same k j e = elim (Bool-cases (OrdMap.same j k)) [
  | inl same ↦
      let back : text_key.cmp k k ≡ Ordering.gt =
        subst (λ x. text_key.cmp k x ≡ Ordering.gt) (OrdMap.same→eq j k same) e in
      cc (text_key.cmp_refl k)
  | inr differs ↦ differs
]

-- Every event of every partition has the property.
abbrev pub AllIn {κ} : (String → Envelope → Type κ) → Groups → Type κ
AllIn R = All (λ (g : String × List Envelope). All (R g.0) g.1)

module _ {κ} (R : String → Envelope → Type κ) where
  old-AllIn : (m : Groups) (k : String) → AllIn R m → All (R k) (old m k)
  unfolding OrdMap.get_or OrdMap.get
  old-AllIn [] k h = tt
  old-AllIn ((j, envs) ∷ m) k h = pick (OrdMap.same j k) refl (old-AllIn m k h.1)
    where
      pick :
          (b : Bool)
          → OrdMap.same j k ≡ b
          → All (R k) (old m k)
          → All (R k) (elim (if b then some envs else OrdMap.get m k) as (λ _. List Envelope) [
            | none ↦ []
            | some v ↦ v
          ])
      pick true e rest = subst (λ x. All (R x) envs) (OrdMap.same→eq j k e) h.0
      pick false e rest = rest

  insert-AllIn :
      (m : Groups) (k : String) (envs : List Envelope)
      → AllIn R m
      → All (R k) envs
      → AllIn R (OrdMap.insert m k envs)
  unfolding OrdMap.insert
  insert-AllIn [] k envs h a = (a, tt)
  insert-AllIn ((j, w) ∷ m) k envs h a = pick (text_key.cmp k j) (insert-AllIn m k envs h.1 a)
    where
      pick :
          (o : Ordering)
          → AllIn R (OrdMap.insert m k envs)
          → AllIn R (elim o as (λ _. Groups) [
            | Ordering.lt ↦ (k, envs) ∷ (j, w) ∷ m
            | Ordering.eq ↦ (k, envs) ∷ m
            | Ordering.gt ↦ (j, w) ∷ OrdMap.insert m k envs
          ])
      pick Ordering.lt rest = (a, h)
      pick Ordering.eq rest = (a, h.1)
      pick Ordering.gt rest = (h.0, rest)

  -- What holds of each event and its partition holds of the groups.
  pub group-AllIn :
      (envs : List Envelope) (m : Groups)
      → All (λ env. R (partition_name env.ts_ms) env) envs
      → AllIn R m
      → AllIn R (group envs m)
  unfolding group OrdMap.upsert
  group-AllIn [] m a h = h
  group-AllIn (env ∷ envs) m a h =
      let k = partition_name env.ts_ms in
      group-AllIn envs (OrdMap.insert m k (old m k ++ env ∷ [])) a.1 (
        insert-AllIn m k (old m k ++ env ∷ []) h
          (All-append (R k) (old m k) (env ∷ []) (old-AllIn m k h) (a.0, tt)))

module _ {κ} (P : Envelope → Type κ) where
  append-All : (xs ys : List Envelope) → All P (xs ++ ys) → All P xs × All P ys
  append-All [] ys h = (tt, h)
  append-All (x ∷ xs) ys h = let (k, l) = append-All xs ys h.1 in ((h.0, k), l)

  insert-All :
      (m : Groups) (k : String) (envs : List Envelope)
      → (All P envs → All P (old m k))
      → AllIn (λ _. P) (OrdMap.insert m k envs)
      → AllIn (λ _. P) m × All P envs
  unfolding OrdMap.insert
  insert-All [] k envs keeps h = (tt, h.0)
  insert-All ((j, w) ∷ m) k envs keeps h = pick (text_key.cmp k j) refl (insert-All m k envs) h
    where
      pick :
          (o : Ordering)
          → text_key.cmp k j ≡ o
          → ((All P envs → All P (old m k))
              → AllIn (λ _. P) (OrdMap.insert m k envs)
              → AllIn (λ _. P) m × All P envs)
          → AllIn
              (λ _. P)
              (elim o as (λ _. Groups) [
                | Ordering.lt ↦ (k, envs) ∷ (j, w) ∷ m
                | Ordering.eq ↦ (k, envs) ∷ m
                | Ordering.gt ↦ (j, w) ∷ OrdMap.insert m k envs
              ])
          → AllIn (λ _. P) ((j, w) ∷ m) × All P envs
      pick Ordering.lt e ih a = (a.1, a.0)
      pick Ordering.eq e ih a =
          let path = text_key.cmp_path k j e in
          let is_same : OrdMap.same j k ≡ true = rw path (OrdMap.same_refl j) in
          ((subst (All P) (old-first j k w m is_same) (keeps a.0), a.1), a.0)
      pick Ordering.gt e ih a =
          let differs : OrdMap.same j k ≡ false = gt-same k j e in
          let (rest, here) =
            ih (λ all. subst (All P) (old-later j k w m differs) (keeps all)) a.1 in
          ((a.0, rest), here)

  -- Each event is in some group.
  pub All-group :
      (envs : List Envelope) (m : Groups)
      → AllIn (λ _. P) (group envs m)
      → All P envs × AllIn (λ _. P) m
  unfolding group OrdMap.upsert
  All-group [] m h = (tt, h)
  All-group (env ∷ envs) m h =
      let k = partition_name env.ts_ms in
      let (all, grown) = All-group envs (OrdMap.insert m k (old m k ++ env ∷ [])) h in
      let (before, added) =
        insert-All m k (old m k ++ env ∷ []) (λ a. (append-All (old m k) (env ∷ []) a).0) grown in
      (((append-All (old m k) (env ∷ []) added).1.0, all), before)
