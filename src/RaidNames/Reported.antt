-- ===== src/RaidNames/Reported.antt =====
-- The kill list of a raid against the deaths that the meters report: crates/nocturnal/src/
-- raid_names.rs.
use nocturnal_discord.Prelude.{
  ℕ, ◌+◌, ◌≡◌, refl, sym, ap, ◌∙◌, Bool, ◌&&◌, Option, none, some, List, [], ◌∷◌, ◌++◌, String,
  arith, if◌then◌else◌,
}
use nocturnal_discord.Prelude.Int.{ℤ, eqb_ℤ, leb_ℤ}
use nocturnal_discord.Prelude.Lists.{
  All, All-sort_by, All-append, keep, length, length-append, length-sort_by, keep-append,
}
use nocturnal_discord.Prelude.Sorted.{Sorted, keep-sort_by, sort_by-Sorted}
use nocturnal_discord.Prelude.OrdMap
use nocturnal_discord.Prelude.OrdMap.{OrdMap, same, same→eq, text_key}
use nocturnal_discord.Prelude.Rising.{Above, Rising, compare-after}
use nocturnal_discord.Event.{RaidKill}
use nocturnal_discord.Platform.{Platform}
use nocturnal_discord.RaidNames.{Share, TargetDamage, deaths_of, death_kills, kills}
use nocturnal_discord.RaidNames.Kills.{is_death, keep-kills, time, unsorted}

-- A kill of the target at the time.
abbrev pub is_at : String → ℤ → RaidKill → Bool
is_at target t k = same k.target target && eqb_ℤ k.killed_ms t

-- How many kills by death of the target a list has at the time.
abbrev pub deaths_at : String → ℤ → List RaidKill → ℕ
deaths_at target t ks = length (keep (λ k. is_death k && is_at target t k) ks)

-- How many deaths of the target at the time are reported, where it is a boss of the table.
abbrev pub reported : OrdMap String (List ℤ) → OrdMap String String → String → ℤ → ℕ
reported deaths bosses target t = elim (OrdMap.get bosses target) [
  | none ↦ 0
  | some _ ↦ elim (OrdMap.get deaths target) [
    | none ↦ 0
    | some times ↦ length (keep (λ x. eqb_ℤ x t) times)
  ]
]

get-Above : (k : String) (m : OrdMap String (List ℤ)) → Above k m → OrdMap.get m k ≡ none
unfolding OrdMap.get same
get-Above k [] h = refl
get-Above k ((j, v) ∷ m) h = ground (arith, compare-after k j h.0, get-Above k m h.1)

keep-and :
    (f g : RaidKill → Bool) (ks : List RaidKill) → keep (λ k. f k && g k) ks ≡ keep g (keep f ks)
keep-and f g [] = refl
keep-and f g (k ∷ ks) = ground (arith, keep-and f g ks)

length-keep-append :
    (f : RaidKill → Bool) (xs ys : List RaidKill)
    → length (keep f (xs ++ ys)) ≡ length (keep f xs) + length (keep f ys)
length-keep-append f xs ys = ap length (keep-append f xs ys) ∙ length-append (keep f xs) (keep f ys)

-- What is reported, with one more target before.
reported-cons :
    (j : String) (times : List ℤ) (deaths : OrdMap String (List ℤ)) (bosses : OrdMap String String)
    (target : String) (t : ℤ)
    → Above j deaths
    → reported ((j, times) ∷ deaths) bosses target t
      ≡ (elim (OrdMap.get bosses j) [
        | none ↦ 0
        | some _ ↦ if same j target then length (keep (λ x. eqb_ℤ x t) times) else 0
      ])
        + reported deaths bosses target t
unfolding OrdMap.get
reported-cons j times deaths bosses target t h =
    ground (arith, same→eq j target, get-Above j deaths h)

module _ (p : Platform) (q : Share) (target : String) (t : ℤ) where
  length-deaths_of :
      (j short : String) (times : List ℤ)
      → length (keep (is_at target t) (deaths_of p q j short times))
        ≡ (if same j target then length (keep (λ x. eqb_ℤ x t) times) else 0)
  unfolding deaths_of
  length-deaths_of j short [] = ground arith
  length-deaths_of j short (x ∷ times) = ground (arith, length-deaths_of j short times)

  length-death_kills :
      (bosses : OrdMap String String) (deaths : OrdMap String (List ℤ))
      → Rising deaths
      → length (keep (is_at target t) (death_kills p q deaths bosses))
        ≡ reported deaths bosses target t
  unfolding death_kills OrdMap.get
  length-death_kills bosses [] h = ground arith
  length-death_kills bosses ((j, times) ∷ deaths) h =
      first (OrdMap.get bosses j) (length-death_kills bosses deaths h.1)
      ∙ sym (reported-cons j times deaths bosses target t h.0)
    where
      first :
          (o : Option String)
          → length (keep (is_at target t) (death_kills p q deaths bosses))
            ≡ reported deaths bosses target t
          → length (
              keep (is_at target t) (elim o as (λ _. List RaidKill) [
                | none ↦ death_kills p q deaths bosses
                | some short ↦ deaths_of p q j short times ++ death_kills p q deaths bosses
              ]))
            ≡ (elim o as (λ _. ℕ) [
              | none ↦ 0
              | some _ ↦ if same j target then length (keep (λ x. eqb_ℤ x t) times) else 0
            ])
              + reported deaths bosses target t
      first none ih = omega (arith, ih)
      first (some short) ih =
          length-keep-append (is_at target t) (deaths_of p q j short times)
            (death_kills p q deaths bosses)
          ∙ rw (length-deaths_of j short times, ih) refl

module _ (p : Platform) (q : Share) where
  deaths_of-named :
      (bosses : OrdMap String String) (j short : String) (times : List ℤ)
      → OrdMap.get bosses j ≡ some short
      → All (λ k. OrdMap.get bosses k.target ≡ some k.name) (deaths_of p q j short times)
  unfolding deaths_of
  deaths_of-named bosses j short [] e = tt
  deaths_of-named bosses j short (x ∷ times) e = (e, deaths_of-named bosses j short times e)

  death_kills-named :
      (bosses : OrdMap String String) (deaths : OrdMap String (List ℤ))
      → All (λ k. OrdMap.get bosses k.target ≡ some k.name) (death_kills p q deaths bosses)
  unfolding death_kills
  death_kills-named bosses [] = tt
  death_kills-named bosses ((j, times) ∷ deaths) =
      first (OrdMap.get bosses j) refl (death_kills-named bosses deaths)
    where
      first :
          (o : Option String)
          → OrdMap.get bosses j ≡ o
          → All (λ k. OrdMap.get bosses k.target ≡ some k.name) (death_kills p q deaths bosses)
          → All
              (λ k. OrdMap.get bosses k.target ≡ some k.name)
              (elim o as (λ _. List RaidKill) [
                | none ↦ death_kills p q deaths bosses
                | some short ↦ deaths_of p q j short times ++ death_kills p q deaths bosses
              ])
      first none e ih = ih
      first (some short) e ih =
          All-append (λ (k : RaidKill). OrdMap.get bosses k.target ≡ some k.name)
            (deaths_of p q j short times) (death_kills p q deaths bosses)
            (deaths_of-named bosses j short times e) ih

  kills-Sorted :
      (rows : List TargetDamage) (lockouts : OrdMap String ℤ) (deaths : OrdMap String (List ℤ))
      (bosses : OrdMap String String)
      → Sorted time (kills p q rows lockouts deaths bosses)
  unfolding kills
  kills-Sorted rows lockouts deaths bosses =
      sort_by-Sorted time (unsorted p q rows lockouts deaths bosses)

  -- The kill list of a raid is in the order of the times. From reports in a map with its keys in
  -- order, it has a kill by death of a target at a time as often as a death of that target at that
  -- time is reported, where the target is a boss of the table, and not once where it is none. Each
  -- of these kills has the table's name of its target.
  pub deaths_at-kills :
      (rows : List TargetDamage) (lockouts : OrdMap String ℤ) (deaths : OrdMap String (List ℤ))
      (bosses : OrdMap String String) (target : String) (t : ℤ)
      → Rising deaths
      → (deaths_at target t (kills p q rows lockouts deaths bosses)
          ≡ reported deaths bosses target t)
        × All
            (λ k. OrdMap.get bosses k.target ≡ some k.name)
            (keep is_death (kills p q rows lockouts deaths bosses))
        × Sorted time (kills p q rows lockouts deaths bosses)
  deaths_at-kills rows lockouts deaths bosses target t h =
      let by_death = keep-kills p q rows lockouts deaths bosses in
      let dead = death_kills p q deaths bosses in
      (
        ap length (keep-and is_death (is_at target t) (kills p q rows lockouts deaths bosses))
            ∙ ap (λ ks. length (keep (is_at target t) ks)) by_death
            ∙ ap length (keep-sort_by time (is_at target t) dead)
            ∙ length-sort_by (λ a b. leb_ℤ a.killed_ms b.killed_ms) (keep (is_at target t) dead)
            ∙ length-death_kills p q target t bosses deaths h,
        rw by_death (
            All-sort_by (λ (k : RaidKill). OrdMap.get bosses k.target ≡ some k.name)
              (λ a b. leb_ℤ a.killed_ms b.killed_ms) dead (death_kills-named bosses deaths)),
        kills-Sorted rows lockouts deaths bosses,
      )
