-- ===== src/RaidNames.antt =====
-- The bosses of a raid and its kill list: crates/nocturnal/src/raid_names.rs. What the meters and
-- the logs say is read by calls of other services, arguments here.
pub mod Kills
pub mod Reported
use nocturnal_discord.Prelude.{
  ℕ, ◌-◌, Ordering, Bool, true, false, not, Option, none, some, List, [], ◌∷◌, ◌++◌, map, String,
  ◌==◌, if◌then◌else◌,
}
use nocturnal_discord.Prelude.Int.{ℤ, leb_ℤ, ltb_ℤ}
use nocturnal_discord.Prelude.Lists.{any, keep, is_nil, sort_by}
use nocturnal_discord.Prelude.Text.{trim}
use nocturnal_discord.Prelude.OrdMap
use nocturnal_discord.Prelude.OrdMap.{OrdMap, same, text_key}
use nocturnal_discord.Event.{F64, RaidKill, KillEvidence}
use nocturnal_discord.Platform.{Platform}
use Prim.Native.Char.{code}
use Prim.Native.String.{◌++◌ as ◌^^◌}

-- `trim_start_matches('#')`
unfoldable pub trim_marks : String → String
trim_marks String.[] = String.[]
trim_marks (String.◌∷◌ c s) =
    let rest = trim_marks s in if code c == 35 then rest else String.◌∷◌ c s

-- The name as it is shown.
unfoldable pub clean : String → String
unfolding trim trim_marks
clean name = trim (trim_marks (trim name))

pub record TargetDamage : Type 0 where
  pub target : String
  pub damage : F64
  pub first_seen_ms : ℤ
  pub last_seen_ms : ℤ

pub record BossHit : Type 0 where
  pub target : String
  pub short : String
  pub last_seen_ms : ℤ

-- What the sum of damages, `* 0.02` and `>=` are on an `f64`.
pub record Share : Type 0 where
  pub sum : List F64 → F64
  pub two_percent : F64 → F64
  pub at_least : F64 → F64 → Bool

unfoldable pub found_bosses :
    (String → String) → OrdMap String String → List TargetDamage → List (TargetDamage × String)
unfolding OrdMap.get
found_bosses normalize bosses [] = []
found_bosses normalize bosses (r ∷ rs) =
    let rest = found_bosses normalize bosses rs in
    elim (OrdMap.get bosses (normalize r.target)) [ none ↦ rest | some short ↦ (r, short) ∷ rest ]

module _ (p : Platform) (q : Share) where
  unfoldable pub normalize : String → String
  unfolding clean
  normalize name = p.to_lowercase (clean name)

  -- The order of the first damage, the greater damage first where that is at one time.
  unfoldable pub engaged_before : TargetDamage × String → TargetDamage × String → Bool
  engaged_before (a, _) (b, _) =
      if ltb_ℤ a.first_seen_ms b.first_seen_ms
      then true
      else (if ltb_ℤ b.first_seen_ms a.first_seen_ms
          then false
          else elim (p.total_cmp b.damage a.damage) [ Ordering.gt ↦ false | _ ↦ true ])

  unfoldable pub boss_hits : List TargetDamage → OrdMap String String → List BossHit
  unfolding found_bosses normalize engaged_before sort_by
  boss_hits rows bosses =
      let hits = found_bosses normalize bosses rows in
      let total = q.sum (map (λ h. h.0.damage) hits) in
      map (λ h. record { target = h.0.target; short = h.1; last_seen_ms = h.0.last_seen_ms })
        (keep (λ h. q.at_least h.0.damage (q.two_percent total)) (sort_by engaged_before hits))

  -- The shorthands, each at its first hit.
  unfoldable pub shorthands : List String → List BossHit → List String
  unfolding same
  shorthands names [] = names
  shorthands names (h ∷ hs) =
      shorthands (if any (λ n. same n h.short) names then names else names ++ h.short ∷ []) hs

  unfoldable pub joined : String → List String → String
  joined first [] = first
  joined first (last ∷ []) = first ^^ (" & " ^^ last)
  joined first (next ∷ later ∷ rest) = joined (first ^^ (", " ^^ next)) (later ∷ rest)

  unfoldable pub pick : List TargetDamage → OrdMap String String → Option String
  unfolding boss_hits shorthands joined
  pick rows bosses = elim (shorthands [] (boss_hits rows bosses)) [
    | [] ↦ none
    | first ∷ rest ↦ some (joined first rest)
  ]

  -- The kills of one target by its deaths.
  unfoldable pub deaths_of : String → String → List ℤ → List RaidKill
  deaths_of target short times =
      map
        (λ t. record {
          target = target;
          name = short;
          killed_ms = t;
          evidence = KillEvidence.death;
        })
        times

  unfoldable pub death_kills : OrdMap String (List ℤ) → OrdMap String String → List RaidKill
  unfolding deaths_of OrdMap.get
  death_kills [] bosses = []
  death_kills ((target, times) ∷ deaths) bosses =
      let rest = death_kills deaths bosses in
      elim (OrdMap.get bosses target) [
        | none ↦ rest
        | some short ↦ deaths_of target short times ++ rest
      ]

  unfoldable pub hit_kill : OrdMap String ℤ → BossHit → RaidKill
  unfolding OrdMap.get normalize clean
  hit_kill lockouts h = elim (OrdMap.get lockouts (normalize (clean h.target))) [
    | some kill_ms ↦ record {
      target = clean h.target;
      name = h.short;
      killed_ms = kill_ms;
      evidence = KillEvidence.lockout;
    }
    | none ↦ record {
      target = clean h.target;
      name = h.short;
      killed_ms = h.last_seen_ms;
      evidence = KillEvidence.damage;
    }
  ]

  -- The loop over the lockout notices.
  unfoldable pub add_lockouts :
      OrdMap String String → List RaidKill → OrdMap String ℤ → List RaidKill
  unfolding same normalize OrdMap.get
  add_lockouts bosses out [] = out
  add_lockouts bosses out ((target, kill_ms) ∷ lockouts) =
      add_lockouts bosses
        (if any (λ k. same (normalize k.target) target) out
          then out
          else elim (OrdMap.get bosses target) [
            | none ↦ out
            | some short ↦
                out
                ++ record {
                  target = target;
                  name = short;
                  killed_ms = kill_ms;
                  evidence = KillEvidence.lockout;
                }
                  ∷ []
          ])
        lockouts

  unfoldable pub kills :
      List TargetDamage
      → OrdMap String ℤ
      → OrdMap String (List ℤ)
      → OrdMap String String
      → List RaidKill
  unfolding death_kills boss_hits hit_kill add_lockouts OrdMap.contains_key normalize sort_by
  kills rows lockouts deaths bosses =
      let living =
        keep (λ h. not (OrdMap.contains_key deaths (normalize h.target))) (boss_hits rows bosses) in
      let out = death_kills deaths bosses ++ map (hit_kill lockouts) living in
      sort_by (λ a b. leb_ℤ a.killed_ms b.killed_ms) (add_lockouts bosses out lockouts)
