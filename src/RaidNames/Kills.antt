-- ===== src/RaidNames/Kills.antt =====
-- What the kill list of a raid holds, and what the ledger makes of it: crates/nocturnal/src/
-- raid_names.rs and crates/nocturnal-core/src/decide.rs.
use nocturnal_discord.Prelude.{
  ◌≡◌, refl, ap, ◌∙◌, Bool, true, false, not, Option, none, some, List, [], ◌∷◌, ◌++◌, map, String,
  if◌then◌else◌, arith,
}
use nocturnal_discord.Prelude.Int.{ℤ, leb_ℤ, eqb_refl}
use nocturnal_discord.Prelude.Lists.{any, keep, is_nil, sort_by, keep-append}
use nocturnal_discord.Prelude.Sorted.{keep-sort_by, sort_by-Sorted, sort_by_self}
use nocturnal_discord.Prelude.Text.{trim, is_empty}
use nocturnal_discord.Prelude.OrdMap
use nocturnal_discord.Prelude.OrdMap.{OrdMap, same, same_refl, text_key}
use nocturnal_discord.Event.{RaidKill, KillEvidence}
use nocturnal_discord.Platform.{Platform}
use nocturnal_discord.Reject.{Rejection, err}
use nocturnal_discord.State.{GuildState, Raid}
use nocturnal_discord.Decide.Raids.{
  decide_record_raid_kills, equal_kills, same_evidence, sort_kills,
}
use nocturnal_discord.Apply.Raids.{raid_kills_recorded}
use mathlib.Core.List.{append-nil}
use nocturnal_discord.RaidNames.{
  Share, TargetDamage, BossHit, normalize, boss_hits, deaths_of, death_kills, hit_kill,
  add_lockouts, kills,
}

abbrev pub is_death : RaidKill → Bool
is_death k = elim k.evidence [ KillEvidence.death ↦ true | _ ↦ false ]

abbrev pub time : RaidKill → ℤ
time k = k.killed_ms

module _ (p : Platform) (q : Share) where
  keep-deaths_of :
      (target short : String) (times : List ℤ)
      → keep is_death (deaths_of p q target short times) ≡ deaths_of p q target short times
  unfolding deaths_of
  keep-deaths_of target short [] = refl
  keep-deaths_of target short (t ∷ ts) = cc (keep-deaths_of target short ts)

  keep-death_kills :
      (deaths : OrdMap String (List ℤ)) (bosses : OrdMap String String)
      → keep is_death (death_kills p q deaths bosses) ≡ death_kills p q deaths bosses
  unfolding death_kills
  keep-death_kills [] bosses = refl
  keep-death_kills ((target, times) ∷ deaths) bosses =
      pick (OrdMap.get bosses target) (keep-death_kills deaths bosses)
    where
      pick :
          (o : Option String)
          → keep is_death (death_kills p q deaths bosses) ≡ death_kills p q deaths bosses
          → keep is_death (elim o [
            | none ↦ death_kills p q deaths bosses
            | some short ↦ deaths_of p q target short times ++ death_kills p q deaths bosses
          ])
            ≡ elim o [
              | none ↦ death_kills p q deaths bosses
              | some short ↦ deaths_of p q target short times ++ death_kills p q deaths bosses
            ]
      pick none e = e
      pick (some short) e =
          keep-append is_death (deaths_of p q target short times) (death_kills p q deaths bosses)
          ∙ rw (keep-deaths_of target short times, e) refl

  hit_kill-living :
      (lockouts : OrdMap String ℤ) (h : BossHit) → is_death (hit_kill p q lockouts h) ≡ false
  unfolding hit_kill
  hit_kill-living lockouts h = ground arith

  keep-hit_kill :
      (lockouts : OrdMap String ℤ) (hs : List BossHit)
      → keep is_death (map (hit_kill p q lockouts) hs) ≡ []
  keep-hit_kill lockouts [] = refl
  keep-hit_kill lockouts (h ∷ hs) = rw (hit_kill-living lockouts h) (keep-hit_kill lockouts hs)

  keep-add_lockouts :
      (bosses : OrdMap String String) (lockouts : OrdMap String ℤ) (out : List RaidKill)
      → keep is_death (add_lockouts p q bosses out lockouts) ≡ keep is_death out
  unfolding add_lockouts
  keep-add_lockouts bosses [] out = refl
  keep-add_lockouts bosses ((target, kill_ms) ∷ lockouts) out =
      keep-add_lockouts bosses lockouts _
      ∙ one (any (λ k. same (normalize p q k.target) target) out) (OrdMap.get bosses target)
    where
      one :
          (b : Bool) (o : Option String)
          → keep is_death (
              if b then out else elim o [
                | none ↦ out
                | some short ↦
                    out
                    ++ record {
                      target = target;
                      name = short;
                      killed_ms = kill_ms;
                      evidence = KillEvidence.lockout;
                    }
                      ∷ []
              ])
            ≡ keep is_death out
      one true o = refl
      one false none = refl
      one false (some short) = keep-append is_death out _ ∙ append-nil (keep is_death out)

  abbrev living : List TargetDamage → OrdMap String (List ℤ) → OrdMap String String → List BossHit
  living rows deaths bosses =
      keep (λ h. not (OrdMap.contains_key deaths (normalize p q h.target)))
        (boss_hits p q rows bosses)

  abbrev pub unsorted :
      List TargetDamage
      → OrdMap String ℤ
      → OrdMap String (List ℤ)
      → OrdMap String String
      → List RaidKill
  unsorted rows lockouts deaths bosses =
      add_lockouts p q bosses
        (death_kills p q deaths bosses ++ map (hit_kill p q lockouts) (living rows deaths bosses))
        lockouts

  -- Of the three sources only the deaths give kills by death, and the sort keeps their order.
  pub keep-kills :
      (rows : List TargetDamage) (lockouts : OrdMap String ℤ) (deaths : OrdMap String (List ℤ))
      (bosses : OrdMap String String)
      → keep is_death (kills p q rows lockouts deaths bosses)
        ≡ sort_by (λ a b. leb_ℤ a.killed_ms b.killed_ms) (death_kills p q deaths bosses)
  unfolding kills
  keep-kills rows lockouts deaths bosses =
      keep-sort_by time is_death (unsorted rows lockouts deaths bosses)
      ∙ ap (sort_by (λ a b. leb_ℤ a.killed_ms b.killed_ms)) (
          keep-add_lockouts bosses lockouts (
            death_kills p q deaths bosses
            ++ map (hit_kill p q lockouts) (living rows deaths bosses))
          ∙ keep-append is_death (death_kills p q deaths bosses)
              (map (hit_kill p q lockouts) (living rows deaths bosses))
          ∙ both deaths bosses (keep-hit_kill lockouts (living rows deaths bosses)))
    where
      both :
          (ds : OrdMap String (List ℤ)) (bs : OrdMap String String) {xs : List RaidKill}
          → xs ≡ []
          → keep is_death (death_kills p q ds bs) ++ xs ≡ death_kills p q ds bs
      both ds bs e = rw (keep-death_kills ds bs, e) (append-nil (death_kills p q ds bs))

  kills-sorted :
      (rows : List TargetDamage) (lockouts : OrdMap String ℤ) (deaths : OrdMap String (List ℤ))
      (bosses : OrdMap String String)
      → sort_kills (kills p q rows lockouts deaths bosses) ≡ kills p q rows lockouts deaths bosses
  unfolding kills sort_kills
  kills-sorted rows lockouts deaths bosses =
      let all = unsorted rows lockouts deaths bosses in
      sort_by_self time (sort_by (λ a b. leb_ℤ a.killed_ms b.killed_ms) all)
        (sort_by-Sorted time all)

same_evidence_refl : (e : KillEvidence) → same_evidence e e ≡ true
unfolding same_evidence
same_evidence_refl KillEvidence.death = refl
same_evidence_refl KillEvidence.lockout = refl
same_evidence_refl KillEvidence.damage = refl

equal_kills_refl : (ks : List RaidKill) → equal_kills ks ks ≡ true
unfolding equal_kills
equal_kills_refl [] = refl
equal_kills_refl (k ∷ ks) =
    rw (same_refl k.target, same_refl k.name, eqb_refl k.killed_ms, same_evidence_refl k.evidence)
      (equal_kills_refl ks)

-- The kill list that the bot makes of a raid is recorded once: where it is a list that can be
-- recorded, of a raid that the guild has, the ledger that has recorded it refuses the same list,
-- since the list comes in the order in which it is stored.
pub decide_record_raid_kills-kills :
    (p : Platform) (q : Share) (g : GuildState) (raid_id : String) (raid : Raid)
    (rows : List TargetDamage) (lockouts : OrdMap String ℤ) (deaths : OrdMap String (List ℤ))
    (bosses : OrdMap String String)
    → OrdMap.get g.raids raid_id ≡ some raid
    → is_nil (kills p q rows lockouts deaths bosses) ≡ false
    → any (λ k. is_empty (trim k.target)) (kills p q rows lockouts deaths bosses) ≡ false
    → decide_record_raid_kills
        (raid_kills_recorded g raid_id (sort_kills (kills p q rows lockouts deaths bosses)))
        raid_id
        (kills p q rows lockouts deaths bosses)
      ≡ err Rejection.nothing_to_record
unfolding decide_record_raid_kills raid_kills_recorded
decide_record_raid_kills-kills p q g raid_id raid rows lockouts deaths bosses e some_kill named =
    rw
      (
        kills-sorted p q rows lockouts deaths bosses,
        OrdMap.get-modify g.raids raid_id raid_id
            (λ r. record r { kills = kills p q rows lockouts deaths bosses }),
        same_refl raid_id,
        e,
        some_kill,
        named,
        equal_kills_refl (kills p q rows lockouts deaths bosses),
      )
      refl
