-- ===== src/Invariant/Raids.antt =====
-- One raid at a time: apply.rs and decide.rs of crates/nocturnal-core/src.
use nocturnal_discord.Prelude.{
  ◌≡◌, subst⁻¹, Bool, true, false, Option, none, some, List, String, arith, Option-cases, inl, inr,
}
use nocturnal_discord.State.{GuildState, Raid}
use nocturnal_discord.Prelude.Int.{ℤ}
use nocturnal_discord.Prelude.OrdMap
use nocturnal_discord.Prelude.OrdMap.{text_key, nat_key}
use nocturnal_discord.Event.{Event, Actor, PlayerId, ProfileSource}
use nocturnal_discord.Platform.{Platform}
use nocturnal_discord.Command.{Command, Ctx}
use nocturnal_discord.Reject.{ok}
use nocturnal_discord.Decide.Step.{decide_guild}
use nocturnal_discord.Contract.Guard.{Guard, apply_all}
use nocturnal_discord.Contract.Whole.{decision-keeps}
use nocturnal_discord.Apply.Step.{apply_event}
use nocturnal_discord.Apply.Raids.{
  award, attend, raid_started, raid_ended, leave, raid_merged, absorb, raid_kills_recorded,
  raid_renamed, raid_imported,
}
use nocturnal_discord.Apply.Players.{character_linked, player_imported, dkp_adjusted}
use nocturnal_discord.Apply.Auctions.{
  auction_opened, bid_placed, bid_retracted, auction_closed, auction_finalized, auction_rolled,
  auction_roll_off, auction_cancelled,
}
use nocturnal_discord.Apply.Roster.{
  config_updated, telemetry_token_issued, telemetry_access_updated, telemetry_token_revoked,
  roster_character_set, roster_profile_uploaded, roster_character_removed,
}

abbrev pub is_active : Option Raid → Bool
is_active none = false
is_active (some r) = r.active

-- A raid that is active is the active raid; so there is one at most.
abbrev pub OneActive : GuildState → Type 0
OneActive g = (id : String) → is_active (OrdMap.get g.raids id) ≡ true → g.active_raid ≡ some id

module _ (p : Platform) (g : GuildState) (ts : ℤ) (actor : Actor) where
  abbrev Fits : Option String → String → Option Raid → Type 0
  Fits active id o = is_active o ≡ true → active ≡ some id

  raid_merged-OneActive :
      (a b : String)
      → Guard p g ts (Event.raid_merged a b)
      → OneActive g
      → OneActive (raid_merged g a b)
  unfolding raid_merged absorb leave
  raid_merged-OneActive a b h v id = elim (Option-cases (OrdMap.get g.raids a)) [
    | inl e ↦ rw (e, raid_merged) (v id)
    | inr (src, e) ↦
        rw (e, raid_merged)
          (elim (Option-cases (OrdMap.get (OrdMap.remove g.raids a) b)) [
            | inl e' ↦
                rw (e', raid_merged)
                  (subst⁻¹ (Fits g.active_raid id)
                    (OrdMap.get-insert (OrdMap.remove g.raids a) a id src)
                    (ground (arith, v id, OrdMap.get-remove g.raids a id, OrdMap.same_iff a id)))
            | inr (dst, e') ↦
                rw (e', raid_merged)
                  (subst⁻¹ (Fits (leave g.active_raid a) id)
                    (OrdMap.get-modify (OrdMap.remove g.raids a) b id _)
                    (ground (
                      arith,
                      v id,
                      v b,
                      OrdMap.get-remove g.raids a id,
                      OrdMap.get-remove g.raids a b,
                      OrdMap.same_iff a id,
                      OrdMap.same_iff id a,
                      OrdMap.same_iff b id,
                    )))
          ])
  ]

  raid_renamed-OneActive : (a b : String) → OneActive g → OneActive (raid_renamed g a b)
  unfolding raid_renamed
  raid_renamed-OneActive a b v id = elim (Option-cases (OrdMap.get g.raids a)) [
    | inl e ↦ rw (e, raid_renamed) (v id)
    | inr (r, e) ↦
        rw (e, raid_renamed)
          (subst⁻¹ (Fits g.active_raid id) (OrdMap.get-modify g.raids a id _)
            (ground (arith, v id, OrdMap.same_iff a id)))
  ]

  roster_profile_uploaded-OneActive :
      (a : PlayerId) (b : String) (c : ProfileSource) (d : String) (e : ℤ)
      → OneActive g
      → OneActive (roster_profile_uploaded p g a b c d e)
  unfolding roster_profile_uploaded
  roster_profile_uploaded-OneActive a b c d e v id = ground (arith, v id)

  roster_character_removed-OneActive :
      (a : PlayerId) (b : String) → OneActive g → OneActive (roster_character_removed p g a b)
  unfolding roster_character_removed
  roster_character_removed-OneActive a b v id = ground (arith, v id)

  -- A guarded event leaves at most one raid active, and that one is the guild's active raid.
  pub apply_event-OneActive :
      (e : Event) → Guard p g ts e → OneActive g → OneActive (apply_event p g ts actor e)
  unfolding apply_event auction_opened bid_placed bid_retracted auction_closed auction_finalized
      auction_rolled auction_roll_off auction_cancelled award attend raid_started raid_ended leave
      raid_kills_recorded raid_imported character_linked player_imported dkp_adjusted config_updated
      telemetry_token_issued telemetry_access_updated telemetry_token_revoked roster_character_set
  apply_event-OneActive (Event.raid_started a b c d e) h v id =
      subst⁻¹ (Fits (some a) id) (OrdMap.get-insert g.raids a id _)
        (ground (arith, v id, OrdMap.same_iff a id))
  apply_event-OneActive (Event.raid_awarded a b c d) h v id =
      subst⁻¹ (Fits g.active_raid id) (OrdMap.get-modify g.raids a id _)
        (ground (arith, v id, OrdMap.same_iff a id))
  apply_event-OneActive (Event.raid_ticked a b c d) h v id =
      subst⁻¹ (Fits g.active_raid id) (OrdMap.get-modify g.raids a id _)
        (ground (arith, v id, OrdMap.same_iff a id))
  apply_event-OneActive (Event.raid_ended a b) h v id =
      subst⁻¹ (Fits (leave g.active_raid a) id) (OrdMap.get-modify g.raids a id _)
        (ground (arith, v id, OrdMap.same_iff a id))
  apply_event-OneActive (Event.raid_kills_recorded a b) h v id =
      subst⁻¹ (Fits g.active_raid id) (OrdMap.get-modify g.raids a id _)
        (ground (arith, v id, OrdMap.same_iff a id))
  apply_event-OneActive (Event.raid_imported r) h v id =
      subst⁻¹ (Fits g.active_raid id) (OrdMap.get-insert g.raids r.raid_id id _)
        (ground (arith, v id, OrdMap.same_iff r.raid_id id))
  apply_event-OneActive (Event.raid_merged a b) h v id = raid_merged-OneActive a b h v id
  apply_event-OneActive (Event.raid_renamed a b) h v id = raid_renamed-OneActive a b v id
  apply_event-OneActive (Event.roster_character_removed a b) h v id =
      roster_character_removed-OneActive a b v id
  apply_event-OneActive (Event.roster_profile_uploaded a b c d e) h v id =
      roster_profile_uploaded-OneActive a b c d e v id
  apply_event-OneActive _ h v id = v id

-- Every accepted command keeps the guild at one active raid at most: the one that it names as such.
pub decision-OneActive :
    (p : Platform) (g : GuildState) (ctx : Ctx) (cmd : Command) (es : List Event)
    → decide_guild p g ctx cmd ≡ ok es
    → OneActive g
    → OneActive (apply_all p g ctx.now_ms ctx.actor es)
decision-OneActive p = decision-keeps p {P = OneActive} (apply_event-OneActive p)
