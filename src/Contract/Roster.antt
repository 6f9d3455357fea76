-- ===== src/Contract/Roster.antt =====
-- The decisions on the roster, access and configuration meet the guards: crates/nocturnal-core/src/decide.rs.
use nocturnal_discord.Prelude.{
  ◌≤◌, ◌≡◌, ltb, Bool, true, false, Option, none, some, List, [], ◌∷◌, ◌++◌, arith, Bool-cases, not,
  ◌&&◌, if◌then◌else◌, inl, inr, String,
}
use nocturnal_discord.Prelude.Int.{ℤ}
use nocturnal_discord.Prelude.OrdMap
use nocturnal_discord.Prelude.OrdMap.{OrdMap, nat_key, text_key, same}
use nocturnal_discord.Event.{
  Event, PlayerId, Actor, ConfigPatch, RosterCharacter, ProfileSource, MainRank,
}
use nocturnal_discord.Platform.{Platform}
use nocturnal_discord.Reject.{Rejection, ok, ◌>>=◌, ok_or}
use nocturnal_discord.State.{GuildState}
use Prim.Native.String.{len}
use nocturnal_discord.Contract.Guard.{On, Guards}
use nocturnal_discord.Decide.Config.{decide_update_config, validate_config}
use nocturnal_discord.Contract.Settings.{both_passed, last_passed, validate_config-Settings}
use nocturnal_discord.Decide.Roster.{
  decide_set_roster_character, decide_rank_roster_character, decide_upload_roster_profile,
  decide_remove_roster_character, decide_issue_token, decide_refresh_access, decide_revoke_token,
}
use nocturnal_discord.Decide.Roster.{demotions, is_main, roster_entry, validate_profile_body}

module _ (p : Platform) (g : GuildState) (now_ms : ℤ) (actor : Actor) where
  pub issue_token-Guards :
      (username token_fp role : String) (es : List Event)
      → decide_issue_token g username token_fp role ≡ ok es
      → Guards p g now_ms actor es
  unfolding decide_issue_token
  issue_token-Guards username token_fp role es h = ground arith

  pub refresh_access-Guards :
      (username role : String) (es : List Event)
      → decide_refresh_access g username role ≡ ok es
      → Guards p g now_ms actor es
  unfolding decide_refresh_access
  refresh_access-Guards username role es h = ground arith

  pub revoke_token-Guards :
      (username : String) (es : List Event)
      → decide_revoke_token g username ≡ ok es
      → Guards p g now_ms actor es
  unfolding decide_revoke_token
  revoke_token-Guards username es h = ground arith

  pub set_roster_character-Guards :
      (player : PlayerId) (character : RosterCharacter) (replace : Bool) (es : List Event)
      → decide_set_roster_character p g actor player character replace ≡ ok es
      → Guards p g now_ms actor es
  unfolding decide_set_roster_character
  set_roster_character-Guards player character replace es h = ground arith

  entry-On :
      (player : PlayerId) (key : String) (c : RosterCharacter)
      → roster_entry g player key ≡ some c
      → On
          (OrdMap.get g.roster player)
          (λ chars. On (OrdMap.get chars key) (λ (x : RosterCharacter). Unit {0}))
  unfolding roster_entry
  entry-On player key c e = ground arith

  profile_body-le :
      (name body : String) → validate_profile_body p name body ≡ ok tt → len body ≤ 65_536
  unfolding validate_profile_body
  profile_body-le name body h = bound (last_passed _ _ (both_passed _ _ h).0)
    where
      bound : ltb 65_536 (len body) ≡ false → len body ≤ 65_536
      bound e = ground arith

  upload_roster_profile-eq :
      (player : PlayerId) (name : String) (source : ProfileSource) (body : String) (es : List Event)
      → decide_upload_roster_profile p g now_ms player name source body ≡ ok es
      → (c : RosterCharacter) × (roster_entry g player (p.to_lowercase name) ≡ some c)
        × (validate_profile_body p name body ≡ ok tt)
        × (Event.roster_profile_uploaded player name source body now_ms ∷ [] ≡ es)
  unfolding decide_upload_roster_profile
  upload_roster_profile-eq player name source body es h = ground arith

  pub upload_roster_profile-Guards :
      (player : PlayerId) (name : String) (source : ProfileSource) (body : String) (es : List Event)
      → decide_upload_roster_profile p g now_ms player name source body ≡ ok es
      → Guards p g now_ms actor es
  upload_roster_profile-Guards player name source body es h =
      let (c, found, valid, same_events) = upload_roster_profile-eq player name source body es h in
      rw (← same_events)
        ((profile_body-le name body valid, entry-On player (p.to_lowercase name) c found), tt)

  pub remove_roster_character-Guards :
      (player : PlayerId) (name : String) (es : List Event)
      → decide_remove_roster_character p g player name ≡ ok es
      → Guards p g now_ms actor es
  unfolding decide_remove_roster_character roster_entry
  remove_roster_character-Guards player name es h = ground arith

  update_config-eq :
      (patch : ConfigPatch) (es : List Event)
      → decide_update_config g patch ≡ ok es
      → (validate_config g patch ≡ ok tt) × (Event.config_updated patch ∷ [] ≡ es)
  unfolding decide_update_config
  update_config-eq patch es h = ground arith

  pub update_config-Guards :
      (patch : ConfigPatch) (es : List Event)
      → decide_update_config g patch ≡ ok es
      → Guards p g now_ms actor es
  update_config-Guards patch es h =
      let (valid, same_events) = update_config-eq patch es h in
      rw (← same_events) (validate_config-Settings g patch valid, tt)

  demotions-Guards :
      (player : PlayerId) (key : String) (row : OrdMap String RosterCharacter) (es : List Event)
      (g' : GuildState)
      → ((g'' : GuildState) → Guards p g'' now_ms actor es)
      → Guards p g' now_ms actor (demotions p player key row ++ es)
  unfolding demotions
  demotions-Guards player key [] es g' h = h g'
  demotions-Guards player key ((k, other) ∷ row) es g' h =
      elim (Bool-cases (is_main other.main && not (same (p.to_lowercase other.name) key))) [
        | inl e ↦ rw e (tt, demotions-Guards player key row es _ h)
        | inr e ↦ rw e (demotions-Guards player key row es g' h)
      ]

  rank-Guards :
      (player : PlayerId) (key : String) (row : OrdMap String RosterCharacter) (b : Bool)
      (c : RosterCharacter)
      → Guards p g now_ms actor (
          (if b then demotions p player key row else [])
          ++ Event.roster_character_set player c ∷ [])
  rank-Guards player key row true c = demotions-Guards player key row _ g (λ _. (tt, tt))
  rank-Guards player key row false c = (tt, tt)

  pub rank_roster_character-Guards :
      (player : PlayerId) (name : String) (rank : Option MainRank) (es : List Event)
      → decide_rank_roster_character p g player name rank ≡ ok es
      → Guards p g now_ms actor es
  unfolding decide_rank_roster_character
  rank_roster_character-Guards player name rank es h = outer (OrdMap.get g.roster player) h
    where
      key : String
      key = p.to_lowercase name

      rank_events : OrdMap String RosterCharacter → RosterCharacter → List Event
      rank_events row c =
          (if is_main rank then demotions p player key row else [])
          ++ Event.roster_character_set player (record c { main = rank }) ∷ []

      inner :
          (row : OrdMap String RosterCharacter) (o : Option RosterCharacter)
          → (ok_or o (Rejection.roster_character_missing name) >>= λ c. ok (rank_events row c))
            ≡ ok es
          → Guards p g now_ms actor es
      inner row none eq = cc
      inner row (some c) eq =
          let same_events : rank_events row c ≡ es = cc in
          rw (← same_events) (rank-Guards player key row (is_main rank) (record c { main = rank }))

      outer :
          (o : Option (OrdMap String RosterCharacter))
          → (ok_or o (Rejection.roster_character_missing name) >>= λ row.
              ok_or (OrdMap.get row key) (Rejection.roster_character_missing name) >>= λ c.
              ok (rank_events row c))
            ≡ ok es
          → Guards p g now_ms actor es
      outer none eq = cc
      outer (some row) eq = inner row (OrdMap.get row key) eq
