-- ===== src/Decide/Raids.antt =====
-- The decisions on players, DKP and raids of crates/nocturnal-core/src/decide.rs.
use nocturnal_discord.Prelude.{
  ◌+◌, ◌%◌, ◌^◌, Bool, true, false, Option, none, some, List, [], ◌∷◌, String, ◌||◌, ◌&&◌,
}
use nocturnal_discord.Prelude.Int.{ℤ, pos, ltb_ℤ, leb_ℤ, eqb_ℤ, add_i64, neg_i64}
use nocturnal_discord.Prelude.Lists.{any, last?, is_nil, sort_by}
use nocturnal_discord.Prelude.Text.{trim, is_empty}
use nocturnal_discord.Prelude.OrdMap
use nocturnal_discord.Prelude.OrdMap.{same, text_key}
use nocturnal_discord.Event.{
  PlayerId, Event, Item, RaidRef, RaidKill, KillEvidence, ImportedPlayer, ImportedRaid,
}
use nocturnal_discord.Platform.{Platform}
use nocturnal_discord.Reject.{Rejection, Result, ok, err, ◌>>=◌, ◌>>◌, reject_if, ok_or}
use nocturnal_discord.State.{GuildState, Raid, balance}

-- `active_raid_ref`
unfoldable pub active_raid_ref : GuildState → Option RaidRef
active_raid_ref g = elim g.active_raid [
  | none ↦ none
  | some id ↦ elim (OrdMap.get g.raids id) [
    | none ↦ none
    | some raid ↦ some (record { raid_id = id; name = raid.name })
  ]
]

-- `Command::AdjustDkp`
unfoldable pub decide_adjust_dkp :
    GuildState → PlayerId → ℤ → String → Option Item → Result (List Event)
unfolding balance add_i64 neg_i64 active_raid_ref
decide_adjust_dkp g player delta comment item = do
  reject_if (eqb_ℤ delta (pos 0)) Rejection.invalid_amount
  reject_if (ltb_ℤ delta (pos 0) && ltb_ℤ (add_i64 (balance g player) delta) (pos 0))
      (Rejection.insufficient_balance (balance g player) (pos 0) (neg_i64 delta))
  ok (Event.dkp_adjusted player delta comment (active_raid_ref g) item ∷ [])

-- The name of the raid that stands in the way of another.
unfoldable pub active_name : GuildState → String → String
active_name g id = elim (OrdMap.get g.raids id) [ none ↦ "" | some r ↦ r.name ]

-- `Command::StartRaid`
unfoldable pub decide_start_raid :
    GuildState → String → String → ℤ → ℤ → List PlayerId → Option String → Result (List Event)
unfolding active_name
decide_start_raid g raid_id name tick_interval_ms dkp_per_tick players_present event_id =
    elim g.active_raid [
      | some active_id ↦ err (Rejection.raid_already_active (active_name g active_id))
      | none ↦ (do
        reject_if (ltb_ℤ dkp_per_tick (pos 0) || leb_ℤ tick_interval_ms (pos 0))
            Rejection.invalid_amount
        ok (
            Event.raid_started raid_id name tick_interval_ms dkp_per_tick event_id
            ∷ Event.raid_awarded raid_id players_present dkp_per_tick "Start"
            ∷ []))
    ]

-- A tick is not due while the last entry is younger than the interval.
unfoldable pub tick_too_soon : Raid → ℤ → Bool
unfolding add_i64
tick_too_soon raid now_ms = elim (last? raid.entries) [
  | none ↦ false
  | some last ↦ ltb_ℤ now_ms (add_i64 last.ts_ms raid.tick_interval_ms)
]

-- `Command::Tick`
unfoldable pub decide_tick : GuildState → ℤ → List PlayerId → Result (List Event)
unfolding tick_too_soon
decide_tick g now_ms players_present = do
  raid_id ← ok_or g.active_raid Rejection.no_active_raid
  raid ← ok_or (OrdMap.get g.raids raid_id) Rejection.raid_not_found
  reject_if (tick_too_soon raid now_ms) Rejection.tick_too_soon
  ok (
      Event.raid_ticked raid_id ((raid.tick_no + 1) % 2 ^ 32) players_present raid.dkp_per_tick
      ∷ [])

-- `Command::AwardRaid`
unfoldable pub decide_award_raid : GuildState → List PlayerId → ℤ → String → Result (List Event)
decide_award_raid g players amount comment = do
  raid_id ← ok_or g.active_raid Rejection.no_active_raid
  reject_if (ltb_ℤ amount (pos 0)) Rejection.invalid_amount
  ok (Event.raid_awarded raid_id players amount comment ∷ [])

-- `Command::EndRaid`
unfoldable pub decide_end_raid : GuildState → List PlayerId → String → Result (List Event)
decide_end_raid g players_present reason = do
  raid_id ← ok_or g.active_raid Rejection.no_active_raid
  ok (
      Event.raid_awarded raid_id players_present (pos 0) "End"
      ∷ Event.raid_ended raid_id reason
      ∷ [])

-- `Command::MergeRaid`
unfoldable pub decide_merge_raid : GuildState → String → String → Result (List Event)
decide_merge_raid g from_id into_id = do
  reject_if (same from_id into_id) Rejection.same_raid
  src ← ok_or (OrdMap.get g.raids from_id) Rejection.raid_not_found
  dst ← ok_or (OrdMap.get g.raids into_id) Rejection.raid_not_found
  reject_if src.active (Rejection.raid_still_active src.name)
  reject_if dst.active (Rejection.raid_still_active dst.name)
  ok (Event.raid_merged from_id into_id ∷ [])

-- `==` on kill lists
unfoldable pub same_evidence : KillEvidence → KillEvidence → Bool
same_evidence KillEvidence.death KillEvidence.death = true
same_evidence KillEvidence.lockout KillEvidence.lockout = true
same_evidence KillEvidence.damage KillEvidence.damage = true
same_evidence _ _ = false

unfoldable pub equal_kills : List RaidKill → List RaidKill → Bool
unfolding same_evidence
equal_kills [] [] = true
equal_kills (a ∷ as') (b ∷ bs) =
    same a.target b.target
    && same a.name b.name
    && eqb_ℤ a.killed_ms b.killed_ms
    && same_evidence a.evidence b.evidence
    && equal_kills as' bs
equal_kills _ _ = false

unfoldable pub sort_kills : List RaidKill → List RaidKill
unfolding sort_by
sort_kills = sort_by (λ a b. leb_ℤ a.killed_ms b.killed_ms)

-- `Command::RecordRaidKills`
unfoldable pub decide_record_raid_kills : GuildState → String → List RaidKill → Result (List Event)
unfolding equal_kills sort_kills trim is_empty
decide_record_raid_kills g raid_id kills = do
  raid ← ok_or (OrdMap.get g.raids raid_id) Rejection.raid_not_found
  reject_if (is_nil kills || any (λ k. is_empty (trim k.target)) kills) Rejection.empty_name
  reject_if (equal_kills raid.kills kills) Rejection.nothing_to_record
  ok (Event.raid_kills_recorded raid_id (sort_kills kills) ∷ [])

-- `Command::RenameRaid`
unfoldable pub decide_rename_raid : GuildState → String → String → Result (List Event)
unfolding trim is_empty
decide_rename_raid g raid_id name = do
  reject_if (is_empty (trim name)) Rejection.empty_name
  _ ← ok_or (OrdMap.get g.raids raid_id) Rejection.raid_not_found
  ok (Event.raid_renamed raid_id (trim name) ∷ [])

-- `Command::ImportPlayer`, `Command::ImportRaid`
unfoldable pub decide_import_player : ImportedPlayer → Result (List Event)
decide_import_player i = ok (Event.player_imported i ∷ [])

unfoldable pub decide_import_raid : ImportedRaid → Result (List Event)
decide_import_raid r = ok (Event.raid_imported r ∷ [])

module _ (p : Platform) where
  -- `Command::LinkCharacter`
  unfoldable pub decide_link_character : GuildState → PlayerId → String → Result (List Event)
  decide_link_character g player character = do
    reject_if (OrdMap.contains_key g.characters (p.to_lowercase character))
        (Rejection.character_already_registered character)
    ok (Event.character_linked player character ∷ [])

  -- `Command::AdjustByCharacter`
  unfoldable pub decide_adjust_by_character : GuildState → String → ℤ → String → Result (List Event)
  decide_adjust_by_character g character delta comment = do
    player ←
        ok_or (OrdMap.get g.characters (p.to_lowercase character))
          (Rejection.character_not_registered character)
    decide_adjust_dkp g player delta comment none
