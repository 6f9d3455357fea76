-- ===== src/Contract/Raids.antt =====
-- The decisions on players and raids meet the guards: crates/nocturnal-core/src/decide.rs.
use nocturnal_discord.Prelude.{◌≡◌, ◌≢◌, false, Option, List, [], ◌∷◌, arith, String}
use nocturnal_discord.Prelude.Int.{ℤ, leb_ℤ}
use nocturnal_discord.Prelude.Lists.{any, All, is_nil, insert_by, sort_by, All-sort_by}
use nocturnal_discord.Prelude.OrdMap
use nocturnal_discord.Prelude.OrdMap.{nat_key, text_key}
use nocturnal_discord.Prelude.Text.{trim, is_empty}
use nocturnal_discord.Event.{Event, PlayerId, Item, RaidKill, Actor, ImportedPlayer, ImportedRaid}
use nocturnal_discord.Platform.{Platform}
use nocturnal_discord.Reject.{ok}
use nocturnal_discord.State.{GuildState, Raid}
use nocturnal_discord.Contract.Guard.{On, Guards}
use nocturnal_discord.Decide.Raids.{
  decide_adjust_dkp, decide_start_raid, decide_tick, decide_award_raid, decide_end_raid,
  decide_merge_raid, decide_record_raid_kills, decide_rename_raid, decide_import_player,
  decide_import_raid, sort_kills, decide_link_character, decide_adjust_by_character,
}
use nocturnal_discord.Apply.Raids.{award, raid_started}
use nocturnal_discord.Apply.Step.{apply_event}

named_kills :
    (kills : List RaidKill)
    → any (λ (k : RaidKill). is_empty (trim k.target)) kills ≡ false
    → All (λ (k : RaidKill). is_empty (trim k.target) ≡ false) (sort_kills kills)
unfolding sort_kills
named_kills kills h =
    All-sort_by (λ (k : RaidKill). is_empty (trim k.target) ≡ false)
      (λ a b. leb_ℤ a.killed_ms b.killed_ms) kills (each kills h)
  where
    each :
        (ks : List RaidKill)
        → any (λ (k : RaidKill). is_empty (trim k.target)) ks ≡ false
        → All (λ (k : RaidKill). is_empty (trim k.target) ≡ false) ks
    each [] e = tt
    each (k ∷ ks) e = (ground arith, each ks (ground arith))

sort_kills-some : (kills : List RaidKill) → is_nil kills ≡ false → sort_kills kills ≢ []
unfolding sort_kills sort_by insert_by
sort_kills-some [] h e = cc
sort_kills-some (k ∷ ks) h e = inserted (sort_by (λ a b. leb_ℤ a.killed_ms b.killed_ms) ks) e
  where
    inserted : (xs : List RaidKill) → insert_by (λ a b. leb_ℤ a.killed_ms b.killed_ms) k xs ≢ []
    inserted [] e' = cc
    inserted (x ∷ xs) e' = ground arith

record_kills-eq :
    (g : GuildState) (id : String) (kills : List RaidKill) (es : List Event)
    → decide_record_raid_kills g id kills ≡ ok es
    → On (OrdMap.get g.raids id) (λ (r : Raid). Unit {0})
      × (is_nil kills ≡ false)
      × (any (λ (k : RaidKill). is_empty (trim k.target)) kills ≡ false)
      × (Event.raid_kills_recorded id (sort_kills kills) ∷ [] ≡ es)
unfolding decide_record_raid_kills
record_kills-eq g id kills es h = ground arith

module _ (p : Platform) (g : GuildState) (now_ms : ℤ) (actor : Actor) where
  pub adjust_dkp-Guards :
      (player : PlayerId) (delta : ℤ) (comment : String) (item : Option Item) (es : List Event)
      → decide_adjust_dkp g player delta comment item ≡ ok es
      → Guards p g now_ms actor es
  unfolding decide_adjust_dkp
  adjust_dkp-Guards player delta comment item es h = ground arith

  pub tick-Guards :
      (players : List PlayerId) (es : List Event)
      → decide_tick g now_ms players ≡ ok es
      → Guards p g now_ms actor es
  unfolding decide_tick
  tick-Guards players es h = ground arith

  pub start_raid-Guards :
      (id name : String) (interval dkp : ℤ) (players : List PlayerId) (event_id : Option String)
      (es : List Event)
      → decide_start_raid g id name interval dkp players event_id ≡ ok es
      → Guards p g now_ms actor es
  unfolding decide_start_raid raid_started apply_event
  start_raid-Guards id name interval dkp players event_id es h = ground arith

  pub award_raid-Guards :
      (players : List PlayerId) (amount : ℤ) (comment : String) (es : List Event)
      → decide_award_raid g players amount comment ≡ ok es
      → Guards p g now_ms actor es
  unfolding decide_award_raid
  award_raid-Guards players amount comment es h = ground arith

  pub end_raid-Guards :
      (players : List PlayerId) (reason : String) (es : List Event)
      → decide_end_raid g players reason ≡ ok es
      → Guards p g now_ms actor es
  unfolding decide_end_raid award apply_event
  end_raid-Guards players reason es h = ground arith

  pub merge_raid-Guards :
      (from_id into_id : String) (es : List Event)
      → decide_merge_raid g from_id into_id ≡ ok es
      → Guards p g now_ms actor es
  unfolding decide_merge_raid
  merge_raid-Guards from_id into_id es h = ground arith

  pub record_raid_kills-Guards :
      (id : String) (kills : List RaidKill) (es : List Event)
      → decide_record_raid_kills g id kills ≡ ok es
      → Guards p g now_ms actor es
  record_raid_kills-Guards id kills es h =
      let (found, nonempty, named, same) = record_kills-eq g id kills es h in
      rw (← same) ((sort_kills-some kills nonempty, named_kills kills named, found), tt)

  pub rename_raid-Guards :
      (id name : String) (es : List Event)
      → decide_rename_raid g id name ≡ ok es
      → Guards p g now_ms actor es
  unfolding decide_rename_raid
  rename_raid-Guards id name es h = ground arith

  pub link_character-Guards :
      (player : PlayerId) (character : String) (es : List Event)
      → decide_link_character p g player character ≡ ok es
      → Guards p g now_ms actor es
  unfolding decide_link_character OrdMap.contains_key
  link_character-Guards player character es h = ground arith

  pub adjust_by_character-Guards :
      (character : String) (delta : ℤ) (comment : String) (es : List Event)
      → decide_adjust_by_character p g character delta comment ≡ ok es
      → Guards p g now_ms actor es
  unfolding decide_adjust_by_character decide_adjust_dkp
  adjust_by_character-Guards character delta comment es h = ground arith

  pub import_player-Guards :
      (i : ImportedPlayer) (es : List Event)
      → decide_import_player i ≡ ok es
      → Guards p g now_ms actor es
  unfolding decide_import_player
  import_player-Guards i es h = ground arith

  pub import_raid-Guards :
      (r : ImportedRaid) (es : List Event)
      → decide_import_raid r ≡ ok es
      → Guards p g now_ms actor es
  unfolding decide_import_raid
  import_raid-Guards r es h = ground arith
