-- ===== src/Contract/Guard.antt =====
-- The guard of each event: what holds of the guild in which the event is applied.
use nocturnal_discord.Prelude.{
  ◌+◌, ◌%◌, ◌^◌, ◌<◌, ◌≤◌, ◌≡◌, ◌≢◌, ◌⊎◌, true, false, Option, none, some, List, [], ◌∷◌, ◌==◌,
}
use nocturnal_discord.Prelude.Int.{ℤ, pos, ◌≤ℤ◌, ◌<ℤ◌, add_i64, sub_i64}
use nocturnal_discord.Prelude.Lists.{find, any, All}
use nocturnal_discord.Prelude.Text.{trim, is_empty}
use nocturnal_discord.Prelude.OrdMap
use nocturnal_discord.Prelude.OrdMap.{same, nat_key, text_key}
use nocturnal_discord.Event.{Event, Roll, Actor, PlayerId, Winner, RaidKill, RosterCharacter}
use nocturnal_discord.Platform.{Platform}
use nocturnal_discord.State.{
  GuildState, Raid, Auction, Player, is_opened, is_closed, is_roll, balance, committed_elsewhere,
  tie_break_seed,
}
use nocturnal_discord.Apply.Step.{apply_event}
use nocturnal_discord.Auction.Rng.{d100}
use nocturnal_discord.Decide.Raids.{tick_too_soon}
use nocturnal_discord.Decide.Winners.{compute_winners}
use nocturnal_discord.Decide.Winners.{compute_roll_winners}
use nocturnal_discord.Contract.Settings.{Settings}
use Prim.Native.String.{len}

-- The value is there, and has the property.
abbrev pub On {ℓ} : {A : Type ℓ} → Option A → (A → Type 0) → Type 0
On none P = ⊥
On (some a) P = P a

-- On an auction for one voice channel a player of the snapshot, where the auction has one.
abbrev pub MayRoll : Auction → PlayerId → Type 0
MayRoll a player = elim a.voice_channel [
  | none ↦ Unit
  | some channel ↦ elim a.rollers [
    | none ↦ Unit
    | some rollers ↦ any (λ (q : PlayerId). q == player) rollers ≡ true
  ]
]

module _ (p : Platform) where
  abbrev pub Guard : GuildState → ℤ → Event → Type 0
  Guard g now_ms (Event.dkp_adjusted player delta comment raid item) =
      (delta ≢ pos 0) × (delta <ℤ pos 0 → pos 0 ≤ℤ add_i64 (balance g player) delta)
  Guard g now_ms (Event.raid_started id name interval dkp event_id) =
      (g.active_raid ≡ none) × (pos 0 <ℤ interval) × (pos 0 ≤ℤ dkp)
  Guard g now_ms (Event.raid_awarded id players amount comment) =
      (g.active_raid ≡ some id) × (pos 0 ≤ℤ amount)
  Guard g now_ms (Event.raid_ticked id tick_no players amount) =
      (g.active_raid ≡ some id)
      × On (OrdMap.get g.raids id) (λ (r : Raid).
        (tick_no ≡ (r.tick_no + 1) % 2 ^ 32)
        × (amount ≡ r.dkp_per_tick)
        × (tick_too_soon r now_ms ≡ false))
  Guard g now_ms (Event.raid_ended id reason) = g.active_raid ≡ some id
  Guard g now_ms (Event.raid_merged from_id into_id) =
      (same from_id into_id ≡ false)
      × On (OrdMap.get g.raids from_id) (λ (r : Raid). r.active ≡ false)
      × On (OrdMap.get g.raids into_id) (λ (r : Raid). r.active ≡ false)
  Guard g now_ms (Event.raid_renamed id name) =
      (is_empty name ≡ false) × On (OrdMap.get g.raids id) (λ (r : Raid). Unit {0})
  Guard g now_ms (Event.raid_kills_recorded id kills) =
      (kills ≢ [])
      × All (λ (k : RaidKill). is_empty (trim k.target) ≡ false) kills
      × On (OrdMap.get g.raids id) (λ (r : Raid). Unit {0})
  Guard g now_ms (Event.character_linked player character) =
      OrdMap.get g.characters (p.to_lowercase character) ≡ none
  Guard g now_ms (Event.roster_profile_uploaded player name source body uploaded_ms) =
      (len body ≤ 65_536)
      × On (OrdMap.get g.roster player)
          (λ chars. On (OrdMap.get chars (p.to_lowercase name)) (λ (c : RosterCharacter). Unit {0}))
  Guard g now_ms (Event.roster_character_removed player name) =
      On (OrdMap.get g.roster player)
        (λ chars. On (OrdMap.get chars (p.to_lowercase name)) (λ (c : RosterCharacter). Unit {0}))
  Guard g now_ms (Event.auction_opened o) =
      (OrdMap.get g.auctions o.auction_id ≡ none)
      × (0 < o.num_items)
      × (pos 0 ≤ℤ o.min_bid)
      × (pos 0 ≤ℤ o.roll_cost)
  Guard g now_ms (Event.bid_placed b) =
      On (OrdMap.get g.auctions b.auction_id) (λ (a : Auction).
        (is_opened a.status ≡ true)
        × (is_roll a.flavor ≡ false)
        × (pos 0 <ℤ b.amount)
        × (a.min_bid ≤ℤ b.amount))
      × On (OrdMap.get g.players b.player) (λ (q : Player).
        b.amount ≤ℤ sub_i64 q.balance (committed_elsewhere g b.player b.auction_id))
  Guard g now_ms (Event.bid_retracted id player) =
      On (OrdMap.get g.auctions id) (λ (a : Auction). is_opened a.status ≡ true)
  Guard g now_ms (Event.auction_closed id ended seed) =
      On (OrdMap.get g.auctions id) (λ (a : Auction). is_opened a.status ≡ true)
  Guard g now_ms (Event.auction_finalized id ws seed) =
      On (OrdMap.get g.auctions id) (λ (a : Auction).
        (is_closed a.status ≡ true)
        × (seed ≡ tie_break_seed a)
        × (compute_winners p g id seed ≡ some ws))
  Guard g now_ms (Event.auction_cancelled id reason) =
      On (OrdMap.get g.auctions id)
        (λ (a : Auction). (is_opened a.status ≡ true) ⊎ (is_closed a.status ≡ true))
  Guard g now_ms (Event.auction_rolled id player rolled seed) =
      On (OrdMap.get g.auctions id) (λ (a : Auction).
        (is_opened a.status ≡ true)
        × (is_roll a.flavor ≡ true)
        × (find (λ (r : Roll). r.player == player) a.rolls ≡ none)
        × (rolled ≡ (d100 seed).0)
        × MayRoll a player
        × On (OrdMap.get g.players player) (λ (q : Player).
          pos 0 <ℤ a.roll_cost
          → a.roll_cost ≤ℤ sub_i64 q.balance (committed_elsewhere g player id)))
  Guard g now_ms (Event.auction_roll_off id rounds) =
      On (OrdMap.get g.auctions id) (λ (a : Auction).
        (is_closed a.status ≡ true)
        × (is_roll a.flavor ≡ true)
        × ((ws : List Winner) × (compute_roll_winners g id (tie_break_seed a) ≡ some (ws, rounds))))
  Guard g now_ms (Event.config_updated patch) = Settings g patch
  Guard g now_ms (Event.telemetry_token_issued username token_fp role) =
      OrdMap.contains_key g.telemetry username ≡ false
  Guard g now_ms (Event.telemetry_access_updated username role) =
      OrdMap.contains_key g.telemetry username ≡ true
  Guard g now_ms (Event.telemetry_token_revoked username) =
      OrdMap.contains_key g.telemetry username ≡ true
  Guard g now_ms _ = Unit

  -- The events of one decision, applied in order.
  unfoldable pub apply_all : GuildState → ℤ → Actor → List Event → GuildState
  unfolding apply_event
  apply_all g ts actor [] = g
  apply_all g ts actor (e ∷ es) = apply_all (apply_event p g ts actor e) ts actor es

  -- Each event's guard holds where the event is applied.
  abbrev pub Guards : GuildState → ℤ → Actor → List Event → Type 0
  Guards g ts actor [] = Unit
  Guards g ts actor (e ∷ es) = Guard g ts e × Guards (apply_event p g ts actor e) ts actor es
