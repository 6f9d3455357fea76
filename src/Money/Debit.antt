-- ===== src/Money/Debit.antt =====
-- What one decision moves: apply.rs and decide.rs of crates/nocturnal-core/src.
use nocturnal_discord.Prelude.{
  ◌≡◌, refl, false, Option, none, some, List, [], ◌∷◌, arith, Option-cases, inl, inr, if◌then◌else◌,
  String, ◌&&◌,
}
use nocturnal_discord.Prelude.Int.{ℤ, pos, add_i64, ltb_ℤ}
use nocturnal_discord.Prelude.OrdMap
use nocturnal_discord.Prelude.OrdMap.{OrdMap, nat_key, text_key}
use nocturnal_discord.Event.{Event, Actor, PlayerId, RaidRef, Item}
use nocturnal_discord.Platform.{Platform}
use nocturnal_discord.Reject.{ok}
use nocturnal_discord.State.{GuildState, Player, LogEntry, balance}
use nocturnal_discord.Apply.Raids.{new_player, post, credit, raid_merged, relabel, relabel_all}
use nocturnal_discord.Apply.Players.{dkp_adjusted}
use nocturnal_discord.Apply.Step.{apply_event}
use nocturnal_discord.Contract.Guard.{apply_all}
use nocturnal_discord.Decide.Raids.{decide_adjust_dkp, active_raid_ref}
use nocturnal_discord.Money.Booked.{get-relabel_all}

abbrev balance_of : Option Player → ℤ
balance_of none = pos 0
balance_of (some q) = q.balance

balance-eq : (g : GuildState) (k : PlayerId) → balance g k ≡ balance_of (OrdMap.get g.players k)
unfolding balance
balance-eq g k = ground arith

balance-relabel_all :
    (f : LogEntry → LogEntry) (m : OrdMap PlayerId Player) (k : PlayerId)
    → balance_of (OrdMap.get (relabel_all f m) k) ≡ balance_of (OrdMap.get m k)
balance-relabel_all f m k = rw get-relabel_all (ground arith)

module _ (g : GuildState) (k : PlayerId) where
  -- Folding one raid into another moves no DKP.
  pub raid_merged-balance : (a b : String) → balance (raid_merged g a b) k ≡ balance g k
  unfolding raid_merged
  raid_merged-balance a b =
      rw (balance-eq, balance-eq g k)
        (elim (Option-cases (OrdMap.get g.raids a)) [
          | inl e ↦ rw (e, raid_merged) refl
          | inr (src, e) ↦
              rw (e, raid_merged)
                (elim (Option-cases (OrdMap.get (OrdMap.remove g.raids a) b)) [
                  | inl e' ↦ rw (e', raid_merged) refl
                  | inr (dst, e') ↦
                      rw (e', raid_merged) (balance-relabel_all (relabel a _) g.players k)
                ])
        ])

credit-balance :
    (ts : ℤ) (line : LogEntry) (m : OrdMap PlayerId Player) (player k : PlayerId)
    → balance_of (OrdMap.get (credit ts line m player) k) ≡ (
        if OrdMap.same player k
        then add_i64 (balance_of (OrdMap.get m player)) line.dkp
        else balance_of (OrdMap.get m k))
unfolding credit post new_player OrdMap.get_or
credit-balance ts line m player k = rw OrdMap.get-upsert (ground arith)

dkp_adjusted-balance :
    (g : GuildState) (ts : ℤ) (player : PlayerId) (delta : ℤ) (comment : String)
    (raid : Option RaidRef) (item : Option Item) (k : PlayerId)
    → balance (dkp_adjusted g ts player delta comment raid item) k
      ≡ (if OrdMap.same player k then add_i64 (balance g player) delta else balance g k)
unfolding dkp_adjusted
dkp_adjusted-balance g ts player delta comment raid item k =
    rw (balance-eq, balance-eq g k, balance-eq g player) (credit-balance ts _ g.players player k)

adjust_dkp-event :
    (g : GuildState) (player : PlayerId) (delta : ℤ) (comment : String) (item : Option Item)
    (es : List Event)
    → decide_adjust_dkp g player delta comment item ≡ ok es
    → (es ≡ Event.dkp_adjusted player delta comment (active_raid_ref g) item ∷ [])
      × ((ltb_ℤ delta (pos 0) && ltb_ℤ (add_i64 (balance g player) delta) (pos 0)) ≡ false)
unfolding decide_adjust_dkp
adjust_dkp-event g player delta comment item es h = ground arith

-- After an accepted adjustment the player's balance has moved by the delta and every other balance
-- stands, and a negative delta has not left the player below zero.
pub decide_adjust_dkp-balance :
    (p : Platform) (g : GuildState) (ts : ℤ) (actor : Actor) (player : PlayerId) (delta : ℤ)
    (comment : String) (item : Option Item) (es : List Event) (k : PlayerId)
    → decide_adjust_dkp g player delta comment item ≡ ok es
    → (balance (apply_all p g ts actor es) k
        ≡ (if OrdMap.same player k then add_i64 (balance g player) delta else balance g k))
      × ((ltb_ℤ delta (pos 0) && ltb_ℤ (balance (apply_all p g ts actor es) player) (pos 0))
          ≡ false)
unfolding apply_all apply_event
decide_adjust_dkp-balance p g ts actor player delta comment item es k h =
    let (only, covered) = adjust_dkp-event g player delta comment item es h in
    let moved = dkp_adjusted-balance g ts player delta comment (active_raid_ref g) item in
    rw only (moved k, (rw (moved player, OrdMap.same_refl player) covered))
