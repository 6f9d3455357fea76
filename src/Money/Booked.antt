-- ===== src/Money/Booked.antt =====
-- Every balance is the sum of its log: apply.rs of crates/nocturnal-core/src.
use nocturnal_discord.Prelude.{
  ℕ, ◌≡◌, refl, sym, ◌∙◌, subst, subst⁻¹, Option, none, some, List, [], ◌∷◌, map, arith, Bool-cases,
  Option-cases, inl, inr, String,
}
use nocturnal_discord.Prelude.Int.{ℤ, pos, eqb_ℤ}
use nocturnal_discord.Prelude.OrdMap
use nocturnal_discord.Prelude.OrdMap.{OrdMap, nat_key, text_key}
use nocturnal_discord.Event.{Event, Actor, PlayerId, RaidRef, Winner, ProfileSource}
use nocturnal_discord.Platform.{Platform}
use nocturnal_discord.State.{GuildState, Player, LogEntry, Auction}
use nocturnal_discord.Apply.Step.{apply_event}
use nocturnal_discord.Apply.Raids.{
  new_player, post, credit, award, raid_started, raid_ended, raid_merged, relabel, relabel_all,
  raid_kills_recorded, raid_renamed, rename_line, raid_imported,
}
use nocturnal_discord.Apply.Players.{character_linked, player_imported, dkp_adjusted, import_line}
use nocturnal_discord.Apply.Auctions.{
  charge_winner, auction_opened, bid_placed, bid_retracted, auction_closed, auction_finalized,
  auction_rolled, auction_roll_off, auction_cancelled,
}
use nocturnal_discord.Apply.Roster.{
  config_updated, telemetry_token_issued, telemetry_access_updated, telemetry_token_revoked,
  roster_character_set, roster_profile_uploaded, roster_character_removed,
}
use nocturnal_discord.Money.Sums.{
  Booked, log_sum, post-Booked, charge-Booked, log_sum-map, dkp-relabel, dkp-rename_line,
}
use mathlib.Core.List.{foldl}

abbrev pub BookedAt : Option Player → Type 0
BookedAt none = Unit
BookedAt (some q) = Booked q

-- Every player's balance is the sum of the player's log.
abbrev pub AllBooked : OrdMap PlayerId Player → Type 0
AllBooked players = (k : PlayerId) → BookedAt (OrdMap.get players k)

get_or-Booked :
    (o : Option Player) (players : OrdMap PlayerId Player) (k : PlayerId) (d : Player)
    → OrdMap.get players k ≡ o
    → BookedAt o
    → Booked d
    → Booked (OrdMap.get_or players k d)
unfolding OrdMap.get_or
get_or-Booked none players k d e v h = rw (e, OrdMap.get_or) h
get_or-Booked (some q) players k d e v h = rw (e, OrdMap.get_or) v

upsert-AllBooked :
    (players : OrdMap PlayerId Player) (k : PlayerId) (d : Player) (f : Player → Player)
    → Booked d
    → ((q : Player) → Booked q → Booked (f q))
    → AllBooked players
    → AllBooked (OrdMap.upsert players k d f)
upsert-AllBooked players k d f hd hf v j =
    subst⁻¹ BookedAt (OrdMap.get-upsert players k j d f) (elim (Bool-cases (OrdMap.same k j)) [
      | inl e ↦ rw e (hf _ (get_or-Booked _ players k d refl (v k) hd))
      | inr e ↦ rw e (v j)
    ])

new_player-Booked : (ts : ℤ) → Booked (new_player ts)
unfolding new_player log_sum
new_player-Booked ts = refl

foldl-AllBooked {ℓ} :
    {A : Type ℓ} (f : OrdMap PlayerId Player → A → OrdMap PlayerId Player)
    → ((m : OrdMap PlayerId Player) (a : A) → AllBooked m → AllBooked (f m a))
    → (xs : List A) (m : OrdMap PlayerId Player) → AllBooked m
    → AllBooked (foldl f m xs)
foldl-AllBooked f h [] m v = v
foldl-AllBooked f h (x ∷ xs) m v = foldl-AllBooked f h xs (f m x) (h m x v)

credit-AllBooked :
    (ts : ℤ) (e : LogEntry) (m : OrdMap PlayerId Player) (k : PlayerId)
    → AllBooked m
    → AllBooked (credit ts e m k)
unfolding credit
credit-AllBooked ts e m k v =
    upsert-AllBooked m k (new_player ts) (post e) (new_player-Booked ts) (post-Booked e) v

charge_winner-AllBooked :
    (a : Option Auction) (raid : Option RaidRef) (ts : ℤ) (m : OrdMap PlayerId Player) (w : Winner)
    → AllBooked m
    → AllBooked (charge_winner a raid ts m w)
unfolding charge_winner
charge_winner-AllBooked a raid ts m w v =
    upsert-AllBooked m w.player (new_player ts) _ (new_player-Booked ts)
      (charge-Booked _ _ ts raid _) v

pub get-relabel_all :
    (f : LogEntry → LogEntry) (m : OrdMap PlayerId Player) (k : PlayerId)
    → OrdMap.get (relabel_all f m) k
      ≡ elim (OrdMap.get m k) [ none ↦ none | some q ↦ some (record q { log = map f q.log }) ]
unfolding relabel_all OrdMap.get
get-relabel_all f [] k = refl
get-relabel_all f ((j, q) ∷ m) k = ground (arith, get-relabel_all f m k)

relabel_all-AllBooked :
    (f : LogEntry → LogEntry)
    → ((e : LogEntry) → (f e).dkp ≡ e.dkp)
    → (m : OrdMap PlayerId Player) → AllBooked m
    → AllBooked (relabel_all f m)
relabel_all-AllBooked f h m v k =
    subst⁻¹ BookedAt (get-relabel_all f m k) (elim (Option-cases (OrdMap.get m k)) [
      | inl missing ↦ rw missing tt
      | inr (q, found) ↦ rw found (subst BookedAt found (v k) ∙ sym (log_sum-map f h q.log))
    ])

-- An imported player whose balance is the sum of the imported log.
abbrev pub BookedImport : Event → Type 0
BookedImport (Event.player_imported i) = i.balance ≡ log_sum (map import_line i.log)
BookedImport _ = Unit

module _ (p : Platform) (g : GuildState) (ts : ℤ) (actor : Actor) where
  award-AllBooked :
      (id : String) (players : List PlayerId) (amount : ℤ) (comment : String) (n : Option ℕ)
      → AllBooked g.players
      → AllBooked (award g id players amount comment ts n).players
  unfolding award
  award-AllBooked id players amount comment n v = elim (Bool-cases (eqb_ℤ amount (pos 0))) [
    | inl e ↦ rw e v
    | inr e ↦ rw e (foldl-AllBooked (credit ts _) (credit-AllBooked ts _) players g.players v)
  ]

  raid_merged-AllBooked :
      (a b : String) → AllBooked g.players → AllBooked (raid_merged g a b).players
  unfolding raid_merged
  raid_merged-AllBooked a b v = elim (Option-cases (OrdMap.get g.raids a)) [
    | inl e ↦ rw (e, raid_merged) v
    | inr (src, e) ↦
        rw (e, raid_merged)
          (elim (Option-cases (OrdMap.get (OrdMap.remove g.raids a) b)) [
            | inl e' ↦ rw (e', raid_merged) v
            | inr (dst, e') ↦
                rw (e', raid_merged)
                  (relabel_all-AllBooked (relabel a _) (dkp-relabel a _) g.players v)
          ])
  ]

  raid_renamed-AllBooked :
      (a b : String) → AllBooked g.players → AllBooked (raid_renamed g a b).players
  unfolding raid_renamed
  raid_renamed-AllBooked a b v = elim (Option-cases (OrdMap.get g.raids a)) [
    | inl e ↦ rw (e, raid_renamed) v
    | inr (r, e) ↦
        rw (e, raid_renamed)
          (relabel_all-AllBooked (rename_line a b) (dkp-rename_line a b) g.players v)
  ]

  roster_profile_uploaded-players :
      (a : PlayerId) (b : String) (c : ProfileSource) (d : String) (e : ℤ)
      → (roster_profile_uploaded p g a b c d e).players ≡ g.players
  unfolding roster_profile_uploaded
  roster_profile_uploaded-players a b c d e = ground arith

  roster_character_removed-players :
      (a : PlayerId) (b : String) → (roster_character_removed p g a b).players ≡ g.players
  unfolding roster_character_removed
  roster_character_removed-players a b = ground arith

  -- Whatever the event, every balance stays the sum of its log, so the log accounts for each point
  -- of DKP. An imported player's balance has to agree with the imported log.
  pub apply_event-AllBooked :
      (e : Event)
      → BookedImport e
      → AllBooked g.players
      → AllBooked (apply_event p g ts actor e).players
  unfolding apply_event auction_opened bid_placed bid_retracted auction_closed auction_finalized
      auction_rolled auction_roll_off auction_cancelled raid_started raid_ended raid_kills_recorded
      raid_imported character_linked player_imported dkp_adjusted config_updated
      telemetry_token_issued telemetry_access_updated telemetry_token_revoked roster_character_set
  apply_event-AllBooked (Event.character_linked a b) h v =
      upsert-AllBooked g.players a (new_player ts) _ (new_player-Booked ts) (λ q e. e) v
  apply_event-AllBooked (Event.player_imported i) h v = λ k.
      subst⁻¹ BookedAt (OrdMap.get-insert g.players i.player k _)
        (elim (Bool-cases (OrdMap.same i.player k)) [ inl e ↦ rw e h | inr e ↦ rw e (v k) ])
  apply_event-AllBooked (Event.dkp_adjusted a b c d e) h v = credit-AllBooked ts _ g.players a v
  apply_event-AllBooked (Event.raid_awarded a b c d) h v = award-AllBooked a b c d none v
  apply_event-AllBooked (Event.raid_ticked a b c d) h v = award-AllBooked a c d "Tick" (some b) v
  apply_event-AllBooked (Event.raid_merged a b) h v = raid_merged-AllBooked a b v
  apply_event-AllBooked (Event.raid_renamed a b) h v = raid_renamed-AllBooked a b v
  apply_event-AllBooked (Event.auction_finalized a b c) h v =
      foldl-AllBooked (charge_winner (OrdMap.get g.auctions a) _ ts)
        (charge_winner-AllBooked (OrdMap.get g.auctions a) _ ts) b g.players v
  apply_event-AllBooked (Event.roster_character_removed a b) h v =
      rw (roster_character_removed-players a b) v
  apply_event-AllBooked (Event.roster_profile_uploaded a b c d e) h v =
      rw (roster_profile_uploaded-players a b c d e) v
  apply_event-AllBooked _ h v = v
