-- ===== src/Reject.antt =====
-- crates/nocturnal-core/src/reject.rs: the refusals of the decide step, and its result type.
use nocturnal_discord.Prelude.{ℕ, Bool, true, false, Option, none, some, String}
use nocturnal_discord.Prelude.Int.{ℤ}

pub data Rejection : Type 0 where
  player_not_found : Rejection
  character_not_registered character_already_registered : (character : String) → Rejection
  invalid_amount : Rejection
  insufficient_balance : (available committed needed : ℤ) → Rejection
  raid_already_active : (name : String) → Rejection
  no_active_raid raid_not_found tick_too_soon : Rejection
  raid_still_active : (name : String) → Rejection
  same_raid empty_name nothing_to_record : Rejection
  auction_not_found auction_id_taken auction_not_active auction_not_closed : Rejection
  bid_below_minimum : (min_bid : ℤ) → Rejection
  wrong_auction_flavor : Rejection
  already_rolled : (rolled : ℕ) → Rejection
  not_a_raid_channel not_in_voice_channel not_in_roll_snapshot nobody_in_voice_channel :
      (channel : ℕ) → Rejection
  attendance_below_minimum : (required actual : ℤ) (for_main : Bool) → Rejection
  character_not_eligible : (name : String) (for_main : Bool) → Rejection
  character_below_min_level : (name : String) (level required : ℤ) (for_main : Bool) → Rejection
  already_provisioned not_provisioned : (username : String) → Rejection
  roster_character_missing roster_character_exists rank_is_officers : (name : String) → Rejection
  invalid_roster_entry invalid_config : (place reason : String) → Rejection

-- `Rejection::slug`
unfoldable pub slug : Rejection → String
slug Rejection.player_not_found = "player_not_found"
slug (Rejection.character_not_registered _) = "character_not_registered"
slug (Rejection.character_already_registered _) = "character_already_registered"
slug Rejection.invalid_amount = "invalid_amount"
slug (Rejection.insufficient_balance _ _ _) = "insufficient_balance"
slug (Rejection.raid_already_active _) = "raid_already_active"
slug Rejection.no_active_raid = "no_active_raid"
slug Rejection.raid_not_found = "raid_not_found"
slug Rejection.tick_too_soon = "tick_too_soon"
slug (Rejection.raid_still_active _) = "raid_still_active"
slug Rejection.same_raid = "same_raid"
slug Rejection.empty_name = "empty_name"
slug Rejection.nothing_to_record = "nothing_to_record"
slug Rejection.auction_not_found = "auction_not_found"
slug Rejection.auction_id_taken = "auction_id_taken"
slug Rejection.auction_not_active = "auction_not_active"
slug Rejection.auction_not_closed = "auction_not_closed"
slug (Rejection.bid_below_minimum _) = "bid_below_minimum"
slug Rejection.wrong_auction_flavor = "wrong_auction_flavor"
slug (Rejection.already_rolled _) = "already_rolled"
slug (Rejection.not_a_raid_channel _) = "not_a_raid_channel"
slug (Rejection.not_in_voice_channel _) = "not_in_voice_channel"
slug (Rejection.not_in_roll_snapshot _) = "not_in_roll_snapshot"
slug (Rejection.nobody_in_voice_channel _) = "nobody_in_voice_channel"
slug (Rejection.attendance_below_minimum _ _ _) = "attendance_below_minimum"
slug (Rejection.character_not_eligible _ _) = "character_not_eligible"
slug (Rejection.character_below_min_level _ _ _ _) = "character_below_min_level"
slug (Rejection.already_provisioned _) = "already_provisioned"
slug (Rejection.not_provisioned _) = "not_provisioned"
slug (Rejection.invalid_config _ _) = "invalid_config"
slug (Rejection.roster_character_missing _) = "roster_character_missing"
slug (Rejection.roster_character_exists _) = "roster_character_exists"
slug (Rejection.rank_is_officers _) = "rank_is_officers"
slug (Rejection.invalid_roster_entry _ _) = "invalid_roster_entry"

-- `Result<A, Rejection>`, or a panic on the way to it.
pub data Result {ℓ} (A : Type ℓ) : Type ℓ where
  ok : A → Result A
  err : Rejection → Result A
  panic : Result A

infixl 5 ◌>>=◌ ◌>>◌
abbrev pub ◌>>=◌ {ℓ κ} : {A : Type ℓ} {B : Type κ} → Result A → (A → Result B) → Result B
ok a >>= f = f a
err e >>= f = err e
panic >>= f = panic

abbrev pub ◌>>◌ {ℓ} : {B : Type ℓ} → Result (Unit {0}) → Result B → Result B
m >> k = m >>= λ _. k

-- `if test { return Err(e) }`
abbrev pub reject_if : Bool → Rejection → Result (Unit {0})
reject_if true e = err e
reject_if false e = ok tt

-- `ok_or(e)?`
abbrev pub ok_or {ℓ} : {A : Type ℓ} → Option A → Rejection → Result A
ok_or none e = err e
ok_or (some a) e = ok a

-- A value whose computation may panic.
abbrev pub or_panic {ℓ} : {A : Type ℓ} → Option A → Result A
or_panic none = panic
or_panic (some a) = ok a
