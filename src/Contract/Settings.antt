-- ===== src/Contract/Settings.antt =====
-- What the values of an accepted configuration patch are: `validate_config` of
-- crates/nocturnal-core/src/decide.rs.
use nocturnal_discord.Prelude.{
  ℕ, ◌≤◌, ◌≡◌, refl, ◌∙◌, Bool, true, false, Option, none, some, List, [], ◌∷◌, ◌++◌, arith, ◌==◌,
  ◌||◌, ltb, not,
}
use nocturnal_discord.Prelude.Int.{ℤ, pos, ◌≤ℤ◌, ◌<ℤ◌, ltb_ℤ, leb_ℤ, within}
use nocturnal_discord.Prelude.Lists.{any, length}
use nocturnal_discord.Event.{ConfigPatch}
use nocturnal_discord.Reject.{Rejection, Result, ok, ◌>>◌, reject_if}
use nocturnal_discord.State.{GuildState, GuildConfig}
use nocturnal_discord.State.Config.{apply_patch}
use nocturnal_discord.Decide.Config.{
  is_some_and, repeats, validate_values, validate_channels, validate_config,
}

-- A value, where there is one, has the property.
abbrev pub Each {ℓ} : {A : Type ℓ} → Option A → (A → Type 0) → Type 0
Each none P = Unit
Each (some a) P = P a

abbrev pub Between : ℤ → ℤ → ℤ → Type 0
Between lo hi v = (lo ≤ℤ v) × (v ≤ℤ hi)

-- No channel twice.
abbrev pub Distinct : List ℕ → Type 0
Distinct [] = Unit
Distinct (c ∷ cs) = (any (λ x. x == c) cs ≡ false) × Distinct cs

-- The ranges of the values that a patch sets.
abbrev pub Values : ConfigPatch → Type 0
Values p =
    Each p.tick_duration_ms (λ v. pos 0 <ℤ v)
    × Each p.raid_deprecation_ms (λ v. pos 0 <ℤ v)
    × Each p.bid_time_s (Between (pos 30) (pos 1000))
    × Each p.min_bid (λ v. pos 0 ≤ℤ v)
    × Each p.min_bid_to_lock_for_main (λ v. pos 0 ≤ℤ v)
    × Each p.over_bid_to_win_main (λ v. pos 0 ≤ℤ v)
    × Each p.raidhelper_event_dkp (λ v. pos 0 ≤ℤ v)
    × Each p.main_bid_min_attendance (Between (pos 0) (pos 100))
    × Each p.alt_bid_min_attendance (Between (pos 0) (pos 100))
    × Each p.main_bid_min_level (Between (pos 0) (pos 65))
    × Each p.alt_bid_min_level (Between (pos 0) (pos 65))

-- The channels that a raid counts: nine at most with the raid channel apart, and none twice.
abbrev pub Channels : GuildConfig → Type 0
Channels c =
    (length c.extra_raid_channels ≤ 9)
    × Each c.raid_channel (λ r. any (λ x. x == r) c.extra_raid_channels ≡ false)
    × Distinct c.extra_raid_channels

passed :
    (b : Bool) (e : Rejection) (rest : Result (Unit {0}))
    → (reject_if b e >> rest) ≡ ok tt
    → (b ≡ false) × (rest ≡ ok tt)
passed true e rest h = cc
passed false e rest h = (refl, h)

pub last_passed : (b : Bool) (e : Rejection) → reject_if b e ≡ ok tt → b ≡ false
last_passed true e h = cc
last_passed false e h = refl

pub both_passed :
    (first rest : Result (Unit {0})) → (first >> rest) ≡ ok tt → (first ≡ ok tt) × (rest ≡ ok tt)
both_passed first rest h = ground arith

Each-test :
    (o : Option ℤ) (f : ℤ → Bool) (P : ℤ → Type 0)
    → ((v : ℤ) → f v ≡ false → P v)
    → is_some_and o f ≡ false
    → Each o P
Each-test none f P h e = tt
Each-test (some v) f P h e = h v e

Each-channel : (o : Option ℕ) (f : ℕ → Bool) → is_some_and o f ≡ false → Each o (λ r. f r ≡ false)
Each-channel none f e = tt
Each-channel (some v) f e = e

positive : (v : ℤ) → leb_ℤ v (pos 0) ≡ false → pos 0 <ℤ v
positive v h = ground arith

not_negative : (v : ℤ) → ltb_ℤ v (pos 0) ≡ false → pos 0 ≤ℤ v
not_negative v h = ground arith

within-Between : (lo hi v : ℤ) → not (within lo hi v) ≡ false → Between lo hi v
within-Between lo hi v h = ground arith

validate_values-Values : (p : ConfigPatch) → validate_values p ≡ ok tt → Values p
unfolding validate_values
validate_values-Values p h0 =
    let (t1, h1) = passed _ _ _ h0 in
    let (t2, h2) = passed _ _ _ h1 in
    let (t3, h3) = passed _ _ _ h2 in
    let (t4, h4) = passed _ _ _ h3 in
    let (t5, h5) = passed _ _ _ h4 in
    let (t6, h6) = passed _ _ _ h5 in
    let (t7, h7) = passed _ _ _ h6 in
    let (t8, h8) = passed _ _ _ h7 in
    let (t9, h9) = passed _ _ _ h8 in
    let (t10, h10) = passed _ _ _ h9 in
    let t11 = last_passed _ _ h10 in
    (
      Each-test p.tick_duration_ms _ _ positive t1,
      Each-test p.raid_deprecation_ms _ _ positive t2,
      Each-test p.bid_time_s _ _ (within-Between (pos 30) (pos 1000)) t3,
      Each-test p.min_bid _ _ not_negative t4,
      Each-test p.min_bid_to_lock_for_main _ _ not_negative t5,
      Each-test p.over_bid_to_win_main _ _ not_negative t6,
      Each-test p.raidhelper_event_dkp _ _ not_negative t7,
      Each-test p.main_bid_min_attendance _ _ (within-Between (pos 0) (pos 100)) t8,
      Each-test p.alt_bid_min_attendance _ _ (within-Between (pos 0) (pos 100)) t9,
      Each-test p.main_bid_min_level _ _ (within-Between (pos 0) (pos 65)) t10,
      Each-test p.alt_bid_min_level _ _ (within-Between (pos 0) (pos 65)) t11,
    )

any-append :
    (c : ℕ) (xs ys : List ℕ)
    → any (λ x. x == c) (xs ++ ys) ≡ (any (λ x. x == c) xs || any (λ x. x == c) ys)
any-append c [] ys = refl
any-append c (x ∷ xs) ys = ground (arith, any-append c xs ys)

not_seen :
    (k : ℕ) (seen cs : List ℕ)
    → any (λ x. x == k) seen ≡ true
    → repeats seen cs ≡ false
    → any (λ x. x == k) cs ≡ false
unfolding repeats
not_seen k seen [] s h = refl
not_seen k seen (c ∷ cs) s h =
    ground (arith, any-append k seen (c ∷ []), not_seen k (seen ++ c ∷ []) cs)

repeats-Distinct : (seen cs : List ℕ) → repeats seen cs ≡ false → Distinct cs
unfolding repeats
repeats-Distinct seen [] h = tt
repeats-Distinct seen (c ∷ cs) h =
    let last : any (λ x. x == c) (seen ++ c ∷ []) ≡ true =
      any-append c seen (c ∷ []) ∙ self c (any (λ x. x == c) seen) in
    (
      not_seen c (seen ++ c ∷ []) cs last (ground arith),
      repeats-Distinct (seen ++ c ∷ []) cs (ground arith),
    )
  where
    self : (k : ℕ) (b : Bool) → (b || any (λ x. x == k) (k ∷ [])) ≡ true
    self k true = refl
    self k false = ground arith

validate_channels-Channels : (c : GuildConfig) → validate_channels c ≡ ok tt → Channels c
unfolding validate_channels
validate_channels-Channels c h0 =
    let (few, h1) = passed _ _ _ h0 in
    let (apart, h2) = passed _ _ _ h1 in
    (
      at_most few,
      Each-channel c.raid_channel _ apart,
      repeats-Distinct [] c.extra_raid_channels (last_passed _ _ h2),
    )
  where
    at_most : ltb 9 (length c.extra_raid_channels) ≡ false → length c.extra_raid_channels ≤ 9
    at_most h = ground arith

-- An accepted patch sets values in their ranges, and leaves channels that a raid can count.
abbrev pub Settings : GuildState → ConfigPatch → Type 0
Settings g p = Values p × Channels (apply_patch g.config p)

pub validate_config-Settings :
    (g : GuildState) (p : ConfigPatch) → validate_config g p ≡ ok tt → Settings g p
unfolding validate_config
validate_config-Settings g p h0 =
    let (values, h1) = both_passed (validate_values p) _ h0 in
    let (_, h2) = both_passed _ _ h1 in
    let (_, h3) = both_passed _ _ h2 in
    (validate_values-Values p values, validate_channels-Channels (apply_patch g.config p) h3)
