-- ===== src/Decide/Auctions.antt =====
-- The decisions on auctions of crates/nocturnal-core/src/decide.rs.
use nocturnal_discord.Prelude.{
  ℕ, Bool, true, false, Option, none, some, List, [], ◌∷◌, String, ◌||◌, ◌&&◌, ◌==◌, not, max,
  if◌then◌else◌,
}
use nocturnal_discord.Prelude.Int.{ℤ, pos, ltb_ℤ, leb_ℤ, add_i64, sub_i64, as_u64}
use nocturnal_discord.Prelude.Lists.{any, find, is_nil}
use nocturnal_discord.Prelude.Text.{eq_ignore_ascii_case}
use nocturnal_discord.Prelude.OrdMap
use nocturnal_discord.Prelude.OrdMap.{nat_key, text_key}
use nocturnal_discord.Event.{PlayerId, Event, Roll}
use nocturnal_discord.Command.{AuctionRequest}
use nocturnal_discord.Platform.{Platform}
use nocturnal_discord.Reject.{Rejection, Result, ok, err, ◌>>=◌, ◌>>◌, reject_if, ok_or}
use nocturnal_discord.State.{
  GuildState, GuildConfig, Player, Auction, Bid, is_opened, is_closed, is_roll, bid_characters,
  committed_elsewhere,
}
use nocturnal_discord.State.Config.{raid_channels}
use nocturnal_discord.State.Attendance.{attendance_pct}
use nocturnal_discord.Auction.Rng.{d100}

abbrev pub knob : Bool → ℤ → ℤ
knob true v = pos 0
knob false v = v

-- A roll for one voice channel: who may open it.
unfoldable pub check_channel : GuildConfig → AuctionRequest → Result (Unit {0})
unfolding raid_channels
check_channel c r = elim r.voice_channel [
  | none ↦ ok tt
  | some channel ↦ (do
    reject_if (not (is_roll r.flavor)) Rejection.wrong_auction_flavor
    reject_if (not (any (λ x. x == channel) (raid_channels c)))
        (Rejection.not_a_raid_channel channel)
    reject_if (elim r.rollers [ none ↦ true | some players ↦ is_nil players ])
        (Rejection.nobody_in_voice_channel channel))
]

-- `Command::OpenAuction`
unfoldable pub decide_open_auction : GuildState → ℤ → AuctionRequest → Result (List Event)
unfolding check_channel add_i64
decide_open_auction g now_ms r = do
  reject_if (OrdMap.contains_key g.auctions r.auction_id) Rejection.auction_id_taken
  reject_if (ltb_ℤ r.min_bid (pos 0) || leb_ℤ r.duration_ms (pos 0)) Rejection.invalid_amount
  reject_if (ltb_ℤ r.roll_cost (pos 0)) Rejection.invalid_amount
  reject_if (ltb_ℤ (pos 0) r.roll_cost && not (is_roll r.flavor)) Rejection.wrong_auction_flavor
  check_channel g.config r
  ok (
      Event.auction_opened (record {
        auction_id = r.auction_id;
        item = r.item;
        flavor = r.flavor;
        min_bid = knob (is_roll r.flavor) r.min_bid;
        num_items = max r.num_items 1;
        min_bid_to_lock_for_main = knob (is_roll r.flavor) r.min_bid_to_lock_for_main;
        over_bid_to_win_main = knob (is_roll r.flavor) r.over_bid_to_win_main;
        deadline_ts_ms = add_i64 now_ms r.duration_ms;
        debit_dkp = if is_roll r.flavor then ltb_ℤ (pos 0) r.roll_cost else r.debit_dkp;
        live = r.live && is_roll r.flavor;
        voice_channel = r.voice_channel;
        rollers = elim r.voice_channel [ none ↦ none | some _ ↦ r.rollers ];
        roll_cost = r.roll_cost;
      })
      ∷ [])

-- The guard on the balance: what stands elsewhere is spoken for.
unfoldable pub check_funds : GuildState → Player → PlayerId → String → ℤ → Result (Unit {0})
check_funds g q player auction_id amount =
    let committed = committed_elsewhere g player auction_id in
    reject_if (ltb_ℤ (sub_i64 q.balance committed) amount)
      (Rejection.insufficient_balance (sub_i64 q.balance committed) committed amount)

-- The side that a bid lands on: a main bid under the main line is taken as an alt bid.
unfoldable pub landing_side : GuildConfig → ℤ → Bool → Bool
landing_side c attendance for_main =
    if for_main
      && ltb_ℤ (pos 0) c.main_bid_min_attendance
      && ltb_ℤ attendance c.main_bid_min_attendance
    then false
    else for_main

-- `Command::RetractBid`
unfoldable pub decide_retract_bid : GuildState → String → PlayerId → Result (List Event)
decide_retract_bid g auction_id player = do
  auction ← ok_or (OrdMap.get g.auctions auction_id) Rejection.auction_not_found
  reject_if (not (is_opened auction.status)) Rejection.auction_not_active
  reject_if (not (any (λ (b : Bid). b.player == player) auction.bids)) Rejection.player_not_found
  ok (Event.bid_retracted auction_id player ∷ [])

-- `Command::CloseAuction`
unfoldable pub decide_close_auction : GuildState → ℤ → String → Option ℤ → Result (List Event)
unfolding as_u64
decide_close_auction g now_ms auction_id ended_ts_ms = do
  auction ← ok_or (OrdMap.get g.auctions auction_id) Rejection.auction_not_found
  reject_if (not (is_opened auction.status)) Rejection.auction_not_active
  ok (Event.auction_closed auction_id ended_ts_ms (some (as_u64 now_ms)) ∷ [])

-- `Command::CancelAuction`
unfoldable pub decide_cancel_auction : GuildState → String → String → Result (List Event)
decide_cancel_auction g auction_id reason = do
  auction ← ok_or (OrdMap.get g.auctions auction_id) Rejection.auction_not_found
  reject_if (not (is_opened auction.status || is_closed auction.status))
      Rejection.auction_not_active
  ok (Event.auction_cancelled auction_id reason ∷ [])

-- Who may roll on an auction for one voice channel.
unfoldable pub check_roller : Auction → PlayerId → Option ℕ → Result (Unit {0})
check_roller a player voice_channel = elim a.voice_channel [
  | none ↦ ok tt
  | some channel ↦ elim a.rollers [
    | some rollers ↦
        reject_if (not (any (λ q. q == player) rollers)) (Rejection.not_in_roll_snapshot channel)
    | none ↦
        reject_if (not (elim voice_channel [ none ↦ false | some v ↦ v == channel ]))
          (Rejection.not_in_voice_channel channel)
  ]
]

-- `Command::RollForAuction`
unfoldable pub decide_roll_for_auction :
    GuildState → String → PlayerId → ℕ → Option ℕ → Result (List Event)
unfolding check_roller d100
decide_roll_for_auction g auction_id player seed voice_channel = do
  auction ← ok_or (OrdMap.get g.auctions auction_id) Rejection.auction_not_found
  reject_if (not (is_roll auction.flavor)) Rejection.wrong_auction_flavor
  reject_if (not (is_opened auction.status)) Rejection.auction_not_active
  check_roller auction player voice_channel
  q ← ok_or (OrdMap.get g.players player) Rejection.player_not_found
  elim (find (λ (r : Roll). r.player == player) auction.rolls) [
    | some r ↦ err (Rejection.already_rolled r.roll)
    | none ↦ ok tt
  ]
  (if ltb_ℤ (pos 0) auction.roll_cost
      then check_funds g q player auction_id auction.roll_cost
      else ok tt)
  ok (Event.auction_rolled auction_id player (d100 seed).0 seed ∷ [])

module _ (p : Platform) where
  level_line : GuildConfig → Bool → ℤ
  level_line c for_main = if for_main then c.main_bid_min_level else c.alt_bid_min_level

  -- The guards on a named character: on the row, on the side, and of the level.
  unfoldable pub check_character : GuildState → PlayerId → Bool → Option String → Result (Unit {0})
  unfolding bid_characters eq_ignore_ascii_case level_line
  check_character g player for_main none = ok tt
  check_character g player for_main (some name) = do
    let key = p.to_lowercase name
    let row = OrdMap.get g.roster player
    reject_if (not (elim row [ none ↦ false | some chars ↦ OrdMap.contains_key chars key ]))
        (Rejection.roster_character_missing name)
    reject_if (not (any (λ c. eq_ignore_ascii_case c.name name) (bid_characters g player for_main)))
        (Rejection.character_not_eligible name for_main)
    let level : ℤ = elim row [
      | none ↦ pos 0
      | some chars ↦ elim (OrdMap.get chars key) [ none ↦ pos 0 | some c ↦ pos c.level ]
    ]
    let required = level_line g.config for_main
    reject_if (ltb_ℤ (pos 0) required && ltb_ℤ level required)
        (Rejection.character_below_min_level name level required for_main)

  -- `Command::PlaceBid`
  unfoldable pub decide_place_bid :
      GuildState → ℤ → String → PlayerId → ℤ → Bool → Option String → Result (List Event)
  decide_place_bid g now_ms auction_id player amount for_main character = do
    auction ← ok_or (OrdMap.get g.auctions auction_id) Rejection.auction_not_found
    reject_if (is_roll auction.flavor) Rejection.wrong_auction_flavor
    reject_if (not (is_opened auction.status)) Rejection.auction_not_active
    reject_if (leb_ℤ amount (pos 0)) Rejection.invalid_amount
    reject_if (ltb_ℤ amount auction.min_bid) (Rejection.bid_below_minimum auction.min_bid)
    q ← ok_or (OrdMap.get g.players player) Rejection.player_not_found
    check_funds g q player auction_id amount
    let attendance = attendance_pct p g player now_ms
    let percent = p.f64_as_i64 attendance
    let side = landing_side g.config percent for_main
    let alt_line = g.config.alt_bid_min_attendance
    reject_if (not side && ltb_ℤ (pos 0) alt_line && ltb_ℤ percent alt_line)
        (Rejection.attendance_below_minimum alt_line percent false)
    check_character g player side character
    ok (
        Event.bid_placed (record {
          auction_id = auction_id;
          player = player;
          amount = amount;
          for_main = side;
          attendance = attendance;
          character = character;
        })
        ∷ [])
