-- ===== src/Migrate.antt =====
-- crates/nocturnal-migrate/src/lib.rs: the documents of the legacy bot as genesis commands, and
-- their verification. The reader of the documents is the JSON library's.
pub mod Genesis
pub mod Balances
pub mod Matched
use nocturnal_discord.Prelude.{
  ℕ, ◌+◌, ◌*◌, ◌-◌, ◌^◌, Bool, ◌&&◌, Option, none, some, List, [], ◌∷◌, ◌++◌, map, String, ◌==◌,
  ltb, leb, if◌then◌else◌,
}
use nocturnal_discord.Prelude.Int.{ℤ, pos, add_i64, mul_i64, eqb_ℤ, ltb_ℤ}
use nocturnal_discord.Prelude.Text.{pad_nat, show_nat, show_int}
use nocturnal_discord.Prelude.Chain.{◌>>=◌}
use nocturnal_discord.Event.{
  GuildId, Item, RaidRef, ImportedLogEntry, ImportedAttendance, ConfigPatch,
}
use nocturnal_discord.Command.{Command}
use nocturnal_discord.State.{day_ms}
use Prim.Native.Char.{code}
use Prim.Native.String.{◌++◌ as ◌^^◌}

-- `serde_json::Value`, as far as an identity is read from it: a number is the text that it prints.
pub data JsonId : Type 0 where
  text : String → JsonId
  number : String → JsonId
  other : JsonId

pub record LegacyItem : Type 0 where
  pub id : Option JsonId
  pub name : Option String
  pub url : Option String
  pub stat_block : Option String
  pub image : Option String

pub record LegacyRaidRef : Type 0 where
  pub id : Option String
  pub name : Option String

pub record LegacyLogEntry : Type 0 where
  pub dkp : ℤ
  pub comment : Option String
  pub date : ℤ
  pub raid : Option (Option LegacyRaidRef)
  pub item : Option LegacyItem

pub record LegacyPlayer : Type 0 where
  pub id : Option String
  pub player : String
  pub guild : String
  pub current : ℤ
  pub creation_date : ℤ
  pub characters : List String
  pub log : List LegacyLogEntry

pub record LegacyAttendance : Type 0 where
  pub players : List String
  pub comment : Option String
  pub date : ℤ
  pub dkps : ℤ

pub record LegacyRaid : Type 0 where
  pub id : Option String
  pub guild : String
  pub name : String
  pub date : ℤ
  pub attendance : List LegacyAttendance
  pub tick_duration : ℤ
  pub dkps_per_tick : ℤ
  pub event_id : Option String
  pub active : Bool
  pub deprecated : Bool

-- The digits of `str::parse::<u64>`.
parse_digits : String → ℕ → Option ℕ
parse_digits String.[] acc = if ltb acc (2 ^ 64) then some acc else none
parse_digits (String.◌∷◌ c s) acc =
    let rest = parse_digits s (acc * 10 + (code c - 48)) in
    if leb 48 (code c) && leb (code c) 57 then rest else none

-- `str::parse::<u64>`: a plus sign may stand before the digits, of which there is one at least.
unfoldable pub parse_id : String → Option ℕ
unfolding parse_digits
parse_id String.[] = none
parse_id (String.◌∷◌ c String.[]) = parse_digits (String.◌∷◌ c String.[]) 0
parse_id (String.◌∷◌ c (String.◌∷◌ d s)) =
    if code c == 43
    then parse_digits (String.◌∷◌ d s) 0
    else parse_digits (String.◌∷◌ c (String.◌∷◌ d s)) 0

-- `Option::unwrap_or_default` of a text.
unfoldable pub or_empty : Option String → String
or_empty none = ""
or_empty (some s) = s

unfoldable pub item_id : Option JsonId → String
item_id (some (JsonId.text s)) = s
item_id (some (JsonId.number n)) = n
item_id _ = ""

unfoldable pub convert_item : LegacyItem → Item
unfolding item_id or_empty
convert_item i = record {
  id = item_id i.id;
  name = or_empty i.name;
  url = i.url;
  stat_block = i.stat_block;
  image = i.image;
}

unfoldable pub convert_raid : Option (Option LegacyRaidRef) → Option RaidRef
unfolding or_empty
convert_raid none = none
convert_raid (some none) = none
convert_raid (some (some r)) = do id ← r.id; some (record { raid_id = id; name = or_empty r.name })

unfoldable pub convert_entry : LegacyLogEntry → ImportedLogEntry
unfolding convert_raid convert_item or_empty
convert_entry e = record {
  dkp = e.dkp;
  comment = or_empty e.comment;
  ts_ms = e.date;
  raid = convert_raid e.raid;
  item = elim e.item [ none ↦ none | some i ↦ some (convert_item i) ];
}

-- `filter_map(|p| parse_id(p))`
unfoldable pub parse_ids : List String → List ℕ
unfolding parse_id
parse_ids [] = []
parse_ids (s ∷ ss) = elim (parse_id s) [ none ↦ parse_ids ss | some n ↦ n ∷ parse_ids ss ]

unfoldable pub convert_attendance : LegacyAttendance → ImportedAttendance
unfolding parse_ids or_empty
convert_attendance a = record {
  players = parse_ids a.players;
  comment = or_empty a.comment;
  ts_ms = a.date;
  amount = a.dkps;
}

-- The command of the raid at an index.
unfoldable pub raid_command : ℕ → LegacyRaid → Command
unfolding convert_attendance pad_nat
raid_command i r = Command.import_raid (record {
  raid_id = elim r.id [ none ↦ "legacy-" ^^ pad_nat 4 i | some id ↦ id ];
  name = r.name;
  date_ms = r.date;
  tick_interval_ms = r.tick_duration;
  dkp_per_tick = r.dkps_per_tick;
  event_id = r.event_id;
  entries = map convert_attendance r.attendance;
})

unfoldable pub raid_commands : ℕ → List LegacyRaid → List Command
unfolding raid_command
raid_commands i [] = []
raid_commands i (r ∷ rs) = raid_command i r ∷ raid_commands (i + 1) rs

unfoldable pub player_command : ℕ → LegacyPlayer → Command
unfolding convert_entry
player_command player p = Command.import_player (record {
  player = player;
  legacy_id = p.id;
  balance = p.current;
  characters = p.characters;
  creation_ts_ms = p.creation_date;
  log = map convert_entry p.log;
})

unfoldable pub player_commands : List LegacyPlayer → List Command
unfolding parse_id player_command
player_commands [] = []
player_commands (p ∷ ps) = elim (parse_id p.player) [
  | none ↦ player_commands ps
  | some player ↦ player_command player p ∷ player_commands ps
]

unfoldable pub sum_dkp : ℤ → List LegacyLogEntry → ℤ
unfolding add_i64
sum_dkp acc [] = acc
sum_dkp acc (e ∷ es) = sum_dkp (add_i64 acc e.dkp) es

unfoldable pub player_warnings : LegacyPlayer → List String
unfolding parse_id sum_dkp show_nat show_int eqb_ℤ
player_warnings p = elim (parse_id p.player) [
  | none ↦ ("player id not a snowflake, skipped: " ^^ p.player) ∷ []
  | some player ↦
      let from_log = sum_dkp (pos 0) p.log in
      (if eqb_ℤ from_log p.current
        then []
        else ("player "
            ^^ (show_nat player
                ^^ (": stored balance "
                    ^^ (show_int 0 p.current
                        ^^ (" != sum of log " ^^ (show_int 0 from_log ^^ " (importing stored)"))))))
          ∷ [])
      ++ (if ltb_ℤ p.current (pos 0)
          then ("player "
              ^^ (show_nat player
                  ^^ (": negative balance "
                      ^^ (show_int 0 p.current ^^ " carried over from legacy (audit #46 damage)"))))
            ∷ []
          else [])
]

unfoldable pub warnings : List LegacyPlayer → List String
unfolding player_warnings
warnings [] = []
warnings (p ∷ ps) = player_warnings p ++ warnings ps

-- `ConfigPatch::default` with the time after which a raid is old.
abbrev pub deprecation_patch : ℤ → ConfigPatch
deprecation_patch ms = record {
  admin_role = none;
  raid_channel = none;
  second_raid_channel = none;
  extra_raid_channels = none;
  log_channel = none;
  auction_channel = none;
  long_auction_channel = none;
  tick_duration_ms = none;
  raid_deprecation_ms = some ms;
  bid_time_s = none;
  min_bid = none;
  min_bid_to_lock_for_main = none;
  over_bid_to_win_main = none;
  raidhelper_api_key = none;
  raidhelper_event_dkp = none;
  character_bids = none;
  main_bid_min_attendance = none;
  alt_bid_min_attendance = none;
  main_bid_min_level = none;
  alt_bid_min_level = none;
}

unfoldable pub config_commands : Option ℤ → List Command
unfolding mul_i64
config_commands none = []
config_commands (some days) = Command.update_config (deprecation_patch (mul_i64 days day_ms)) ∷ []

-- The guild of the first player, else of the first raid; zero where it is no number.
unfoldable pub genesis_guild : List LegacyPlayer → List LegacyRaid → GuildId
unfolding parse_id
genesis_guild (p ∷ _) raids = elim (parse_id p.guild) [ none ↦ 0 | some g ↦ g ]
genesis_guild [] (r ∷ _) = elim (parse_id r.guild) [ none ↦ 0 | some g ↦ g ]
genesis_guild [] [] = 0

unfoldable pub genesis_commands :
    List LegacyPlayer → List LegacyRaid → Option ℤ → GuildId × List Command × List String
unfolding genesis_guild config_commands raid_commands player_commands warnings
genesis_commands players raids days = (
  genesis_guild players raids,
  config_commands days ++ (raid_commands 0 raids ++ player_commands players),
  warnings players,
)
