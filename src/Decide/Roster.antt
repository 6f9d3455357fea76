-- ===== src/Decide/Roster.antt =====
-- The decisions on the roster and on telemetry access of crates/nocturnal-core/src/decide.rs.
use nocturnal_discord.Prelude.{
  ℕ, ◌/◌, Bool, true, false, Option, none, some, List, [], ◌∷◌, ◌++◌, String, ◌||◌, ◌&&◌, ◌==◌, not,
  ltb, leb, if◌then◌else◌,
}
use nocturnal_discord.Prelude.Int.{ℤ}
use nocturnal_discord.Prelude.Lists.{any, length}
use nocturnal_discord.Prelude.Text.{
  trim, is_empty, any_char, is_control, eq_ignore_ascii_case, show_nat,
}
use nocturnal_discord.Prelude.OrdMap
use nocturnal_discord.Prelude.OrdMap.{OrdMap, same, nat_key, text_key}
use nocturnal_discord.Event.{PlayerId, Actor, Event, MainRank, RosterCharacter, ProfileSource}
use nocturnal_discord.Platform.{Platform, parsed, failed}
use nocturnal_discord.Reject.{Rejection, Result, ok, err, ◌>>=◌, ◌>>◌, reject_if, ok_or}
use nocturnal_discord.State.{GuildState}
use Prim.Native.String.{len, ◌++◌ as ◌^^◌}
use text.Mathlib.Text.{starts_with}

-- `CLASSES`
abbrev pub classes : List String
classes =
    "Bard" ∷ "Cleric" ∷ "Druid" ∷ "Enchanter" ∷ "Magician" ∷ "Monk" ∷ "Necromancer" ∷ "Paladin"
    ∷ "Ranger" ∷ "Rogue" ∷ "Shadow Knight" ∷ "Shaman" ∷ "Warrior" ∷ "Wizard" ∷ "Beastlord" ∷ []

-- `PROFILE_BODY_MAX`
abbrev pub profile_body_max : ℕ
profile_body_max = 65_536

abbrev pub bad : String → String → Rejection
bad place reason = Rejection.invalid_roster_entry place reason

-- A page of quarmy.com, by its whole host.
unfoldable pub is_quarmy_url : String → Bool
is_quarmy_url url = starts_with url "https://quarmy.com/" || same url "https://quarmy.com"

-- `validate_roster_character`
unfoldable pub validate_roster_character : RosterCharacter → Result (Unit {0})
unfolding trim is_empty any_char is_control is_quarmy_url
validate_roster_character c = do
  let name = trim c.name
  reject_if (is_empty name || ltb 64 (len name) || any_char is_control name)
      (bad "name" "must be 1–64 printable characters")
  reject_if (not (any (λ k. same k c.class) classes))
      (bad "class" (◌^^◌ c.class " is not an EverQuest class"))
  reject_if (not (leb 1 c.level && leb c.level 65)) (bad "level" "must be 1–65")
  reject_if (elim c.aa [ none ↦ false | some aa ↦ not (leb 1 aa && leb aa 1000) ])
      (bad "aa" "must be 1–1000")
  reject_if (elim c.profile_url [ none ↦ false | some url ↦ not (is_quarmy_url url) ])
      (bad "quarmy_link" "must be a page under https://quarmy.com/")
  reject_if (ltb 25 (length c.access) || any (λ a. is_empty (trim a) || ltb 32 (len a)) c.access)
      (bad "access" "at most 25 labels of up to 32 characters")

unfoldable pub is_main : Option MainRank → Bool
is_main (some MainRank.main) = true
is_main _ = false

-- `==` on ranks
unfoldable pub same_rank : Option MainRank → Option MainRank → Bool
same_rank none none = true
same_rank (some MainRank.main) (some MainRank.main) = true
same_rank (some MainRank.second) (some MainRank.second) = true
same_rank _ _ = false

-- `ctx.actor == Actor::User(player)`
abbrev pub is_self : Actor → PlayerId → Bool
is_self (Actor.user id) player = id == player
is_self Actor.system player = false

-- An add of a character that is there, and an edit of one that is not.
unfoldable pub check_exists : Option RosterCharacter → Bool → String → Result (Unit {0})
check_exists (some _) false name = err (Rejection.roster_character_exists name)
check_exists none true name = err (Rejection.roster_character_missing name)
check_exists _ _ name = ok tt

-- `g.roster.get(player).and_then(|chars| chars.get(&key))`
unfoldable pub roster_entry : GuildState → PlayerId → String → Option RosterCharacter
roster_entry g player key = elim (OrdMap.get g.roster player) [
  | none ↦ none
  | some chars ↦ OrdMap.get chars key
]

-- `Command::IssueToken`, `Command::RefreshAccess`, `Command::RevokeToken`
unfoldable pub decide_issue_token : GuildState → String → String → String → Result (List Event)
decide_issue_token g username token_fp role = do
  reject_if (OrdMap.contains_key g.telemetry username) (Rejection.already_provisioned username)
  ok (Event.telemetry_token_issued username token_fp role ∷ [])

unfoldable pub decide_refresh_access : GuildState → String → String → Result (List Event)
decide_refresh_access g username role = do
  reject_if (not (OrdMap.contains_key g.telemetry username)) (Rejection.not_provisioned username)
  ok (Event.telemetry_access_updated username role ∷ [])

unfoldable pub decide_revoke_token : GuildState → String → Result (List Event)
decide_revoke_token g username = do
  reject_if (not (OrdMap.contains_key g.telemetry username)) (Rejection.not_provisioned username)
  ok (Event.telemetry_token_revoked username ∷ [])

module _ (p : Platform) where
  -- `Command::SetRosterCharacter`
  unfoldable pub decide_set_roster_character :
      GuildState → Actor → PlayerId → RosterCharacter → Bool → Result (List Event)
  decide_set_roster_character g actor player character replace = do
    validate_roster_character character
    let existing = roster_entry g player (p.to_lowercase character.name)
    check_exists existing replace character.name
    let rank : Option MainRank = elim existing [ none ↦ none | some e ↦ e.main ]
    reject_if (is_self actor player && not (same_rank character.main rank))
        (Rejection.rank_is_officers character.name)
    ok (Event.roster_character_set player character ∷ [])

  -- The other mains of a row, each stepped down.
  unfoldable pub demotions : PlayerId → String → OrdMap String RosterCharacter → List Event
  unfolding is_main
  demotions player key [] = []
  demotions player key ((_, other) ∷ row) =
      let rest = demotions player key row in
      if is_main other.main && not (same (p.to_lowercase other.name) key)
      then Event.roster_character_set player (record other { main = none }) ∷ rest
      else rest

  -- `Command::RankRosterCharacter`
  unfoldable pub decide_rank_roster_character :
      GuildState → PlayerId → String → Option MainRank → Result (List Event)
  unfolding demotions is_main
  decide_rank_roster_character g player name rank = do
    let key = p.to_lowercase name
    row ← ok_or (OrdMap.get g.roster player) (Rejection.roster_character_missing name)
    character ← ok_or (OrdMap.get row key) (Rejection.roster_character_missing name)
    ok (
        (if is_main rank then demotions player key row else [])
        ++ Event.roster_character_set player (record character { main = rank }) ∷ [])

  -- The text of the profile's "name", against the name that it is uploaded for.
  unfoldable pub check_profile_name : String → Option String → Result (Unit {0})
  unfolding eq_ignore_ascii_case
  check_profile_name name none = err (bad "profile" "names no character")
  check_profile_name name (some n) =
      reject_if (not (eq_ignore_ascii_case n name))
        (bad "profile" (◌^^◌ "is for " (◌^^◌ n (◌^^◌ ", not " name))))

  -- `serde_json::from_str(body).map_err(..)?`
  unfoldable pub parse_profile : String → Result p.Json
  parse_profile body = elim (p.from_str body) [
    | parsed v ↦ ok v
    | failed e ↦ err (bad "profile" (◌^^◌ "is not JSON: " e))
  ]

  -- `validate_profile_body`
  unfoldable pub validate_profile_body : String → String → Result (Unit {0})
  unfolding parse_profile check_profile_name show_nat
  validate_profile_body name body = do
    reject_if (ltb profile_body_max (len body)) (
        bad "profile" (
          ◌^^◌ "is " (
            ◌^^◌ (show_nat (len body)) (
              ◌^^◌ " bytes; a profile is under "
                (◌^^◌ (show_nat (profile_body_max / 1024)) " KB")))))
    v ← parse_profile body
    check_profile_name name (elim (p.member v "name") [ none ↦ none | some n ↦ p.as_str n ])
    reject_if (not (elim (p.member v "equipment") [ none ↦ false | some e ↦ p.is_array e ]))
        (bad "profile" "has no equipment list")

  -- `Command::UploadRosterProfile`
  unfoldable pub decide_upload_roster_profile :
      GuildState → ℤ → PlayerId → String → ProfileSource → String → Result (List Event)
  decide_upload_roster_profile g now_ms player name source body = do
    _ ←
        ok_or (roster_entry g player (p.to_lowercase name))
          (Rejection.roster_character_missing name)
    validate_profile_body name body
    ok (Event.roster_profile_uploaded player name source body now_ms ∷ [])

  -- `Command::RemoveRosterCharacter`
  unfoldable pub decide_remove_roster_character :
      GuildState → PlayerId → String → Result (List Event)
  decide_remove_roster_character g player name = do
    _ ←
        ok_or (roster_entry g player (p.to_lowercase name))
          (Rejection.roster_character_missing name)
    ok (Event.roster_character_removed player name ∷ [])
