-- ===== src/Migrate/Balances.antt =====
-- The run of the genesis commands: crates/nocturnal-migrate/src/lib.rs.
use nocturnal_discord.Prelude.{
  ℕ, ◌+◌, ◌≡◌, refl, ap, ◌∙◌, Option, none, some, List, [], ◌∷◌, ◌++◌, map, if◌then◌else◌, arith,
}
use nocturnal_discord.Prelude.Int.{ℤ}
use nocturnal_discord.Prelude.Lists.{All}
use nocturnal_discord.Prelude.OrdMap
use nocturnal_discord.Prelude.OrdMap.{same, nat_key, text_key}
use nocturnal_discord.Event.{Event, Envelope, ImportedPlayer}
use nocturnal_discord.Command.{Command, Ctx}
use nocturnal_discord.Platform.{Platform}
use nocturnal_discord.Reject.{ok}
use nocturnal_discord.State.{GuildState, guild, balance, default_guild}
use nocturnal_discord.Ledger.{Ledger}
use nocturnal_discord.Decide.Step.{decide_guild}
use nocturnal_discord.Decide.Raids.{decide_import_player, decide_import_raid}
use nocturnal_discord.Apply.Step.{apply_event}
use nocturnal_discord.Apply.Players.{player_imported}
use nocturnal_discord.Ledger.Recovery.{InRange}
use nocturnal_discord.Ledger.Sound.{guild_at}
use nocturnal_discord.Migrate.{
  LegacyPlayer, LegacyRaid, convert_entry, parse_id, raid_command, raid_commands, player_command,
  player_commands,
}
use nocturnal_discord.Migrate.Genesis.{execute_all, execute-one}

abbrev pub or_default : Option GuildState → GuildState
or_default none = default_guild
or_default (some g) = g

abbrev import_of : ℕ → LegacyPlayer → ImportedPlayer
import_of n q = record {
  player = n;
  legacy_id = q.id;
  balance = q.current;
  characters = q.characters;
  creation_ts_ms = q.creation_date;
  log = map convert_entry q.log;
}

-- The event of an import.
abbrev event_of : Command → Event
event_of (Command.import_player i) = Event.player_imported i
event_of (Command.import_raid r) = Event.raid_imported r
event_of _ = Event.telemetry_token_revoked ""

module _ (p : Platform) (ctx : Ctx) where
  abbrev pub Accepted : Command → Type 0
  Accepted c = (g : GuildState) → decide_guild p g ctx c ≡ ok (event_of c ∷ [])

  -- The guild after the events of the imports.
  abbrev pub after : Option GuildState → List Command → Option GuildState
  after o [] = o
  after o (c ∷ cs) =
      after (some (apply_event p (or_default o) ctx.now_ms ctx.actor (event_of c))) cs

  guild_at-or_default :
      (l : Ledger) → guild_at l.state ctx.guild ≡ or_default (guild l.state ctx.guild)
  unfolding OrdMap.get_or guild
  guild_at-or_default l = ground arith

  abbrev pub Ran : Ledger → List Command → Type 0
  Ran l cs =
      (l' : Ledger) × (envs : List Envelope) × (execute_all p l ctx cs ≡ ok (l', envs))
      × InRange l'
      × (guild l'.state ctx.guild ≡ after (guild l.state ctx.guild) cs)

  pub run_imports : (l : Ledger) (cs : List Command) → InRange l → All Accepted cs → Ran l cs
  unfolding execute_all
  run_imports l [] h a = (l, [], refl, h, refl)
  run_imports l (c ∷ cs) h a =
      let (l1, envs, done, near, found) =
        execute-one p l ctx c (event_of c) h (a.0 (guild_at l.state ctx.guild)) in
      let (l2, more, rest, range, last) = run_imports l1 cs near a.1 in
      (
        l2,
        envs ++ more,
        rw (execute_all, done, rest) refl,
        range,
        last ∙ ap (λ o. after o cs) (found ∙ rw (guild_at-or_default l) refl),
      )

  pub raid_commands-Accepted : (i : ℕ) (rs : List LegacyRaid) → All Accepted (raid_commands i rs)
  unfolding raid_commands
  raid_commands-Accepted i [] = tt
  raid_commands-Accepted i (r ∷ rs) = (
    λ g. unfold raid_command in unfold decide_guild in unfold decide_import_raid in refl,
    raid_commands-Accepted (i + 1) rs,
  )

  pub player_commands-Accepted : (ps : List LegacyPlayer) → All Accepted (player_commands ps)
  unfolding player_commands
  player_commands-Accepted [] = tt
  player_commands-Accepted (q ∷ ps) = pick (parse_id q.player) (player_commands-Accepted ps)
    where
      pick :
          (o : Option ℕ)
          → All Accepted (player_commands ps)
          → All Accepted (elim o [
            | none ↦ player_commands ps
            | some n ↦ player_command n q ∷ player_commands ps
          ])
      pick none rest = rest
      pick (some n) rest = (
        λ g. unfold player_command in unfold decide_guild in unfold decide_import_player in refl,
        rest,
      )

  -- The balances after the imports of players, each the last one that is given.
  abbrev pub imported : List LegacyPlayer → (ℕ → ℤ) → ℕ → ℤ
  imported [] f u = f u
  imported (q ∷ ps) f u =
      imported ps
        (λ v. elim (parse_id q.player) [
          | none ↦ f v
          | some n ↦ if same n v then q.current else f v
        ])
        u

  player_imported-balance :
      (g : GuildState) (i : ImportedPlayer) (u : ℕ)
      → balance (player_imported p g i) u ≡ (if same i.player u then i.balance else balance g u)
  unfolding balance player_imported
  player_imported-balance g i u = rw (player_imported, balance, OrdMap.get-insert) (ground arith)

  imported-ext :
      (ps : List LegacyPlayer) (f g : ℕ → ℤ) (u : ℕ)
      → ((v : ℕ) → f v ≡ g v)
      → imported ps f u ≡ imported ps g u
  imported-ext ps f g u h = ap (λ k. imported ps k u) (λ i v. h v i)

  pub after-player_commands :
      (ps : List LegacyPlayer) (o : Option GuildState) (u : ℕ)
      → balance (or_default (after o (player_commands ps))) u
        ≡ imported ps (balance (or_default o)) u
  unfolding player_commands
  after-player_commands [] o u = refl
  after-player_commands (q ∷ ps) o u =
      pick (parse_id q.player) (λ o'. after-player_commands ps o' u)
    where
      moved :
          (n v : ℕ)
          → balance
              (apply_event p (or_default o) ctx.now_ms ctx.actor (event_of (player_command n q)))
              v
            ≡ (if same n v then q.current else balance (or_default o) v)
      moved n v =
          unfold player_command in
          unfold apply_event in player_imported-balance (or_default o) (import_of n q) v

      pick :
          (x : Option ℕ)
          → ((o' : Option GuildState)
              → balance (or_default (after o' (player_commands ps))) u
                ≡ imported ps (balance (or_default o')) u)
          → balance
              (or_default (
                after o (elim x [
                  | none ↦ player_commands ps
                  | some n ↦ player_command n q ∷ player_commands ps
                ])))
              u
            ≡ imported ps
                (λ v. elim x [
                  | none ↦ balance (or_default o) v
                  | some n ↦ if same n v then q.current else balance (or_default o) v
                ])
                u
      pick none rest = rest o
      pick (some n) rest =
          rest _
          ∙ imported-ext ps _ (λ v. if same n v then q.current else balance (or_default o) v) u
              (moved n)
