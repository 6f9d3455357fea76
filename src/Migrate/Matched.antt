-- ===== src/Migrate/Matched.antt =====
-- The genesis run as a whole: crates/nocturnal-migrate/src/lib.rs.
use nocturnal_discord.Prelude.{
  ℕ, ◌+◌, ◌≡◌, refl, ap, ◌∙◌, Bool, true, false, not, Option, none, some, List, [], ◌∷◌, ◌++◌, map,
  ◌==◌, if◌then◌else◌, arith,
}
use nocturnal_discord.Prelude.Int.{eqb_refl, ℤ, pos, eqb_ℤ, ltb_ℤ, mul_i64}
use nocturnal_discord.Prelude.Chain.{both_true, both_false}
use nocturnal_discord.Prelude.Lists.{any, is_nil, All, All-append}
use nocturnal_discord.Prelude.OrdMap
use nocturnal_discord.Prelude.OrdMap.{same, same_refl, nat_key, text_key}
use nocturnal_discord.Event.{GuildId, Actor, Event, Envelope}
use nocturnal_discord.Command.{Command, Ctx}
use nocturnal_discord.Platform.{Platform}
use nocturnal_discord.Reject.{ok}
use nocturnal_discord.State.{GuildState, guild, balance, day_ms}
use nocturnal_discord.Ledger.{Ledger, new}
use nocturnal_discord.Decide.Step.{decide_guild}
use nocturnal_discord.Decide.Config.{decide_update_config, validate_config}
use nocturnal_discord.Ledger.Sound.{guild_at}
use nocturnal_discord.Migrate.{
  LegacyPlayer, LegacyRaid, parse_id, parse_ids, raid_commands, player_commands, genesis_commands,
  genesis_guild, config_commands, deprecation_patch,
}
use nocturnal_discord.Migrate.Genesis.{
  Run, Verified, execute_all, execute-one, verify, run_genesis, distinct, is_positive,
}
use nocturnal_discord.Migrate.Balances.{
  or_default, after, Accepted, imported, run_imports, raid_commands-Accepted,
  player_commands-Accepted, after-player_commands,
}

abbrev ids : List LegacyPlayer → List ℕ
ids ps = parse_ids (map (λ q. q.player) ps)

not-true : (b : Bool) → not b ≡ true → b ≡ false
not-true true h = ground (arith, h)
not-true false h = refl

module _ (p : Platform) (ctx : Ctx) where
  -- A player who does not come again keeps the balance.
  imported-other :
      (ps : List LegacyPlayer) (f : ℕ → ℤ) (u : ℕ)
      → any (λ m. m == u) (ids ps) ≡ false
      → imported p ctx ps f u ≡ f u
  unfolding parse_ids same
  imported-other [] f u h = refl
  imported-other (q ∷ ps) f u h = pick (parse_id q.player) (λ f' k. imported-other ps f' u k) h
    where
      pick :
          (x : Option ℕ)
          → ((f' : ℕ → ℤ) → any (λ m. m == u) (ids ps) ≡ false → imported p ctx ps f' u ≡ f' u)
          → any (λ m. m == u) (elim x [ none ↦ ids ps | some n ↦ n ∷ ids ps ]) ≡ false
          → imported p ctx ps
              (λ v. elim x [ none ↦ f v | some n ↦ if same n v then q.current else f v ])
              u
            ≡ f u
      pick none rest k = rest f k
      pick (some n) rest k =
          let (off, other) = both_false (n == u) (any (λ m. m == u) (ids ps)) k in
          rest (λ v. if same n v then q.current else f v) other ∙ ground (arith, off)

  verify-matches :
      (g : GuildState) (ps : List LegacyPlayer) (f : ℕ → ℤ)
      → ((u : ℕ) → balance g u ≡ imported p ctx ps f u)
      → distinct (ids ps) ≡ true
      → (verify g ps).1 ≡ 0
  unfolding verify distinct parse_ids
  verify-matches g [] f b h = refl
  verify-matches g (q ∷ ps) f b h =
      pick (parse_id q.player) (λ f' b' k. verify-matches g ps f' b' k) b h
    where
      pick :
          (x : Option ℕ)
          → ((f' : ℕ → ℤ)
              → ((u : ℕ) → balance g u ≡ imported p ctx ps f' u)
              → distinct (ids ps) ≡ true
              → (verify g ps).1 ≡ 0)
          → ((u : ℕ)
              → balance g u
                ≡ imported p ctx ps
                    (λ v. elim x [ none ↦ f v | some n ↦ if same n v then q.current else f v ])
                    u)
          → distinct (elim x [ none ↦ ids ps | some n ↦ n ∷ ids ps ]) ≡ true
          → (elim x as (λ _. List Verified × ℕ) [
            | none ↦ verify g ps
            | some player ↦ (
              record { player = player; snapshot = q.current; replayed = balance g player }
                  ∷ (verify g ps).0,
              if eqb_ℤ (balance g player) q.current then (verify g ps).1 else (verify g ps).1 + 1,
            )
          ]).1
            ≡ 0
      pick none rest c k = rest f c k
      pick (some n) rest c k =
          let (once, others) =
            both_true (not (any (λ m. m == n) (ids ps))) (distinct (ids ps))
              (unfold distinct in k) in
          rw (matched c (not-true _ once), eqb_refl q.current)
            (rest (λ v. if same n v then q.current else f v) c others)
        where
          same_if : (if same n n then q.current else f n) ≡ q.current
          same_if = rw (same_refl n) refl

          matched :
              ((u : ℕ)
                → balance g u ≡ imported p ctx ps (λ v. if same n v then q.current else f v) u)
              → any (λ m. m == n) (ids ps) ≡ false
              → balance g n ≡ q.current
          matched c' off =
              c' n ∙ imported-other ps (λ v. if same n v then q.current else f v) n off ∙ same_if

  after-append :
      (xs ys : List Command) (o : Option GuildState)
      → after p ctx o (xs ++ ys) ≡ after p ctx (after p ctx o xs) ys
  after-append [] ys o = refl
  after-append (x ∷ xs) ys o = after-append xs ys _

  after-some :
      (cs : List Command) (g : GuildState)
      → after p ctx (some g) cs ≡ some (or_default (after p ctx (some g) cs))
  after-some [] g = refl
  after-some (c ∷ cs) g = after-some cs _

  after-nonempty :
      (cs : List Command)
      → is_nil cs ≡ false
      → after p ctx none cs ≡ some (or_default (after p ctx none cs))
  after-nonempty [] h = ground (arith, h)
  after-nonempty (c ∷ cs) h = after-some cs _

  config-decided :
      (ms : ℤ)
      → ltb_ℤ (pos 0) ms ≡ true
      → decide_guild p
          (guild_at new.state ctx.guild)
          ctx
          (Command.update_config (deprecation_patch ms))
        ≡ ok (Event.config_updated (deprecation_patch ms) ∷ [])
  unfolding decide_guild decide_update_config validate_config OrdMap.get_or OrdMap.get
  config-decided ms h = ground (arith, h)

  imports-Accepted :
      (players : List LegacyPlayer) (raids : List LegacyRaid)
      → All (Accepted p ctx) (raid_commands 0 raids ++ player_commands players)
  imports-Accepted players raids =
      All-append (Accepted p ctx) (raid_commands 0 raids) (player_commands players)
        (raid_commands-Accepted p ctx 0 raids) (player_commands-Accepted p ctx players)

  -- What the whole run leaves: the guild, with the balances of the snapshot.
  abbrev Ends : List Command → List LegacyPlayer → Type 0
  Ends cmds players =
      (l : Ledger) × (envs : List Envelope) × (g : GuildState) × (execute_all p new ctx cmds
        ≡ ok (l, envs))
      × (guild l.state ctx.guild ≡ some g)
      × ((verify g players).1 ≡ 0)

  after-matches :
      (players : List LegacyPlayer) (raids : List LegacyRaid) (o : Option GuildState)
      → distinct (ids players) ≡ true
      → (verify
          (or_default (after p ctx o (raid_commands 0 raids ++ player_commands players)))
          players).1
        ≡ 0
  after-matches players raids o once =
      verify-matches _ players (balance (or_default (after p ctx o (raid_commands 0 raids))))
        (λ u.
          ap (λ t. balance (or_default t) u)
            (after-append (raid_commands 0 raids) (player_commands players) o)
          ∙ after-player_commands p ctx players (after p ctx o (raid_commands 0 raids)) u)
        once

  ends :
      (players : List LegacyPlayer) (raids : List LegacyRaid) (days : Option ℤ)
      → is_positive days ≡ true
      → distinct (ids players) ≡ true
      → is_nil (config_commands days ++ (raid_commands 0 raids ++ player_commands players)) ≡ false
      → Ends (config_commands days ++ (raid_commands 0 raids ++ player_commands players)) players
  unfolding config_commands is_positive guild OrdMap.get execute_all
  ends players raids none right once some_command =
      let cmds = raid_commands 0 raids ++ player_commands players in
      let (l, envs, done, range, found) =
        run_imports p ctx new cmds (omega arith) (imports-Accepted players raids) in
      (
        l,
        envs,
        or_default (after p ctx none cmds),
        done,
        found ∙ after-nonempty cmds some_command,
        after-matches players raids none once,
      )
  ends players raids (some d) right once some_command =
      let cmds = raid_commands 0 raids ++ player_commands players in
      let patch = deprecation_patch (mul_i64 d day_ms) in
      let (l1, envs, first, near, there) =
        execute-one p new ctx (Command.update_config patch) (Event.config_updated patch)
          (omega arith) (config-decided (mul_i64 d day_ms) right) in
      let (l, more, done, range, found) =
        run_imports p ctx l1 cmds near (imports-Accepted players raids) in
      (
        l,
        envs ++ more,
        or_default (after p ctx (some _) cmds),
        rw (execute_all, first, done) refl,
        found ∙ ap (λ o. after p ctx o cmds) there ∙ after-some cmds _,
        after-matches players raids (some _) once,
      )

run_genesis_lem :
    (p : Platform) (players : List LegacyPlayer) (k : GuildId) (cmds : List Command) (now : ℤ)
    (l : Ledger) (envs : List Envelope) (g : GuildState)
    → execute_all p new (record { guild = k; actor = Actor.system; now_ms = now }) cmds
      ≡ ok (l, envs)
    → guild l.state k ≡ some g
    → run_genesis p new k cmds players now
      ≡ ok (record {
        ledger = l;
        envelopes = envs;
        lines = (verify g players).0;
        mismatches = (verify g players).1;
      })
unfolding run_genesis
run_genesis_lem p players k cmds now l envs g done found = rw (run_genesis, done, found) refl

-- The genesis run over a new ledger accepts every command and finds every balance as in the
-- snapshot: where the players' numbers are different, the time for old raids is positive if one is
-- given, and there is a command at all, it returns, with no mismatch.
pub run_genesis-matches :
    (p : Platform) (players : List LegacyPlayer) (raids : List LegacyRaid) (days : Option ℤ)
    (now : ℤ)
    → is_positive days ≡ true
    → distinct (parse_ids (map (λ q. q.player) players)) ≡ true
    → is_nil (genesis_commands players raids days).1 ≡ false
    → (r : Run) × (run_genesis p new
          (genesis_guild players raids)
          (genesis_commands players raids days).1
          players
          now
        ≡ ok r)
      × (r.mismatches ≡ 0)
unfolding genesis_commands
run_genesis-matches p players raids days now right once some_command =
    let ctx : Ctx = record {
      guild = genesis_guild players raids;
      actor = Actor.system;
      now_ms = now;
    } in
    let (l, envs, g, done, found, matched) =
      ends p ctx players raids days right once some_command in
    (
      record {
        ledger = l;
        envelopes = envs;
        lines = (verify g players).0;
        mismatches = (verify g players).1;
      },
      run_genesis_lem p players _ _ now l envs g done found,
      matched,
    )
