-- ===== src/Migrate/Genesis.antt =====
-- `run_genesis` of crates/nocturnal-migrate/src/lib.rs: every command accepted, and every balance
-- as in the snapshot.
use nocturnal_discord.Prelude.{
  ℕ, ◌+◌, ◌%◌, ◌^◌, ◌≡◌, refl, ◌∙◌, Bool, true, not, ◌&&◌, Option, none, some, List, [], ◌∷◌, ◌++◌,
  ◌==◌, if◌then◌else◌, arith,
}
use nocturnal_discord.Prelude.Int.{ℤ, pos, eqb_ℤ, ltb_ℤ, mul_i64}
use nocturnal_discord.Prelude.Lists.{any}
use nocturnal_discord.Prelude.OrdMap
use nocturnal_discord.Prelude.OrdMap.{same, nat_key, text_key}
use nocturnal_discord.Event.{GuildId, Actor, Event, Envelope}
use nocturnal_discord.Command.{Command, Ctx}
use nocturnal_discord.Platform.{Platform}
use nocturnal_discord.Reject.{Result, ok, err, panic}
use nocturnal_discord.State.{GuildState, guild, guild_mut, balance, day_ms, default_guild}
use nocturnal_discord.Ledger.{Ledger, execute, propose, commit, envelope, stage}
use nocturnal_discord.Decide.Step.{decide, decide_guild}
use nocturnal_discord.Apply.Step.{apply, apply_event}
use nocturnal_discord.Ledger.Recovery.{InRange, replay-next}
use nocturnal_discord.Ledger.Sound.{guild_at, guild_or_empty-eq}
use nocturnal_discord.Migrate.{LegacyPlayer, parse_id}

-- No number twice.
unfoldable pub distinct : List ℕ → Bool
distinct [] = true
distinct (n ∷ ns) = not (any (λ m. m == n) ns) && distinct ns

-- The time after which a raid is old is positive, where one is given.
unfoldable pub is_positive : Option ℤ → Bool
unfolding mul_i64
is_positive none = true
is_positive (some days) = ltb_ℤ (pos 0) (mul_i64 days day_ms)

-- One line of the verification report.
pub record Verified : Type 0 where
  pub player : ℕ
  pub snapshot : ℤ
  pub replayed : ℤ

pub record Run : Type 0 where
  pub ledger : Ledger
  pub envelopes : List Envelope
  pub lines : List Verified
  pub mismatches : ℕ

-- The loop over the players.
unfoldable pub verify : GuildState → List LegacyPlayer → List Verified × ℕ
verify g [] = ([], 0)
verify g (p ∷ ps) =
    let (lines, mismatches) = verify g ps in
    elim (parse_id p.player) [
      | none ↦ (lines, mismatches)
      | some player ↦ (
        record { player = player; snapshot = p.current; replayed = balance g player } ∷ lines,
        if eqb_ℤ (balance g player) p.current then mismatches else mismatches + 1,
      )
    ]

module _ (p : Platform) where
  -- The loop over the commands: a rejection is the panic of `expect`.
  unfoldable pub execute_all : Ledger → Ctx → List Command → Result (Ledger × List Envelope)
  execute_all l ctx [] = ok (l, [])
  execute_all l ctx (c ∷ cs) = elim (execute p l ctx c) [
    | ok (l', envs) ↦ elim (execute_all l' ctx cs) [
      | ok (l'', more) ↦ ok (l'', envs ++ more)
      | err r ↦ panic
      | panic ↦ panic
    ]
    | err r ↦ panic
    | panic ↦ panic
  ]

  unfoldable pub run_genesis : Ledger → GuildId → List Command → List LegacyPlayer → ℤ → Result Run
  run_genesis l k commands players now =
      elim (execute_all l (record { guild = k; actor = Actor.system; now_ms = now }) commands) [
        | ok (l', envs) ↦ elim (guild l'.state k) [
          | none ↦ panic
          | some g ↦
              let (lines, mismatches) = verify g players in
              ok (record { ledger = l'; envelopes = envs; lines = lines; mismatches = mismatches })
        ]
        | err r ↦ panic
        | panic ↦ panic
      ]

  -- An accepted command with one event.
  pub execute-one :
      (l : Ledger) (ctx : Ctx) (cmd : Command) (e : Event)
      → InRange l
      → decide_guild p (guild_at l.state ctx.guild) ctx cmd ≡ ok (e ∷ [])
      → (l' : Ledger) × (envs : List Envelope) × (execute p l ctx cmd ≡ ok (l', envs))
        × InRange l'
        × (guild l'.state ctx.guild
            ≡ some (apply_event p (guild_at l.state ctx.guild) ctx.now_ms ctx.actor e))
  execute-one l ctx cmd e h decided = (moved, env ∷ [], accepted, omega arith, found)
    where
      env : Envelope
      env = envelope ((l.next_seq + 0) % 2 ^ 64) ctx e

      moved : Ledger
      moved = record { state = apply p l.state env; next_seq = (l.next_seq + 1) % 2 ^ 64 }

      accepted : execute p l ctx cmd ≡ ok (moved, env ∷ [])
      accepted =
          unfold execute in
          unfold propose in
          unfold decide in
          rw
            (
              guild_or_empty-eq p l.state ctx,
              decided,
              stage,
              commit,
              replay-next p l env (omega arith),
            )
            refl

      found :
          guild moved.state ctx.guild
          ≡ some (apply_event p (guild_at l.state ctx.guild) ctx.now_ms ctx.actor e)
      found =
          unfold apply in
          unfold guild_mut in
          unfold guild in
          OrdMap.get-upsert l.state.guilds ctx.guild ctx.guild default_guild
            (λ g. apply_event p g ctx.now_ms ctx.actor e)
          ∙ rw (OrdMap.same_refl ctx.guild) refl
