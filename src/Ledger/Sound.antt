-- ===== src/Ledger/Sound.antt =====
-- Every ledger that commands lead to is sound: crates/nocturnal-core/src/lib.rs.
use nocturnal_discord.Prelude.{
  ℕ, ◌+◌, ◌%◌, ◌^◌, ◌≡◌, refl, ◌∙◌, subst, subst⁻¹, some, List, [], ◌∷◌, inl, inr, Bool-cases,
  arith, if◌then◌else◌,
}
use nocturnal_discord.Prelude.OrdMap
use nocturnal_discord.Prelude.OrdMap.{nat_key, text_key}
use nocturnal_discord.Event.{Event, Envelope, GuildId}
use nocturnal_discord.Command.{Command, Ctx}
use nocturnal_discord.Platform.{Platform}
use nocturnal_discord.Reject.{Result, ok, err, panic, ◌>>=◌, or_panic}
use nocturnal_discord.State.{State, GuildState, default_guild, guild, guild_mut}
use nocturnal_discord.Ledger.{Ledger, stage, propose, replay, commit, execute, envelope}
use nocturnal_discord.Decide.Step.{decide, decide_guild, guild_or_empty}
use nocturnal_discord.Apply.Step.{apply, apply_event}
use nocturnal_discord.Contract.Guard.{apply_all}
use nocturnal_discord.Ledger.Recovery.{Reached, start, step, commit-cons}

-- A guild of the state, an empty one where there is none.
abbrev pub guild_at : State → GuildId → GuildState
guild_at s k = OrdMap.get_or s.guilds k default_guild

pub guild_or_empty-eq :
    (p : Platform) (s : State) (ctx : Ctx) → guild_or_empty p s ctx ≡ guild_at s ctx.guild
unfolding guild_or_empty guild OrdMap.get_or
guild_or_empty-eq p s ctx = ground arith

abbrev done : List Envelope → Ledger → Result (Ledger × List Envelope)
done envs l = ok (l, envs)

module _ (p : Platform) where
  pub apply-guild_at :
      (s : State) (env : Envelope) (k : GuildId)
      → guild_at (apply p s env) k ≡ (
          if OrdMap.same env.guild k
          then apply_event p (guild_at s env.guild) env.ts_ms env.actor env.event
          else guild_at s k)
  unfolding apply guild_mut
  apply-guild_at s env k = OrdMap.get_or-upsert s.guilds env.guild k default_guild _

  replay-state :
      (l l' : Ledger) (env : Envelope) → replay p l env ≡ some l' → l'.state ≡ apply p l.state env
  unfolding replay
  replay-state l l' env h = ground arith

  commit-first :
      (l l' : Ledger) (env : Envelope) (envs : List Envelope)
      → commit p l (env ∷ envs) ≡ some l'
      → (l1 : Ledger) × (l1.state ≡ apply p l.state env) × (commit p l1 envs ≡ some l')
  commit-first l l' env envs h =
      let (l1, next, rest) = commit-cons p l l' env envs h in (l1, replay-state l l1 env next, rest)

  -- A commit of one command's envelopes changes that command's guild alone, by the command's events.
  commit-guild_at :
      (es : List Event) (ctx : Ctx) (n i : ℕ) (l l' : Ledger) (k : GuildId)
      → commit p l (stage n ctx i es) ≡ some l'
      → guild_at l'.state k ≡ (
          if OrdMap.same ctx.guild k
          then apply_all p (guild_at l.state ctx.guild) ctx.now_ms ctx.actor es
          else guild_at l.state k)
  unfolding stage apply_all
  commit-guild_at [] ctx n i l l' k h =
      let unmoved : l ≡ l' = unfold commit in cc in
      rw (← unmoved) (ground (arith, OrdMap.same_iff ctx.guild k))
  commit-guild_at (e ∷ es) ctx n i l l' k h =
      let env = envelope ((n + i) % 2 ^ 64) ctx e in
      let (l1, moved, rest) = commit-first l l' env (stage n ctx (i + 1) es) h in
      rw
        (
          commit-guild_at es ctx n (i + 1) l1 l' k rest,
          moved,
          apply-guild_at l.state env ctx.guild,
          apply-guild_at l.state env k,
          OrdMap.same_refl ctx.guild,
        )
        (ground arith)

  execute-events :
      (l l' : Ledger) (ctx : Ctx) (cmd : Command) (envs : List Envelope)
      → execute p l ctx cmd ≡ ok (l', envs)
      → (es : List Event) × (decide_guild p (guild_at l.state ctx.guild) ctx cmd ≡ ok es)
        × (commit p l (stage l.next_seq ctx 0 es) ≡ some l')
  unfolding execute propose decide
  execute-events l l' ctx cmd envs h =
      subst
        (λ g.
          (es : List Event) × (decide_guild p g ctx cmd ≡ ok es)
          × (commit p l (stage l.next_seq ctx 0 es) ≡ some l'))
        (guild_or_empty-eq p l.state ctx)
        (go (decide_guild p (guild_or_empty p l.state ctx) ctx cmd) refl h)
    where
      go :
          (r : Result (List Event))
          → decide_guild p (guild_or_empty p l.state ctx) ctx cmd ≡ r
          → ((r >>= λ events. ok (stage l.next_seq ctx 0 events)) >>= λ staged.
              or_panic (commit p l staged) >>= done staged)
            ≡ ok (l', envs)
          → (es : List Event) × (decide_guild p (guild_or_empty p l.state ctx) ctx cmd ≡ ok es)
            × (commit p l (stage l.next_seq ctx 0 es) ≡ some l')
      go (ok es) decided eq = (es, decided, ground arith)
      go (err x) decided eq = cc
      go panic decided eq = cc

  -- The guild of an executed command has had the decided events applied, in their order.
  pub execute-guild_at :
      (l l' : Ledger) (ctx : Ctx) (cmd : Command) (envs : List Envelope)
      → execute p l ctx cmd ≡ ok (l', envs)
      → (es : List Event) × (decide_guild p (guild_at l.state ctx.guild) ctx cmd ≡ ok es)
        × (guild_at l'.state ctx.guild
            ≡ apply_all p (guild_at l.state ctx.guild) ctx.now_ms ctx.actor es)
  execute-guild_at l l' ctx cmd envs h =
      let (es, decided, committed) = execute-events l l' ctx cmd envs h in
      (
        es,
        decided,
        commit-guild_at es ctx l.next_seq 0 l l' ctx.guild committed
            ∙ rw (OrdMap.same_refl ctx.guild) refl,
      )

  -- What holds of an empty guild and is kept by each decision holds of every guild of a ledger that
  -- commands lead to.
  pub Reached-keeps :
      {P : GuildState → Type 0}
      → ((g : GuildState) (ctx : Ctx) (cmd : Command) (es : List Event)
          → decide_guild p g ctx cmd ≡ ok es
          → P g
          → P (apply_all p g ctx.now_ms ctx.actor es))
      → P default_guild
      → (l : Ledger) (log : List Envelope) → Reached p l log
      → (k : GuildId) → P (guild_at l.state k)
  unfolding OrdMap.get_or OrdMap.get
  Reached-keeps keep empty l log start k = empty
  Reached-keeps {P} keep empty l log (step {l = before} {log = past} {envs = envs} ctx cmd r e) k =
      let (es, decided, committed) = execute-events before l ctx cmd envs e in
      let held = Reached-keeps keep empty before past r in
      subst⁻¹ P (commit-guild_at es ctx before.next_seq 0 before l k committed)
        (elim (Bool-cases (OrdMap.same ctx.guild k)) [
          | inl e' ↦ rw e' (keep _ ctx cmd es decided (held ctx.guild))
          | inr e' ↦ rw e' (held k)
        ])
