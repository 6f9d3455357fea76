-- ===== src/Provision/Projection.antt =====
-- `rematerialize` of crates/nocturnal/src/provision.rs: the files follow the ledger.
use nocturnal_discord.Prelude.{
  ◌≡◌, sym, subst, ◌∙◌, true, false, none, some, List, [], ◌∷◌, String, arith, inl, inr, Bool-cases,
}
use nocturnal_discord.Prelude.Lists.{All}
use nocturnal_discord.Prelude.Rising.{Rising}
use nocturnal_discord.Prelude.Rising.Kept.{
  with_values, Rising-with_values, contains_key-with_values,
}
use nocturnal_discord.Prelude.OrdMap
use nocturnal_discord.Prelude.OrdMap.{OrdMap, text_key, nat_key}
use nocturnal_discord.Event.{Event, Envelope, GuildId}
use nocturnal_discord.Command.{Command, Ctx}
use nocturnal_discord.Platform.{Platform}
use nocturnal_discord.Reject.{ok}
use nocturnal_discord.State.{GuildState, TokenGrant, guild}
use nocturnal_discord.Decide.Step.{decide_guild}
use nocturnal_discord.Decide.Roster.{decide_revoke_token}
use nocturnal_discord.Apply.Step.{apply_event}
use nocturnal_discord.Apply.Roster.{telemetry_token_revoked}
use nocturnal_discord.Contract.Guard.{apply_all}
use nocturnal_discord.Contract.Whole.{decision-keeps}
use nocturnal_discord.Invariant.Access.{Managed, Ordered, apply_event-Ordered}
use nocturnal_discord.Invariant.Reached.{Reached-Sound}
use nocturnal_discord.Ledger.{Ledger, execute}
use nocturnal_discord.Ledger.Recovery.{Reached}
use nocturnal_discord.Ledger.Sound.{guild_at, Reached-keeps, execute-guild_at}
use nocturnal_discord.Provision.{Grant}
use nocturnal_discord.Provision.Files.{Disk, Report, user_files, materialize}
use nocturnal_discord.Provision.Settled.{Reads}
use nocturnal_discord.Provision.Materialize.{
  Gone, materialize-Gone, Cleared, materialize-Reads, materialize-Cleared, materialize-materialize,
}

abbrev pub to_grant : TokenGrant → Grant
to_grant t = record { token_fp = t.token_fp; role = t.role }

-- What the driver is asked for: the managed names and the grants of a guild, none where there is no
-- guild.
unfoldable pub projection : Ledger → GuildId → OrdMap String (Unit {0}) × OrdMap String Grant
unfolding guild
projection l k = elim (guild l.state k) [
  | none ↦ ([], [])
  | some g ↦ (g.telemetry_managed, with_values to_grant g.telemetry)
]

unfoldable pub rematerialize : (String → String) → Ledger → GuildId → Disk → Disk × Report
unfolding projection materialize
rematerialize fingerprint l k d =
    let (managed, grants) = projection l k in materialize fingerprint managed grants d

projection_lem :
    (l : Ledger) (k : GuildId)
    → projection l k ≡ (
      (guild_at l.state k).telemetry_managed,
      with_values to_grant (guild_at l.state k).telemetry,
    )
unfolding projection guild OrdMap.get_or
projection_lem l k = ground arith

module _ (p : Platform) (fingerprint : String → String) where
  Reached-Ordered :
      (l : Ledger) (log : List Envelope) (k : GuildId)
      → Reached p l log
      → Ordered (guild_at l.state k)
  Reached-Ordered l log k r =
      Reached-keeps p {P = Ordered}
        (decision-keeps p {P = Ordered}
          (λ g ts actor e guard v. apply_event-Ordered p g ts actor e v))
        tt l log r k

  Reached-Managed :
      (l : Ledger) (log : List Envelope) (k : GuildId)
      → Reached p l log
      → Managed (guild_at l.state k)
  Reached-Managed l log k r = (Reached-Sound p l log k r).2

  projection-Rising :
      (l : Ledger) (log : List Envelope) (k : GuildId) → Reached p l log → Rising (projection l k).1
  projection-Rising l log k r =
      subst (λ t. Rising t.1) (sym (projection_lem l k))
        (Rising-with_values to_grant (guild_at l.state k).telemetry (Reached-Ordered l log k r))

  -- In every ledger that commands lead to, the rewrite of the derived files, which runs on every
  -- boot and after every change, finds nothing to do when it runs again: it leaves the disk as it
  -- is and reports nothing but the members whose secret is gone.
  pub rematerialize-rematerialize :
      (l : Ledger) (log : List Envelope) (k : GuildId) (d : Disk)
      → Reached p l log
      → rematerialize fingerprint l k (rematerialize fingerprint l k d).0 ≡ (
        (rematerialize fingerprint l k d).0,
        record {
          tokens_rewritten = false;
          files_written = 0;
          files_removed = 0;
          grants_without_secret = (rematerialize fingerprint l k d).1.grants_without_secret;
        },
      )
  unfolding rematerialize
  rematerialize-rematerialize l log k d r =
      let (managed, grants) = projection l k in
      materialize-materialize fingerprint managed grants d (projection-Rising l log k r)

  -- In every ledger that commands lead to, the rewrite leaves every member with a grant the files
  -- that the role asks for, whatever was on the disk, and no file of a member whose grant is gone.
  pub rematerialize-Reads :
      (l : Ledger) (log : List Envelope) (k : GuildId) (d : Disk)
      → Reached p l log
      → All
          (λ e.
            All (Reads (rematerialize fingerprint l k d).0.perses_dir) (user_files e.0 e.1.role))
          (projection l k).1
        × Cleared
            (projection l k).1
            (rematerialize fingerprint l k d).0.perses_dir
            (projection l k).0
  unfolding rematerialize
  rematerialize-Reads l log k d r =
      let (managed, grants) = projection l k in
      (
        materialize-Reads fingerprint managed grants d (projection-Rising l log k r),
        materialize-Cleared fingerprint managed grants d,
      )

  revoked-Gone :
      (l : Ledger) (k : GuildId) (d : Disk) (user : String)
      → OrdMap.contains_key (guild_at l.state k).telemetry_managed user ≡ true
      → OrdMap.contains_key (guild_at l.state k).telemetry user ≡ false
      → Gone user (rematerialize fingerprint l k d).0
  unfolding rematerialize
  revoked-Gone l k d user m g =
      materialize-Gone fingerprint (projection l k).0 (projection l k).1 d user
        (rw (projection_lem l k) m)
        (rw (projection_lem l k)
          (contains_key-with_values to_grant (guild_at l.state k).telemetry user ∙ g))

  contains_key-remove :
      (t : OrdMap String TokenGrant) (user : String)
      → OrdMap.contains_key (OrdMap.remove t user) user ≡ false
  unfolding OrdMap.contains_key
  contains_key-remove t user = ground (arith, OrdMap.get-remove t user user, OrdMap.same_refl user)

  revoked :
      (g : GuildState) (ctx : Ctx) (user : String) (es : List Event)
      → decide_guild p g ctx (Command.revoke_token user) ≡ ok es
      → Managed g
      → (OrdMap.contains_key (apply_all p g ctx.now_ms ctx.actor es).telemetry_managed user ≡ true)
        × (OrdMap.contains_key (apply_all p g ctx.now_ms ctx.actor es).telemetry user ≡ false)
  unfolding decide_guild decide_revoke_token
  revoked g ctx user es h m = elim (Bool-cases (OrdMap.contains_key g.telemetry user)) [
    | inl there ↦
        subst
          (λ xs.
            (OrdMap.contains_key (apply_all p g ctx.now_ms ctx.actor xs).telemetry_managed user
              ≡ true)
            × (OrdMap.contains_key (apply_all p g ctx.now_ms ctx.actor xs).telemetry user ≡ false))
          (events there) (after there)
    | inr none_there ↦ ground (arith, h, none_there)
  ]
    where
      events :
          OrdMap.contains_key g.telemetry user ≡ true
          → (Event.telemetry_token_revoked user ∷ []) ≡ es
      events there = ground (arith, h, there)

      after :
          OrdMap.contains_key g.telemetry user ≡ true
          → (OrdMap.contains_key
                (apply_all p g ctx.now_ms ctx.actor
                  (Event.telemetry_token_revoked user ∷ [])).telemetry_managed
                user
              ≡ true)
            × (OrdMap.contains_key
                  (apply_all p g ctx.now_ms ctx.actor
                    (Event.telemetry_token_revoked user ∷ [])).telemetry
                  user
                ≡ false)
      after there =
          unfold apply_all in
          unfold apply_event in
          unfold telemetry_token_revoked in (m user there, contains_key-remove g.telemetry user)

  -- Once a command has revoked a member's token in a ledger that commands lead to, the rewrite
  -- leaves no line of the tokens file that names the member and no file of the member, whatever was
  -- on the disk.
  pub revoke_token-Gone :
      (l l' : Ledger) (log envs : List Envelope) (ctx : Ctx) (user : String) (d : Disk)
      → Reached p l log
      → execute p l ctx (Command.revoke_token user) ≡ ok (l', envs)
      → Gone user (rematerialize fingerprint l' ctx.guild d).0
  revoke_token-Gone l l' log envs ctx user d r h =
      let (es, decided, applied) = execute-guild_at p l l' ctx (Command.revoke_token user) envs h in
      let (managed, gone) =
        revoked (guild_at l.state ctx.guild) ctx user es decided
          (Reached-Managed l log ctx.guild r) in
      revoked-Gone l' ctx.guild d user (rw applied managed) (rw applied gone)
