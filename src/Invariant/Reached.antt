-- ===== src/Invariant/Reached.antt =====
-- The invariants over the whole life of a ledger: crates/nocturnal-core/src/lib.rs.
use nocturnal_discord.Prelude.{◌≡◌, List}
use nocturnal_discord.Prelude.OrdMap
use nocturnal_discord.Event.{Event, Envelope, GuildId}
use nocturnal_discord.Command.{Command, Ctx}
use nocturnal_discord.Platform.{Platform}
use nocturnal_discord.Reject.{ok}
use nocturnal_discord.State.{GuildState, default_guild}
use nocturnal_discord.Decide.Step.{decide_guild}
use nocturnal_discord.Contract.Guard.{apply_all}
use nocturnal_discord.Contract.Whole.{decision-keeps}
use nocturnal_discord.Invariant.Raids.{OneActive, decision-OneActive}
use nocturnal_discord.Invariant.Access.{Managed, decision-Managed}
use nocturnal_discord.Invariant.Entries.{OnePerPlayer, apply_event-OnePerPlayer}
use nocturnal_discord.Ledger.{Ledger}
use nocturnal_discord.Ledger.Recovery.{Reached}
use nocturnal_discord.Ledger.Sound.{guild_at, Reached-keeps}

-- One active raid at most, one bid and roll per player, every grant among the managed names.
abbrev pub Sound : GuildState → Type 0
Sound g = OneActive g × OnePerPlayer g × Managed g

default-Sound : Sound default_guild
unfolding OrdMap.get OrdMap.contains_key
default-Sound = ((λ id h. cc), (λ id. tt), (λ u h. cc))

decision-Sound :
    (p : Platform) (g : GuildState) (ctx : Ctx) (cmd : Command) (es : List Event)
    → decide_guild p g ctx cmd ≡ ok es
    → Sound g
    → Sound (apply_all p g ctx.now_ms ctx.actor es)
decision-Sound p g ctx cmd es h (active, once, managed) = (
  decision-OneActive p g ctx cmd es h active,
  decision-keeps p {P = OnePerPlayer}
      (λ g' ts actor e guard v. apply_event-OnePerPlayer p g' ts actor e v) g ctx cmd es h once,
  (decision-Managed p g ctx cmd es h managed).0,
)

-- In every ledger that commands lead to from an empty one, every guild has one active raid at most,
-- one bid and one roll per player on an auction, and each grant among the managed names.
pub Reached-Sound :
    (p : Platform) (l : Ledger) (log : List Envelope) (k : GuildId)
    → Reached p l log
    → Sound (guild_at l.state k)
Reached-Sound p l log k r = Reached-keeps p {P = Sound} (decision-Sound p) default-Sound l log r k
