-- ===== src/State/Nights.antt =====
-- Raid nights, of crates/nocturnal-core/src/state.rs: raids under one name, back to back.
use nocturnal_discord.Prelude.{
  Bool, none, some, List, [], ◌∷◌, ◌++◌, String, ◌&&◌, ◌||◌, if◌then◌else◌,
}
use nocturnal_discord.Prelude.Int.{ℤ, pos, leb_ℤ, min_ℤ, add_i64}
use nocturnal_discord.Prelude.Lists.{head?, last?, any, sort_by}
use nocturnal_discord.Prelude.Text.{trim, is_empty, eq_ignore_ascii_case, ends_with_char}
use nocturnal_discord.State.{GuildState, Raid}
use text.Mathlib.Text.{starts_with}

abbrev pub same_raid_gap_ms : ℤ
same_raid_gap_ms = pos 1_800_000

unfoldable pub raid_window : Raid → ℤ × ℤ
unfolding min_ℤ
raid_window r = (
  elim (head? r.entries) [ none ↦ r.date_ms | some e ↦ min_ℤ e.ts_ms r.date_ms ],
  elim r.ended_ms [
    | none ↦ elim (last? r.entries) [ none ↦ r.date_ms | some e ↦ e.ts_ms ]
    | some ended ↦ ended
  ],
)

unfoldable pub is_placeholder_raid_name : String → Bool
unfolding trim ends_with_char is_empty
is_placeholder_raid_name name =
    let n = trim name in is_empty n || (starts_with n "<t:" && ends_with_char n b'>')

unfoldable pub same_raid : Raid → Raid → Bool
unfolding raid_window is_placeholder_raid_name eq_ignore_ascii_case add_i64 trim
same_raid a b =
    let na = trim a.name in
    let nb = trim b.name in
    let (sa, ea) = raid_window a in
    let (sb, eb) = raid_window b in
    (is_placeholder_raid_name na || is_placeholder_raid_name nb || eq_ignore_ascii_case na nb)
    && leb_ℤ sb (add_i64 ea same_raid_gap_ms)
    && leb_ℤ sa (add_i64 eb same_raid_gap_ms)

abbrev pub Night : Type 0
Night = List (String × Raid)

-- One raid joins the night that was begun last, or begins one; the latest night stands first.
unfoldable pub join_night : String × Raid → List Night → List Night
unfolding same_raid
join_night r [] = (r ∷ []) ∷ []
join_night r (n ∷ nights) =
    if any (λ x. same_raid x.1 r.1) n then (n ++ r ∷ []) ∷ nights else (r ∷ []) ∷ n ∷ nights

unfoldable pub group_nights : List Night → List (String × Raid) → List Night
unfolding join_night
group_nights nights [] = nights
group_nights nights (r ∷ rs) = group_nights (join_night r nights) rs

-- `GuildState::raid_nights`: newest night first, the oldest raid of a night first.
unfoldable pub raid_nights : GuildState → List Night
unfolding group_nights sort_by raid_window
raid_nights g =
    group_nights [] (sort_by (λ x y. leb_ℤ (raid_window x.1).0 (raid_window y.1).0) g.raids)
