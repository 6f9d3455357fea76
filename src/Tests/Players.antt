-- ===== src/Tests/Players.antt =====
-- What is read from a pasted answer to `/who`, at the text of the tests of who.rs.
use nocturnal_discord.Prelude.{◌≡◌, refl, not, some, List, [], ◌∷◌, map, String}
use nocturnal_discord.Prelude.Lists.{keep}
use nocturnal_discord.Prelude.Text.{any_char, is_empty}
use nocturnal_discord.Prelude.Int.{pos}
use nocturnal_discord.Who.{is_word_char, names_after, parse_header_ts}
use nocturnal_discord.Who.Listed.{Row, listing, is_filler, names_after-listing}

abbrev pasted : String
pasted =
    "[Sun Nov 19 09:52:52 2023] Players on EverQuest:\n[Sun Nov 19 09:52:52 2023] [ANONYMOUS] Julia  <Alianza>\n[Sun Nov 19 09:52:52 2023] [44 Monk] Santiwill (Dark Elf) <Alianza>\n[Sun Nov 19 09:52:52 2023] There are 6 players in Kedge Keep."

names_after-pasted : names_after pasted ≡ "Julia" ∷ "Santiwill" ∷ []
unfolding names_after
names_after-pasted = refl

parse_header_ts-pasted : parse_header_ts pasted ≡ some (pos 1_700_387_572_000)
unfolding parse_header_ts
parse_header_ts-pasted = refl

abbrev rows : List Row
rows =
    record { time = "09:52"; level = "ANONYMOUS"; name = "Julia"; tail = " <Alianza>" }
    ∷ record { time = "09:52"; level = "44 Monk"; name = "Players"; tail = "" }
    ∷ []

names_after-listing_example :
    names_after (listing rows) ≡ keep (λ w. not (is_filler w)) (map (λ r. r.name) rows)
unfolding any_char is_empty is_word_char
names_after-listing_example =
    names_after-listing rows
      ((refl, (refl, (refl, (refl, refl)))), ((refl, (refl, (refl, (refl, refl)))), tt))
