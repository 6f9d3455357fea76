-- ===== src/Who/Listed.antt =====
-- crates/nocturnal-core/src/who.rs: the names that come back from the lines of an answer to `/who`.
use nocturnal_discord.Prelude.{◌≡◌, refl, Bool, false, not, ◌||◌, List, [], ◌∷◌, map, String, ◌==◌}
use nocturnal_discord.Prelude.Lists.{All, keep}
use nocturnal_discord.Prelude.OrdMap.{text_key, same}
use nocturnal_discord.Prelude.Text.{any_char, is_empty}
use nocturnal_discord.Who.{is_word_char, word_at, push_word, names_after}
use Prim.Native.Char.{code}
use mathlib.Core.Path.{◌∙◌}
use native.Mathlib.Omega.{arith}

-- A line of the game: a time and a level with a class, each in brackets, a name, and the rest.
pub record Row : Type 0 where
  pub time : String
  pub level : String
  pub name : String
  pub tail : String

abbrev put : String → String → String
put String.[] t = t
put (String.◌∷◌ c s) t = String.◌∷◌ c (put s t)

abbrev named_text : Row → String → String
named_text r rest = put r.name (String.◌∷◌ " " (put r.tail (String.◌∷◌ "\n" rest)))

abbrev level_text : Row → String → String
level_text r rest = put r.level (String.◌∷◌ "]" (String.◌∷◌ " " (named_text r rest)))

abbrev row_text : Row → String → String
row_text r rest =
    String.◌∷◌ "["
      (put r.time (String.◌∷◌ "]" (String.◌∷◌ " " (String.◌∷◌ "[" (level_text r rest)))))

abbrev pub listing : List Row → String
listing [] = ""
listing (r ∷ rows) = row_text r (listing rows)

abbrev has_bracket : String → Bool
has_bracket s = any_char (λ c. code c == 93) s

abbrev IsWord : String → Type 0
IsWord s = (any_char (λ c. not (is_word_char c)) s ≡ false) × (is_empty s ≡ false)

abbrev pub IsRow : Row → Type 0
IsRow r =
    (has_bracket r.time ≡ false)
    × ((has_bracket r.level ≡ false) × ((has_bracket r.tail ≡ false) × IsWord r.name))

-- A word that names nobody.
abbrev pub is_filler : String → Bool
is_filler w = same w "Players" || same w "There"

names_after-put :
    (s t : String) → any_char (λ c. code c == 93) s ≡ false → names_after (put s t) ≡ names_after t
unfolding names_after any_char
names_after-put String.[] t h = refl
names_after-put (String.◌∷◌ c s) t h = ground (arith, names_after-put s t)

names_after-word :
    (s t : String)
    → any_char (λ c. not (is_word_char c)) s ≡ false
    → names_after (put s t) ≡ names_after t
unfolding names_after any_char is_word_char
names_after-word String.[] t h = refl
names_after-word (String.◌∷◌ c s) t h = ground (arith, names_after-word s t)

word_at-put :
    (s t : String)
    → any_char (λ c. not (is_word_char c)) s ≡ false
    → word_at (put s (String.◌∷◌ " " t)) ≡ s
unfolding word_at any_char
word_at-put String.[] t h = refl
word_at-put (String.◌∷◌ c s) t h = ground (arith, word_at-put s t)

names_after-named :
    (r : Row) (rest : String) → IsRow r → names_after (named_text r rest) ≡ names_after rest
names_after-named r rest h =
    names_after-word r.name (String.◌∷◌ " " (put r.tail (String.◌∷◌ "\n" rest))) h.1.1.1.0
    ∙ (unfold names_after in names_after-put r.tail (String.◌∷◌ "\n" rest) h.1.1.0)

names_after-level :
    (r : Row) (rest : String)
    → IsRow r
    → names_after (level_text r rest) ≡ push_word r.name (names_after rest)
names_after-level r rest h =
    names_after-put r.level (String.◌∷◌ "]" (String.◌∷◌ " " (named_text r rest))) h.1.0
    ∙ (unfold names_after in
        cc (
          word_at-put r.name (put r.tail (String.◌∷◌ "\n" rest)) h.1.1.1.0,
          names_after-named r rest h,
        ))

names_after-row :
    (r : Row) (rest : String)
    → IsRow r
    → names_after (row_text r rest) ≡ push_word r.name (names_after rest)
unfolding names_after
names_after-row r rest h =
    names_after-put r.time (String.◌∷◌ "]" (String.◌∷◌ " " (String.◌∷◌ "[" (level_text r rest))))
      h.0
    ∙ names_after-level r rest h

-- The names read from lines of the game are the names on the lines, in their order, but for the
-- two words that name nobody. The two brackets and what follows the name hold no closing bracket,
-- and each name is a word.
pub names_after-listing :
    (rows : List Row)
    → All IsRow rows
    → names_after (listing rows) ≡ keep (λ w. not (is_filler w)) (map (λ r. r.name) rows)
unfolding push_word
names_after-listing [] h = unfold names_after in refl
names_after-listing (r ∷ rows) h =
    names_after-row r (listing rows) h.0 ∙ ground (arith, h.0.1.1.1.1, names_after-listing rows h.1)
