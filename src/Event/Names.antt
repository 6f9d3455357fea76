-- ===== src/Event/Names.antt =====
-- `pretty_character_name` of crates/nocturnal-core/src/event.rs.
use nocturnal_discord.Prelude.{String}
use nocturnal_discord.Prelude.Text.{trim}
use nocturnal_discord.Platform.{Platform}
use Prim.Native.String.{◌++◌}

module _ (p : Platform) where
  -- `flat_map(char::to_lowercase)`
  unfoldable pub lower_chars : String → String
  lower_chars String.[] = String.[]
  lower_chars (String.◌∷◌ c s) = p.char_to_lowercase c ++ lower_chars s

  unfoldable pub capitalise : String → String
  unfolding lower_chars
  capitalise String.[] = String.[]
  capitalise (String.◌∷◌ c s) = p.char_to_uppercase c ++ lower_chars s

  -- First letter up, the rest down.
  unfoldable pub pretty_character_name : String → String
  unfolding capitalise trim
  pretty_character_name name = capitalise (trim name)
