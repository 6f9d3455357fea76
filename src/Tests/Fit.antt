-- ===== src/Tests/Fit.antt =====
-- The lines on an item at a concrete one.
use nocturnal_discord.Prelude.{◌≡◌, refl, false, none, some, List, [], ◌∷◌, String}
use nocturnal_discord.Prelude.Int.{pos}
use nocturnal_discord.Event.{RosterCharacter}
use nocturnal_discord.LootFit.{ItemSummary, class_line}
use nocturnal_discord.LootFit.Gear.{Fit, Ratio}
use nocturnal_discord.Tests.{plain}

abbrev sword : ItemSummary
sword = record {
  id = pos 1;
  name = "Sword";
  icon = pos 0;
  ac = pos 0;
  hp = pos 5;
  mana = pos 0;
  stats = [];
  resists = [];
  slots = pos 8192;
  classes = pos 5;
  races = pos 0;
  item_type = pos 0;
  req_level = pos 0;
  weight = pos 0;
  damage = pos 0;
  delay = pos 0;
  click = none;
  focus = none;
  worn = none;
  proc_effect = none;
  magic = false;
  lore = false;
  no_drop = false;
}

abbrev hero : String → String → RosterCharacter
hero name class = record {
  name = name;
  class = class;
  level = 60;
  aa = none;
  profile_url = none;
  access = [];
  main = none;
}

abbrev ratio : Ratio
ratio = record { of_i64 = λ _. plain.f64_of 0; zero_f64 = plain.f64_of 0; two_places = λ _. "0.00" }

abbrev fit : Fit
fit = record { item = some sword; profiles = []; gear = [] }

abbrev roster : List RosterCharacter
roster = hero "Ann" "Warrior" ∷ hero "Bob" "cleric" ∷ hero "Cid" "paladin" ∷ []

class_line_test : class_line sword ≡ "WAR PAL"
unfolding class_line
class_line_test = refl
