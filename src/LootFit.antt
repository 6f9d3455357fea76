-- ===== src/LootFit.antt =====
-- crates/nocturnal/src/loot_fit.rs: who can use an item, and what it would replace. Rows of items
-- and profiles are as they were mirrored. The formatting of an `f64` is an argument.
pub mod Gear
use nocturnal_discord.Prelude.{
  ℕ, suc, ◌+◌, ◌/◌, ◌%◌, ◌^◌, Bool, true, false, not, ◌&&◌, ◌||◌, Option, none, some, List, [], ◌∷◌,
  ◌++◌, map, String, ◌==◌, if◌then◌else◌,
}
use nocturnal_discord.Prelude.Int.{ℤ, pos, as_u64, eqb_ℤ}
use nocturnal_discord.Prelude.Text.{eq_ignore_ascii_case}
use nocturnal_discord.Prelude.OrdMap
use nocturnal_discord.Prelude.OrdMap.{OrdMap, text_key}
use nocturnal_discord.Event.{Winner}
use nocturnal_discord.Platform.{Platform}
use Prim.Native.String.{◌++◌ as ◌^^◌}

pub record ItemSummary : Type 0 where
  pub id : ℤ
  pub name : String
  pub icon : ℤ
  pub ac : ℤ
  pub hp : ℤ
  pub mana : ℤ
  pub stats : List ℤ
  pub resists : List ℤ
  pub slots : ℤ
  pub classes : ℤ
  pub races : ℤ
  pub item_type : ℤ
  pub req_level : ℤ
  pub weight : ℤ
  pub damage : ℤ
  pub delay : ℤ
  pub click : Option String
  pub focus : Option String
  pub worn : Option String
  pub proc_effect : Option String
  pub magic : Bool
  pub lore : Bool
  pub no_drop : Bool

-- `CLASS_BITS`, `CLASS_TAGS`, `RACE_IDS`, `RACE_TAGS`, `SLOT_NAMES`
abbrev pub class_bits : List String
class_bits =
    "Warrior" ∷ "Cleric" ∷ "Paladin" ∷ "Ranger" ∷ "Shadow Knight" ∷ "Druid" ∷ "Monk" ∷ "Bard"
    ∷ "Rogue" ∷ "Shaman" ∷ "Necromancer" ∷ "Wizard" ∷ "Magician" ∷ "Enchanter" ∷ "Beastlord" ∷ []

abbrev pub class_tags : List String
class_tags =
    "WAR" ∷ "CLR" ∷ "PAL" ∷ "RNG" ∷ "SHD" ∷ "DRU" ∷ "MNK" ∷ "BRD" ∷ "ROG" ∷ "SHM" ∷ "NEC" ∷ "WIZ"
    ∷ "MAG" ∷ "ENC" ∷ "BST" ∷ []

abbrev pub race_ids : List ℤ
race_ids =
    pos 1
    ∷ pos 2
    ∷ pos 3
    ∷ pos 4
    ∷ pos 5
    ∷ pos 6
    ∷ pos 7
    ∷ pos 8
    ∷ pos 9
    ∷ pos 10
    ∷ pos 11
    ∷ pos 12
    ∷ pos 128
    ∷ pos 130
    ∷ pos 330
    ∷ []

abbrev pub race_tags : List String
race_tags =
    "HUM" ∷ "BAR" ∷ "ERU" ∷ "ELF" ∷ "HIE" ∷ "DEF" ∷ "HEF" ∷ "DWF" ∷ "TRL" ∷ "OGR" ∷ "HFL" ∷ "GNM"
    ∷ "IKS" ∷ "VAH" ∷ "FRG" ∷ []

abbrev pub slot_names : List String
slot_names =
    "Charm" ∷ "Ear1" ∷ "Head" ∷ "Face" ∷ "Ear2" ∷ "Neck" ∷ "Shoulders" ∷ "Arms" ∷ "Back" ∷ "Wrist1"
    ∷ "Wrist2" ∷ "Range" ∷ "Hands" ∷ "Primary" ∷ "Secondary" ∷ "Ring1" ∷ "Ring2" ∷ "Chest" ∷ "Legs"
    ∷ "Feet" ∷ "Waist" ∷ "Ammo" ∷ []

-- `mask & (1 << bit) != 0`
unfoldable pub has_bit : ℤ → ℕ → Bool
unfolding as_u64
has_bit mask bit = (as_u64 mask / 2 ^ bit) % 2 == 1

unfoldable pub all_classes : ℤ → Bool
unfolding as_u64
all_classes mask = eqb_ℤ mask (pos 0) || as_u64 mask % 2 ^ 15 == 0x7fff

unfoldable pub all_races : ℤ → Bool
unfolding as_u64
all_races mask = eqb_ℤ mask (pos 0) || as_u64 mask % 2 ^ 14 == 0x3fff

-- `Iterator::position`, from a number on.
abbrev pub position {ℓ} : {A : Type ℓ} → (A → Bool) → ℕ → List A → Option ℕ
position f i [] = none
position f i (x ∷ xs) = if f x then some i else position f (suc i) xs

unfoldable pub class_can_use : ItemSummary → String → Bool
unfolding all_classes has_bit eq_ignore_ascii_case
class_can_use item class =
    if all_classes item.classes
    then true
    else elim (position (λ c. eq_ignore_ascii_case c class) 0 class_bits) [
      | none ↦ false
      | some bit ↦ has_bit item.classes bit
    ]

unfoldable pub race_can_use : ItemSummary → Option ℤ → Bool
unfolding all_races has_bit
race_can_use item none = true
race_can_use item (some id) =
    if all_races item.races then true else elim (position (λ r. eqb_ℤ r id) 0 race_ids) [
      | none ↦ true
      | some bit ↦ has_bit item.races bit
    ]

unfoldable pub is_equipment : ItemSummary → Bool
unfolding as_u64
is_equipment item = not (as_u64 item.slots % 2 ^ 22 == 0)

-- The names whose bits are set, from a bit on.
unfoldable pub set_bits : ℤ → ℕ → List String → List String
unfolding has_bit
set_bits mask i [] = []
set_bits mask i (n ∷ ns) =
    let rest = set_bits mask (suc i) ns in if has_bit mask i then n ∷ rest else rest

-- `join`
unfoldable pub join : String → List String → String
join sep [] = ""
join sep (s ∷ []) = s
join sep (s ∷ t ∷ ss) = s ^^ (sep ^^ join sep (t ∷ ss))

unfoldable pub class_line : ItemSummary → String
unfolding all_classes set_bits join
class_line item =
    if all_classes item.classes then "ALL" else join " " (set_bits item.classes 0 class_tags)

unfoldable pub race_line : ItemSummary → String
unfolding all_races set_bits join
race_line item = if all_races item.races then "ALL" else join " " (set_bits item.races 0 race_tags)

unfoldable pub slots_of : ItemSummary → List String
unfolding set_bits
slots_of item = set_bits item.slots 0 slot_names

module _ (p : Platform) where
  -- The line of one winner.
  unfoldable pub winner_warning : ItemSummary → OrdMap String String → Winner → List String
  unfolding class_can_use class_line OrdMap.get
  winner_warning item classes w = elim w.character [
    | none ↦ []
    | some name ↦ elim (OrdMap.get classes (p.to_lowercase name)) [
      | none ↦ []
      | some class ↦
          if class_can_use item class
          then []
          else ("**"
              ^^ (name
                  ^^ ("** ("
                      ^^ (class
                          ^^ (") cannot use "
                              ^^ (item.name ^^ (" — Class: " ^^ class_line item)))))))
            ∷ []
    ]
  ]

  unfoldable pub winner_lines : ItemSummary → OrdMap String String → List Winner → List String
  unfolding winner_warning
  winner_lines item classes [] = []
  winner_lines item classes (w ∷ ws) = winner_warning item classes w ++ winner_lines item classes ws

  unfoldable pub winner_warnings : ItemSummary → List Winner → OrdMap String String → List String
  unfolding is_equipment winner_lines
  winner_warnings item winners classes =
      if not (is_equipment item) then [] else winner_lines item classes winners
