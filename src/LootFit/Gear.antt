-- ===== src/LootFit/Gear.antt =====
-- What an item would replace, and the split of the characters: crates/nocturnal/src/loot_fit.rs.
use nocturnal_discord.Prelude.{
  ℕ, suc, Bool, false, not, ◌&&◌, Option, none, some, List, [], ◌∷◌, ◌++◌, String, leb,
  if◌then◌else◌,
}
use nocturnal_discord.Prelude.Int.{ℤ, pos, negsuc, add_i64, sub_i64, mul_i64, eqb_ℤ, ltb_ℤ}
use nocturnal_discord.Prelude.Lists.{find, is_nil}
use nocturnal_discord.Prelude.Text.{show_int, text_length}
use nocturnal_discord.Prelude.Chain.{◌>>=◌}
use nocturnal_discord.Prelude.OrdMap
use nocturnal_discord.Prelude.OrdMap.{OrdMap, same, text_key}
use nocturnal_discord.Event.{F64, RosterCharacter}
use nocturnal_discord.Platform.{Platform}
use nocturnal_discord.LootFit.{
  ItemSummary, class_can_use, race_can_use, is_equipment, slots_of, join,
}
use Prim.Native.String.{◌++◌ as ◌^^◌}

-- `Slot`, and a profile as far as it is read here.
pub record Slot : Type 0 where
  pub slot : String
  pub id : Option ℤ

pub record Profile : Type 0 where
  pub race : ℤ
  pub equipment : List Slot

pub record Candidate : Type 0 where
  pub name : String
  pub class : String
  pub level : ℕ
  pub upgrade : String

pub record Excluded : Type 0 where
  pub name : String
  pub class : String
  pub reason : String

pub record Fit : Type 0 where
  pub item : Option ItemSummary
  pub profiles : OrdMap String Profile
  pub gear : OrdMap String ItemSummary

-- `as f64` of an integer, zero, and `{:.2}`.
pub record Ratio : Type 0 where
  pub of_i64 : ℤ → F64
  pub zero_f64 : F64
  pub two_places : F64 → String

unfoldable pub sum_i64 : List ℤ → ℤ
unfolding add_i64
sum_i64 [] = pos 0
sum_i64 (n ∷ ns) = add_i64 n (sum_i64 ns)

unfoldable pub score : ItemSummary → ℤ
unfolding add_i64 mul_i64 sum_i64
score i =
    add_i64 (add_i64 (add_i64 (add_i64 (mul_i64 i.ac (pos 2)) i.hp) i.mana) (sum_i64 i.stats))
      (sum_i64 i.resists)

-- `{:+}`
unfoldable pub show_signed : ℤ → String
unfolding show_int
show_signed (pos n) = "+" ^^ show_int 0 (pos n)
show_signed (negsuc n) = show_int 0 (negsuc n)

unfoldable pub part : String → ℤ → ℤ → List String
unfolding show_signed sub_i64
part label a b = if eqb_ℤ a b then [] else (label ^^ (" " ^^ show_signed (sub_i64 a b))) ∷ []

-- The changes under their labels; a number that is not worn is zero.
unfoldable pub labelled_parts : List String → List ℤ → List ℤ → List String
unfolding part
labelled_parts (l ∷ ls) (a ∷ as') (b ∷ bs) = part l a b ++ labelled_parts ls as' bs
labelled_parts (l ∷ ls) (a ∷ as') [] = part l a (pos 0) ++ labelled_parts ls as' []
labelled_parts _ _ _ = []

unfoldable pub worn_part :
    String → (ItemSummary → ℤ) → ItemSummary → Option ItemSummary → List String
unfolding part
worn_part label f item none = part label (f item) (pos 0)
worn_part label f item (some w) = part label (f item) (f w)

abbrev worn_numbers : (ItemSummary → List ℤ) → Option ItemSummary → List ℤ
worn_numbers f none = []
worn_numbers f (some w) = f w

unfoldable pub clip : String → String
unfolding text_length
clip s = if leb (text_length s) 100 then s else first_chars 99 s ^^ "…"
  where
    first_chars : ℕ → String → String
    first_chars n String.[] = String.[]
    first_chars ℕ.zero (String.◌∷◌ c t) = String.[]
    first_chars (suc n) (String.◌∷◌ c t) = String.◌∷◌ c (first_chars n t)

module _ (p : Platform) (q : Ratio) where
  unfoldable pub ratio : Option ItemSummary → F64
  ratio none = q.zero_f64
  ratio (some i) =
      if ltb_ℤ (pos 0) i.delay then p.div_f64 (q.of_i64 i.damage) (q.of_i64 i.delay) else q.zero_f64

  unfoldable pub ratio_part : ItemSummary → Option ItemSummary → List String
  unfolding ratio show_int
  ratio_part item worn =
      if ltb_ℤ (pos 0) item.damage && ltb_ℤ (pos 0) item.delay
      then (show_int 0 item.damage
          ^^ ("/"
              ^^ (show_int 0 item.delay
                  ^^ (" ("
                      ^^ (q.two_places (ratio (some item))
                          ^^ (" vs " ^^ (q.two_places (ratio worn) ^^ ")")))))))
        ∷ []
      else []

  unfoldable pub delta : ItemSummary → Option ItemSummary → String
  unfolding ratio_part worn_part labelled_parts join
  delta item worn =
      let parts =
        ratio_part item worn
        ++ (worn_part "AC" (λ i. i.ac) item worn
            ++ (worn_part "HP" (λ i. i.hp) item worn
                ++ (worn_part "MANA" (λ i. i.mana) item worn
                    ++ (labelled_parts ("STR" ∷ "STA" ∷ "AGI" ∷ "DEX" ∷ "WIS" ∷ "INT" ∷ "CHA" ∷ [])
                          item.stats (worn_numbers (λ i. i.stats) worn)
                        ++ labelled_parts ("MR" ∷ "FR" ∷ "CR" ∷ "DR" ∷ "PR" ∷ []) item.resists
                            (worn_numbers (λ i. i.resists) worn))))) in
      if is_nil parts then "no stat change" else join " · " parts

  -- The row of the item worn in a slot.
  unfoldable pub worn_in : OrdMap String ItemSummary → Profile → String → Option ItemSummary
  unfolding OrdMap.get same show_int
  worn_in gear profile slot = do
    s ← find (λ s. same s.slot slot) profile.equipment
    id ← s.id
    OrdMap.get gear (show_int 0 id)

  -- `score < w.map_or(i64::MIN, score)`, where an empty slot scores `i64::MIN`.
  unfoldable pub weaker : Option ItemSummary → Option ItemSummary → Bool
  unfolding score
  weaker _ none = false
  weaker none (some w) = ltb_ℤ (negsuc 9_223_372_036_854_775_807) (score w)
  weaker (some i) (some w) = ltb_ℤ (score i) (score w)

  -- The loop over the slots that the item fits.
  unfoldable pub worst_slot :
      OrdMap String ItemSummary
      → Profile
      → Option (String × Option ItemSummary)
      → List String
      → Option (String × Option ItemSummary)
  unfolding worn_in weaker
  worst_slot gear profile worst [] = worst
  worst_slot gear profile none (slot ∷ slots) =
      worst_slot gear profile (some (slot, worn_in gear profile slot)) slots
  worst_slot gear profile (some (at, w)) (slot ∷ slots) =
      let worn = worn_in gear profile slot in
      worst_slot gear profile (if weaker worn w then some (slot, worn) else some (at, w)) slots

  unfoldable pub upgrade_line : OrdMap String ItemSummary → ItemSummary → Option Profile → String
  unfolding slots_of worst_slot clip delta
  upgrade_line gear item none = "no gear on record — run Zeal with the token set up"
  upgrade_line gear item (some profile) =
      if is_nil (slots_of item)
      then "not an equipment slot"
      else elim (worst_slot gear profile none (slots_of item)) [
        | none ↦ "no slot to compare"
        | some (slot, none) ↦ clip (slot ^^ (" is empty → " ^^ delta item none))
        | some (slot, some worn) ↦
            clip (slot ^^ (": " ^^ (worn.name ^^ (" → " ^^ delta item (some worn)))))
      ]

  abbrev pub race_of : Option Profile → Option ℤ
  race_of none = none
  race_of (some profile) = some profile.race

  unfoldable pub candidate : RosterCharacter → String → Candidate
  candidate c upgrade = record {
    name = c.name;
    class = c.class;
    level = c.level;
    upgrade = upgrade;
  }

  unfoldable pub excluded : RosterCharacter → String → Excluded
  excluded c reason = record { name = c.name; class = c.class; reason = reason }

  abbrev Split : Type 0
  Split = List Candidate × List Excluded

  unfoldable pub split_one : Fit → RosterCharacter → Split → Split
  unfolding candidate excluded
  split_one f c (ok, out) =
      let profile = OrdMap.get f.profiles (p.to_lowercase c.name) in
      elim f.item [
        | none ↦ (candidate c "no item data to compare" ∷ ok, out)
        | some item ↦
            if not (is_equipment item)
            then (candidate c "not equipment — no class or race limit" ∷ ok, out)
            else (if not (class_can_use item c.class)
                then (ok, excluded c "class" ∷ out)
                else (if not (race_can_use item (race_of profile))
                    then (ok, excluded c "race" ∷ out)
                    else (candidate c (upgrade_line f.gear item profile) ∷ ok, out)))
      ]

  unfoldable pub split : Fit → List RosterCharacter → Split
  unfolding split_one
  split f [] = ([], [])
  split f (c ∷ cs) = split_one f c (split f cs)
