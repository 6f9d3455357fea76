-- ===== src/Prelude/Lines.antt =====
-- Lines and words of text, as the Rust standard library splits them, and what comes back when
-- trimmed lines are written out and split again.
use nocturnal_discord.Prelude.Tests.{◌==◌, if◌then◌else◌}
use nocturnal_discord.Prelude.Lists.{All}
use nocturnal_discord.Prelude.Text.{is_whitespace, trim, trim_start, trim_end, keep_char}
use Prim.Native.Nat.{ℕ}
use Prim.Native.Char.{Char, code}
use Prim.Native.String.{String}
use mathlib.Core.Path.{◌≡◌, refl, ap, ◌∙◌}
use mathlib.Core.Bool.{Bool, true, false, ◌||◌}
use mathlib.Core.Option.{Option, none, some}
use mathlib.Core.List.{List, [], ◌∷◌, map}
use native.Mathlib.Omega.{arith}

-- A character joins the first line.
unfoldable pub push_char : Char → List String → List String
push_char c [] = String.◌∷◌ c String.[] ∷ []
push_char c (line ∷ lines) = String.◌∷◌ c line ∷ lines

unfoldable pub raw_lines : String → List String
unfolding push_char
raw_lines String.[] = []
raw_lines (String.◌∷◌ c s) =
    let rest = raw_lines s in if code c == 10 then String.[] ∷ rest else push_char c rest

-- `str::lines`, each line trimmed, which takes a carriage return at its end away too.
unfoldable pub trimmed_lines : String → List String
unfolding raw_lines trim
trimmed_lines s = map trim (raw_lines s)

-- `push_str` of a line and `push` of a newline, before what follows.
unfoldable pub add_line : String → String → String
add_line String.[] rest = String.◌∷◌ "\n" rest
add_line (String.◌∷◌ c s) rest = String.◌∷◌ c (add_line s rest)

unfoldable pub join_lines : List String → String
unfolding add_line
join_lines [] = String.[]
join_lines (line ∷ lines) = add_line line (join_lines lines)

-- `str::starts_with` one character.
unfoldable pub starts_with_char : String → ℕ → Bool
starts_with_char String.[] d = false
starts_with_char (String.◌∷◌ c s) d = code c == d

-- `strip_prefix` of one character.
unfoldable pub strip_char : String → ℕ → Option String
strip_char String.[] d = none
strip_char (String.◌∷◌ c s) d = if code c == d then some s else none

-- `split_once(char::is_whitespace)`: what follows the first white space.
unfoldable pub after_space : String → Option String
unfolding is_whitespace
after_space String.[] = none
after_space (String.◌∷◌ c s) = let rest = after_space s in if is_whitespace c then some s else rest

-- The word at the start of a trimmed text, the first of `split_whitespace`.
unfoldable pub first_word : String → String
unfolding is_whitespace
first_word String.[] = String.[]
first_word (String.◌∷◌ c s) =
    let rest = first_word s in if is_whitespace c then String.[] else String.◌∷◌ c rest

abbrev pub has_newline : String → Bool
has_newline String.[] = false
has_newline (String.◌∷◌ c s) = code c == 10 || has_newline s

-- One line, trimmed.
abbrev pub IsLine : String → Type 0
IsLine line = (has_newline line ≡ false) × (trim line ≡ line)

raw_lines-add_line :
    (line rest : String)
    → has_newline line ≡ false
    → raw_lines (add_line line rest) ≡ line ∷ raw_lines rest
unfolding raw_lines add_line push_char
raw_lines-add_line String.[] rest h = refl
raw_lines-add_line (String.◌∷◌ c s) rest h = ground (arith, raw_lines-add_line s rest)

-- Trimmed lines that are written out split into themselves.
pub trimmed_lines-join_lines :
    (lines : List String) → All IsLine lines → trimmed_lines (join_lines lines) ≡ lines
unfolding trimmed_lines join_lines
trimmed_lines-join_lines [] h = unfold raw_lines in refl
trimmed_lines-join_lines (line ∷ lines) h =
    ap (map trim) (raw_lines-add_line line (join_lines lines) h.0.0)
    ∙ cc (h.0.1, trimmed_lines-join_lines lines h.1)

keep_char_idem : (c : Char) (s : String) → trim_end s ≡ s → trim_end (keep_char c s) ≡ keep_char c s
unfolding trim_end keep_char
keep_char_idem c String.[] h = pick (is_whitespace c) refl
  where
    pick :
        (b : Bool)
        → is_whitespace c ≡ b
        → trim_end (if b then String.[] else String.◌∷◌ c String.[])
          ≡ (if b then String.[] else String.◌∷◌ c String.[])
    pick true e = refl
    pick false e = rw e refl
keep_char_idem c (String.◌∷◌ d s) h = ap (keep_char c) h

trim_end_idem : (s : String) → trim_end (trim_end s) ≡ trim_end s
unfolding trim_end
trim_end_idem String.[] = refl
trim_end_idem (String.◌∷◌ c s) = keep_char_idem c (trim_end s) (trim_end_idem s)

-- No white space at the start.
abbrev Started : String → Type 0
Started String.[] = Unit
Started (String.◌∷◌ c s) = is_whitespace c ≡ false

trim_start-Started : (s : String) → Started (trim_start s)
unfolding trim_start
trim_start-Started String.[] = tt
trim_start-Started (String.◌∷◌ c s) = pick (is_whitespace c) refl (trim_start-Started s)
  where
    pick :
        (b : Bool)
        → is_whitespace c ≡ b
        → Started (trim_start s)
        → Started (if b then trim_start s else String.◌∷◌ c s)
    pick true e rest = rest
    pick false e rest = e

keep_char-Started : (c : Char) (s : String) → is_whitespace c ≡ false → Started (keep_char c s)
unfolding keep_char
keep_char-Started c String.[] h = rw h h
keep_char-Started c (String.◌∷◌ d s) h = h

trim_end-Started : (s : String) → Started s → Started (trim_end s)
unfolding trim_end
trim_end-Started String.[] h = tt
trim_end-Started (String.◌∷◌ c s) h = keep_char-Started c (trim_end s) h

trim_start_self : (s : String) → Started s → trim_start s ≡ s
unfolding trim_start
trim_start_self String.[] h = refl
trim_start_self (String.◌∷◌ c s) h = rw h refl

pub trim_idem : (s : String) → trim (trim s) ≡ trim s
unfolding trim
trim_idem s =
    ap trim_end (trim_start_self (trim s) (trim_end-Started (trim_start s) (trim_start-Started s)))
    ∙ trim_end_idem (trim_start s)

has_newline-trim_start : (s : String) → has_newline s ≡ false → has_newline (trim_start s) ≡ false
unfolding trim_start
has_newline-trim_start String.[] h = refl
has_newline-trim_start (String.◌∷◌ c s) h = ground (arith, has_newline-trim_start s)

has_newline-keep_char :
    (c : Char) (s : String)
    → (code c == 10) ≡ false
    → has_newline s ≡ false
    → has_newline (keep_char c s) ≡ false
unfolding keep_char
has_newline-keep_char c String.[] h k = pick (is_whitespace c)
  where
    pick : (b : Bool) → has_newline (if b then String.[] else String.◌∷◌ c String.[]) ≡ false
    pick true = refl
    pick false = ground (arith, h)
has_newline-keep_char c (String.◌∷◌ d s) h k = ground (arith, h, k)

has_newline-trim_end : (s : String) → has_newline s ≡ false → has_newline (trim_end s) ≡ false
unfolding trim_end
has_newline-trim_end String.[] h = refl
has_newline-trim_end (String.◌∷◌ c s) h =
    has_newline-keep_char c (trim_end s) (ground (arith, h))
      (has_newline-trim_end s (ground (arith, h)))

raw_lines-one : (s : String) → All (λ l. has_newline l ≡ false) (raw_lines s)
unfolding raw_lines
raw_lines-one String.[] = tt
raw_lines-one (String.◌∷◌ c s) = pick (code c == 10) refl (raw_lines s) (raw_lines-one s)
  where
    pick :
        (b : Bool)
        → (code c == 10) ≡ b
        → (ls : List String) → All (λ l. has_newline l ≡ false) ls
        → All (λ l. has_newline l ≡ false) (if b then String.[] ∷ ls else push_char c ls)
    pick true e ls h = (refl, h)
    pick false e [] h = (ground (arith, e), tt)
    pick false e (l ∷ ls) h = (ground (arith, e, h.0), h.1)

All-IsLine : (ls : List String) → All (λ l. has_newline l ≡ false) ls → All IsLine (map trim ls)
unfolding trim
All-IsLine [] h = tt
All-IsLine (l ∷ ls) h = (
  (has_newline-trim_end (trim_start l) (has_newline-trim_start l h.0), trim_idem l),
  All-IsLine ls h.1,
)

-- The trimmed lines of any text.
pub trimmed_lines-IsLine : (s : String) → All IsLine (trimmed_lines s)
unfolding trimmed_lines
trimmed_lines-IsLine s = All-IsLine (raw_lines s) (raw_lines-one s)
