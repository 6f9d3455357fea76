-- ===== src/Prelude/Text.antt =====
-- The text operations of the Rust standard library that the ledger uses.
-- Case mapping beyond ASCII is the Unicode tables', an argument (see Platform).
use nocturnal_discord.Prelude.Tests.{◌==◌, ltb, leb, if◌then◌else◌}
use nocturnal_discord.Prelude.Int.{ℤ, pos, negsuc}
use Prim.Native.Nat.{ℕ, zero, suc, ◌+◌, ◌-◌, ◌/◌, ◌%◌}
use Prim.Native.Char.{Char, code}
use Prim.Native.String.{String, ◌++◌}
use mathlib.Core.Bool.{Bool, true, false, ◌&&◌, ◌||◌}

-- `char::is_whitespace`: the White_Space property.
unfoldable pub is_whitespace : Char → Bool
is_whitespace ch =
    let c = code ch in
    (leb 0x9 c && leb c 0xd)
    || c == 0x20
    || c == 0x85
    || c == 0xa0
    || c == 0x1680
    || (leb 0x2000 c && leb c 0x200a)
    || c == 0x2028
    || c == 0x2029
    || c == 0x202f
    || c == 0x205f
    || c == 0x3000

-- `char::is_control`: the category Cc.
unfoldable pub is_control : Char → Bool
is_control ch = let c = code ch in leb c 0x1f || (leb 0x7f c && leb c 0x9f)

unfoldable pub any_char : (Char → Bool) → String → Bool
any_char f String.[] = false
any_char f (String.◌∷◌ c s) = f c || any_char f s

unfoldable pub trim_start : String → String
unfolding is_whitespace
trim_start String.[] = String.[]
trim_start (String.◌∷◌ c s) =
    let rest = trim_start s in if is_whitespace c then rest else String.◌∷◌ c s

-- A character before a text whose end is trimmed.
unfoldable pub keep_char : Char → String → String
keep_char d String.[] = if is_whitespace d then String.[] else String.◌∷◌ d String.[]
keep_char d (String.◌∷◌ e t) = String.◌∷◌ d (String.◌∷◌ e t)

unfoldable pub trim_end : String → String
unfolding keep_char is_whitespace
trim_end String.[] = String.[]
trim_end (String.◌∷◌ c s) = keep_char c (trim_end s)

-- `str::trim`
unfoldable pub trim : String → String
unfolding trim_start trim_end
trim s = trim_end (trim_start s)

unfoldable pub is_empty : String → Bool
is_empty String.[] = true
is_empty (String.◌∷◌ _ _) = false

-- `u8::to_ascii_lowercase`, on code points.
unfoldable pub ascii_lower : ℕ → ℕ
ascii_lower c = if leb 65 c && leb c 90 then c + 32 else c

-- `str::eq_ignore_ascii_case`
unfoldable pub eq_ignore_ascii_case : String → String → Bool
unfolding ascii_lower
eq_ignore_ascii_case String.[] String.[] = true
eq_ignore_ascii_case (String.◌∷◌ c s) (String.◌∷◌ d t) =
    ascii_lower (code c) == ascii_lower (code d) && eq_ignore_ascii_case s t
eq_ignore_ascii_case _ _ = false

-- `str::ends_with` one character.
unfoldable pub ends_with_char : String → ℕ → Bool
ends_with_char String.[] d = false
ends_with_char (String.◌∷◌ c String.[]) d = code c == d
ends_with_char (String.◌∷◌ c (String.◌∷◌ e s)) d = ends_with_char (String.◌∷◌ e s) d

digit : ℕ → String
digit zero = "0"
digit (suc zero) = "1"
digit (suc (suc zero)) = "2"
digit (suc (suc (suc zero))) = "3"
digit (suc (suc (suc (suc zero)))) = "4"
digit (suc (suc (suc (suc (suc zero))))) = "5"
digit (suc (suc (suc (suc (suc (suc zero)))))) = "6"
digit (suc (suc (suc (suc (suc (suc (suc zero))))))) = "7"
digit (suc (suc (suc (suc (suc (suc (suc (suc zero)))))))) = "8"
digit _ = "9"

show_digits : ℕ → ℕ → String → String
unfolding digit
show_digits zero n acc = acc
show_digits (suc fuel) n acc =
    let out = digit (n % 10) ++ acc in
    let rest = show_digits fuel (n / 10) out in if ltb n 10 then out else rest

-- `Display` of an unsigned integer; a number below 10 ^ 40 has at most forty digits.
unfoldable pub show_nat : ℕ → String
unfolding show_digits
show_nat n = show_digits 40 n ""

unfoldable pub zeros : ℕ → String
zeros zero = ""
zeros (suc n) = "0" ++ zeros n

unfoldable pub text_length : String → ℕ
text_length String.[] = 0
text_length (String.◌∷◌ c s) = suc (text_length s)

-- `{:0width}` of an unsigned integer.
unfoldable pub pad_nat : ℕ → ℕ → String
unfolding show_nat zeros text_length
pad_nat width n = let s = show_nat n in zeros (width - text_length s) ++ s

-- `{:0width}` of a signed one: the sign counts.
unfoldable pub show_int : ℕ → ℤ → String
unfolding pad_nat
show_int width (pos n) = pad_nat width n
show_int width (negsuc n) = "-" ++ pad_nat (width - 1) (n + 1)
