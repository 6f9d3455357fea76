-- ===== src/Store/Bytes.antt =====
-- Bytes as the Rust standard library prints, parses and checks them: what wal.rs of
-- crates/nocturnal-store/src uses of it.
use nocturnal_discord.Prelude.{
  ℕ, zero, suc, ◌+◌, ◌*◌, ◌/◌, ◌%◌, ◌^◌, ◌-◌, ◌≡◌, refl, Bool, true, false, Option, none, some,
  List, [], ◌∷◌, ◌==◌, ltb, leb, ◌&&◌, if◌then◌else◌,
}
use nocturnal_discord.Prelude.Lists.{any}

abbrev pub Bytes : Type 0
Bytes = List ℕ

abbrev pub newline : ℕ
newline = 10

abbrev pub space : ℕ
space = 32

-- One digit under `{:x}`.
unfoldable pub hex_char : ℕ → ℕ
hex_char d = if ltb d 10 then 48 + d else 87 + d

-- The last `count` digits of a number, then the bytes that follow.
unfoldable pub hex_digits : ℕ → ℕ → Bytes → Bytes
unfolding hex_char
hex_digits zero n rest = rest
hex_digits (suc count) n rest = hex_digits count (n / 16) (hex_char (n % 16) ∷ rest)

-- `{:08x}` of a `u32`.
unfoldable pub hex8 : ℕ → Bytes
unfolding hex_digits
hex8 n = hex_digits 8 n []

-- `char::to_digit(16)`
unfoldable pub to_digit : ℕ → Option ℕ
to_digit b =
    if leb 48 b && leb b 57
    then some (b - 48)
    else if leb 97 b && leb b 102
    then some (b - 87)
    else if leb 65 b && leb b 70
    then some (b - 55)
    else none

-- The digits of a `u32`, which may not overflow.
unfoldable pub hex_value : ℕ → Bytes → Option ℕ
unfolding to_digit
hex_value acc [] = some acc
hex_value acc (b ∷ bs) = elim (to_digit b) [
  | none ↦ none
  | some d ↦ if ltb (acc * 16 + d) (2 ^ 32) then hex_value (acc * 16 + d) bs else none
]

-- `u32::from_str_radix(_, 16)`: a sign may stand before the digits, of which there is one at least.
unfoldable pub from_str_radix : Bytes → Option ℕ
unfolding hex_value
from_str_radix [] = none
from_str_radix (b ∷ []) = hex_value 0 (b ∷ [])
from_str_radix (b ∷ c ∷ bs) = if b == 43 then hex_value 0 (c ∷ bs) else hex_value 0 (b ∷ c ∷ bs)

-- `str::split_once(' ')`
unfoldable pub split_once : Bytes → Option (Bytes × Bytes)
split_once [] = none
split_once (b ∷ bs) =
    let rest = split_once bs in
    if b == space then some ([], bs) else elim rest [ none ↦ none | some (l, r) ↦ some (b ∷ l, r) ]

-- UTF-8: how many continuation bytes are due, and the range of the next.
pub record Due : Type 0 where
  pub more : ℕ
  pub lo : ℕ
  pub hi : ℕ

abbrev pub due : ℕ → ℕ → ℕ → Due
due n lo hi = record { more = n; lo = lo; hi = hi }

abbrev pub at_char : Due
at_char = due 0 0x80 0xbf

unfoldable pub first_byte : ℕ → Option Due
first_byte b =
    if ltb b 0x80
    then some at_char
    else if leb 0xc2 b && leb b 0xdf
    then some (due 1 0x80 0xbf)
    else if b == 0xe0
    then some (due 2 0xa0 0xbf)
    else if b == 0xed
    then some (due 2 0x80 0x9f)
    else if leb 0xe1 b && leb b 0xef
    then some (due 2 0x80 0xbf)
    else if b == 0xf0
    then some (due 3 0x90 0xbf)
    else if leb 0xf1 b && leb b 0xf3
    then some (due 3 0x80 0xbf)
    else if b == 0xf4
    then some (due 3 0x80 0x8f)
    else none

unfoldable pub next_byte : Due → ℕ → Option Due
unfolding first_byte
next_byte d b = elim d.more [
  | zero ↦ first_byte b
  | suc n ↦ if leb d.lo b && leb b d.hi then some (due n 0x80 0xbf) else none
]

unfoldable pub utf8_from : Due → Bytes → Bool
unfolding next_byte
utf8_from d [] = d.more == 0
utf8_from d (b ∷ bs) = elim (next_byte d b) [ none ↦ false | some d' ↦ utf8_from d' bs ]

-- `str::from_utf8` takes the bytes.
unfoldable pub is_utf8 : Bytes → Bool
unfolding utf8_from
is_utf8 = utf8_from at_char

-- The lines of a file as `read_line` meets them, each without its newline and with whether it had
-- one. Only the last can lack it.
unfoldable pub push : ℕ → List (Bytes × Bool) → List (Bytes × Bool)
push b [] = (b ∷ [], false) ∷ []
push b ((line, complete) ∷ lines) = (b ∷ line, complete) ∷ lines

unfoldable pub lines_of : Bytes → List (Bytes × Bool)
unfolding push
lines_of [] = []
lines_of (b ∷ bs) =
    let rest = lines_of bs in if b == newline then ([], true) ∷ rest else push b rest

abbrev pub has_newline : Bytes → Bool
has_newline = any (λ b. b == newline)

-- An e-acute cut in half is not text.
cut_char : is_utf8 (0x7b ∷ 0xc3 ∷ []) ≡ false
unfolding is_utf8
cut_char = refl

two_lines : lines_of (65 ∷ 10 ∷ 66 ∷ []) ≡ (65 ∷ [], true) ∷ (66 ∷ [], false) ∷ []
unfolding lines_of
two_lines = refl

crc_field : from_str_radix (hex8 0xcbf43926) ≡ some 0xcbf43926
unfolding from_str_radix hex8
crc_field = refl
