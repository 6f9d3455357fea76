-- ===== src/Store/Records.antt =====
-- A record reads back: `encode` and `decode` of crates/nocturnal-store/src/wal.rs.
use nocturnal_discord.Prelude.{
  ℕ, zero, suc, ◌+◌, ◌*◌, ◌/◌, ◌%◌, ◌^◌, ◌≤◌, ◌<◌, ◌≡◌, refl, ap, ◌∙◌, true, false, some, [], ◌∷◌,
  ◌++◌, arith, ==_iff,
}
use nocturnal_discord.Prelude.Lists.{length, All}
use nocturnal_discord.Event.{Envelope}
use nocturnal_discord.Store.Bytes.{
  Bytes, newline, space, hex_char, hex_digits, hex8, to_digit, hex_value, from_str_radix,
  split_once, is_utf8, utf8_from, next_byte, first_byte, has_newline,
}
use nocturnal_discord.Store.Codec.{
  Codec, record_of, line_of, encode, decode, check_json, IsStorable,
}

-- Hexadecimal digits: text, and neither space, sign nor newline.
abbrev IsHex : ℕ → Type 0
IsHex b = (48 ≤ b) × (b < 128)

hex_char-IsHex : (d : ℕ) → d < 16 → IsHex (hex_char d)
unfolding hex_char
hex_char-IsHex d h = ground arith

hex_digits-All : (count n : ℕ) (rest : Bytes) → All IsHex rest → All IsHex (hex_digits count n rest)
unfolding hex_digits
hex_digits-All zero n rest h = h
hex_digits-All (suc count) n rest h =
    hex_digits-All count (n / 16) (hex_char (n % 16) ∷ rest)
      (hex_char-IsHex (n % 16) (omega arith), h)

hex8-All : (n : ℕ) → All IsHex (hex8 n)
unfolding hex8
hex8-All n = hex_digits-All 8 n [] tt

hex_value-hex_char :
    (acc d : ℕ) (bs : Bytes)
    → d < 16
    → acc * 16 + d < 2 ^ 32
    → hex_value acc (hex_char d ∷ bs) ≡ hex_value (acc * 16 + d) bs
unfolding hex_value hex_char to_digit
hex_value-hex_char acc d bs h k = ground arith

-- So many digits are enough for the number.
abbrev Fits : ℕ → ℕ → Type 0
Fits zero n = n ≡ 0
Fits (suc count) n = Fits count (n / 16)

hex_value-hex_digits :
    (count n : ℕ) (rest : Bytes)
    → Fits count n
    → n < 2 ^ 32
    → hex_value 0 (hex_digits count n rest) ≡ hex_value n rest
unfolding hex_digits
hex_value-hex_digits zero n rest h k = rw h refl
hex_value-hex_digits (suc count) n rest h k =
    hex_value-hex_digits count (n / 16) (hex_char (n % 16) ∷ rest) h (omega arith)
    ∙ hex_value-hex_char (n / 16) (n % 16) rest (omega arith) (omega arith)
    ∙ ap (λ m. hex_value m rest) (omega arith)

from_str_radix-hex :
    (bs : Bytes) → All IsHex bs → 0 < length bs → from_str_radix bs ≡ hex_value 0 bs
unfolding from_str_radix
from_str_radix-hex [] h k = ground arith
from_str_radix-hex (b ∷ []) h k = refl
from_str_radix-hex (b ∷ c ∷ bs) h k = ground arith

from_str_radix-hex8 : (n : ℕ) → n < 2 ^ 32 → from_str_radix (hex8 n) ≡ some n
unfolding hex8
from_str_radix-hex8 n h =
    from_str_radix-hex (hex8 n) (hex8-All n) (unfold hex_digits in omega arith)
    ∙ hex_value-hex_digits 8 n [] (omega arith) h
    ∙ unfold hex_value in refl

split_once-append :
    (bs json : Bytes) → All IsHex bs → split_once (bs ++ space ∷ json) ≡ some (bs, json)
unfolding split_once
split_once-append [] json h = refl
split_once-append (b ∷ bs) json h = rw (split_once-append bs json h.1) (ground arith)

utf8-append : (bs rest : Bytes) → All IsHex bs → is_utf8 (bs ++ rest) ≡ is_utf8 rest
unfolding is_utf8 utf8_from next_byte first_byte
utf8-append [] rest h = refl
utf8-append (b ∷ bs) rest h = ground (arith, utf8-append bs rest h.1)

newline-append : (bs rest : Bytes) → All IsHex bs → has_newline (bs ++ rest) ≡ has_newline rest
newline-append [] rest h = refl
newline-append (b ∷ bs) rest h = ground (arith, newline-append bs rest h.1)

module _ (c : Codec) where
  pub encode-eq :
      (env : Envelope) (v : IsStorable c env)
      → encode c env ≡ some (line_of c v.json ++ newline ∷ [])
  unfolding encode
  encode-eq env v = rw (v.printed, encode)

  -- A stored record reads back as the envelope that was written.
  pub decode-line_of :
      (env : Envelope) (v : IsStorable c env) → decode c (line_of c v.json) ≡ record_of env
  unfolding decode check_json
  decode-line_of env v =
      rw
        (
          split_once-append (hex8 (c.hash v.json)) v.json (hex8-All _),
          decode,
          from_str_radix-hex8 (c.hash v.json) v.in_u32,
        )
        (check env v)
    where
      check :
          (env : Envelope) (v : IsStorable c env)
          → check_json c (c.hash v.json) v.json ≡ record_of env
      check env v = rw ((==_iff (c.hash v.json) (c.hash v.json)).1 refl, v.parsed)

  pub line_of_text : (env : Envelope) (v : IsStorable c env) → is_utf8 (line_of c v.json) ≡ true
  line_of_text env v =
      rw (utf8-append (hex8 _) (space ∷ v.json) (hex8-All _))
        (unfold is_utf8 utf8_from next_byte first_byte in v.text)

  pub line_of_one_line :
      (env : Envelope) (v : IsStorable c env) → has_newline (line_of c v.json) ≡ false
  line_of_one_line env v = rw (newline-append (hex8 _) (space ∷ v.json) (hex8-All _)) v.one_line
