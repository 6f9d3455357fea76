-- ===== src/Who.antt =====
-- crates/nocturnal-core/src/who.rs: the names and the time of a pasted answer of the game to
-- `/who`. Words, pieces and numbers are read as the Rust standard library reads them.
pub mod Listed
use nocturnal_discord.Prelude.{
  ℕ, suc, ◌+◌, ◌*◌, ◌-◌, ◌^◌, Bool, not, ◌&&◌, ◌||◌, Option, none, some, List, [], ◌∷◌, String,
  ◌==◌, leb, if◌then◌else◌,
}
use nocturnal_discord.Prelude.Chain.{◌>>=◌}
use nocturnal_discord.Prelude.Int.{
  ℤ, pos, sub_ℕ, add_i64, sub_i64, mul_i64, wrap_i64, ◌+ℤ◌, ◌-ℤ◌, ◌*ℤ◌,
}
use nocturnal_discord.Prelude.Lines.{push_char, strip_char}
use nocturnal_discord.Prelude.Lists.{keep}
use nocturnal_discord.Prelude.OrdMap.{text_key, same}
use nocturnal_discord.Prelude.Text.{is_whitespace, is_empty}
use nocturnal_discord.Calendar.{days_from_civil}
use Prim.Native.Char.{Char, code}

pub record WhoParse : Type 0 where
  pub characters : List String
  pub ts_ms : Option ℤ

-- `is_ascii_alphanumeric`, or an underscore.
unfoldable pub is_word_char : Char → Bool
is_word_char c =
    let n = code c in
    leb 48 n && leb n 57 || leb 65 n && leb n 90 || leb 97 n && leb n 122 || n == 95

-- The word at the start of a text, which may be empty.
unfoldable pub word_at : String → String
unfolding is_word_char
word_at String.[] = String.[]
word_at (String.◌∷◌ c s) =
    let rest = word_at s in if is_word_char c then String.◌∷◌ c rest else String.[]

-- What the loop pushes for one bracket, before what it pushes later.
unfoldable pub push_word : String → List String → List String
unfolding is_empty same
push_word word later =
    if is_empty word || same word "Players" || same word "There" then later else word ∷ later

-- The loop of `parse_who`: the word after each bracket and space, from left to right.
unfoldable pub names_after : String → List String
unfolding strip_char word_at push_word
names_after String.[] = []
names_after (String.◌∷◌ c s) =
    let later = names_after s in
    if code c == 93
    then elim (strip_char s 32) [ none ↦ later | some rest ↦ push_word (word_at rest) later ]
    else later

-- `split`: the pieces between the characters that a test accepts, at least one.
unfoldable pub pieces : (Char → Bool) → String → List String
unfolding push_char
pieces f String.[] = String.[] ∷ []
pieces f (String.◌∷◌ c s) =
    let rest = pieces f s in if f c then String.[] ∷ rest else push_char c rest

-- `split(']').next()`
unfoldable pub before_bracket : String → String
before_bracket String.[] = String.[]
before_bracket (String.◌∷◌ c s) =
    let rest = before_bracket s in if code c == 93 then String.[] else String.◌∷◌ c rest

-- `split_whitespace`
unfoldable pub split_whitespace : String → List String
unfolding pieces is_whitespace is_empty
split_whitespace s = keep (λ w. not (is_empty w)) (pieces is_whitespace s)

-- The number that some digits write, after those read so far.
unfoldable pub read_digits : ℕ → String → Option ℕ
read_digits n String.[] = some n
read_digits n (String.◌∷◌ c s) =
    let rest = read_digits (n * 10 + (code c - 48)) s in
    if leb 48 (code c) && leb (code c) 57 then rest else none

-- At least one digit, and no number above a bound.
unfoldable pub digits_within : ℕ → String → Option ℕ
unfolding read_digits
digits_within bound String.[] = none
digits_within bound (String.◌∷◌ c s) = do
  n ← read_digits 0 (String.◌∷◌ c s)
  if leb n bound then some n else none

-- `i64::from_str`
unfoldable pub parse_i64 : String → Option ℤ
unfolding digits_within
parse_i64 String.[] = none
parse_i64 (String.◌∷◌ c s) =
    if code c == 45 then (do n ← digits_within (2 ^ 63) s; some (sub_ℕ 0 n)) else (do
      n ← digits_within (2 ^ 63 - 1) (if code c == 43 then s else String.◌∷◌ c s)
      some (pos n))

-- The table of the months.
abbrev pub month_names : List String
month_names =
    "Jan" ∷ "Feb" ∷ "Mar" ∷ "Apr" ∷ "May" ∷ "Jun" ∷ "Jul" ∷ "Aug" ∷ "Sep" ∷ "Oct" ∷ "Nov" ∷ "Dec"
    ∷ []

unfoldable pub month_from : ℕ → List String → String → Option ℕ
unfolding same
month_from n [] mon = none
month_from n (name ∷ names) mon =
    let rest = month_from (suc n) names mon in if same mon name then some n else rest

-- The hours, minutes and seconds of a time of day.
unfoldable pub clock : List String → Option (ℤ × (ℤ × ℤ))
unfolding parse_i64
clock (hours ∷ minutes ∷ seconds ∷ []) = do
  h ← parse_i64 hours
  m ← parse_i64 minutes
  s ← parse_i64 seconds
  some (h, (m, s))
clock _ = none

-- The sum of a day number and a time of day, in milliseconds.
unfoldable pub time_ms : ℤ → ℤ × (ℤ × ℤ) → ℤ
unfolding add_i64 mul_i64 wrap_i64 ◌+ℤ◌ ◌*ℤ◌
time_ms days (h, (m, s)) =
    let until_hour = add_i64 (mul_i64 days (pos 86_400)) (mul_i64 h (pos 3600)) in
    mul_i64 (add_i64 (add_i64 until_hour (mul_i64 m (pos 60))) s) (pos 1000)

-- The words of a header, a weekday first.
unfoldable pub header_time : List String → Option ℤ
unfolding month_from parse_i64 clock time_ms pieces days_from_civil sub_i64 ◌-ℤ◌
header_time (_ ∷ mon ∷ day ∷ time ∷ year ∷ []) = do
  month ← month_from 1 month_names mon
  day ← parse_i64 day
  year ← parse_i64 year
  at ← clock (pieces (λ c. code c == 58) time)
  some (time_ms (days_from_civil year month day) at)
header_time _ = none

unfoldable pub parse_header_ts : String → Option ℤ
unfolding strip_char before_bracket split_whitespace header_time
parse_header_ts log = do
  inner ← strip_char log 91
  header_time (split_whitespace (before_bracket inner))

unfoldable pub parse_who : String → WhoParse
unfolding names_after parse_header_ts
parse_who log = record { characters = names_after log; ts_ms = parse_header_ts log }
