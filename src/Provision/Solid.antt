-- ===== src/Provision/Solid.antt =====
-- Text without white space, and the line that `append_token` writes for a token. Code: crates/nocturnal-provision/src/lib.rs.
use nocturnal_discord.Prelude.{
  ◌≡◌, refl, sym, ap, ◌∙◌, true, false, ◌||◌, some, String, arith, ◌==◌,
}
use nocturnal_discord.Prelude.Chain.{both_true, both_false}
use nocturnal_discord.Prelude.Text.{
  is_whitespace, any_char, is_empty, trim, trim_end, trim_start, keep_char, text_length,
}
use nocturnal_discord.Prelude.Lines.{has_newline, IsLine, after_space, first_word, strip_char}
use nocturnal_discord.Provision.{valid_username, all_username_chars, username_char, line_username}
use nocturnal_discord.Prelude.OrdMap.{text_key}
use Prim.Native.Char.{Char, code}
use mathlib.Core.Bool.{false≢true}
use Prim.Native.String.{◌++◌ as ◌^^◌}
use text.Mathlib.TextLemmas.{nil-append, cons-append}

-- No white space in a text.
abbrev pub Solid : String → Type 0
Solid s = any_char is_whitespace s ≡ false

username_char-solid : (c : Char) → username_char c ≡ true → is_whitespace c ≡ false
unfolding username_char is_whitespace
username_char-solid c h = ground arith

pub all_username_chars-Solid : (s : String) → all_username_chars s ≡ true → Solid s
unfolding all_username_chars any_char
all_username_chars-Solid String.[] h = refl
all_username_chars-Solid (String.◌∷◌ c s) h =
    let (first, rest) = both_true (username_char c) (all_username_chars s) h in
    rw (username_char-solid c first) (all_username_chars-Solid s rest)

keep_char-solid : (c : Char) (s : String) → is_whitespace c ≡ false → keep_char c s ≡ String.◌∷◌ c s
unfolding keep_char
keep_char-solid c String.[] h = rw h refl
keep_char-solid c (String.◌∷◌ d s) h = refl

trim_end-Solid : (s : String) → Solid s → trim_end s ≡ s
unfolding trim_end any_char
trim_end-Solid String.[] h = refl
trim_end-Solid (String.◌∷◌ c s) h =
    let (first, rest) = both_false (is_whitespace c) (any_char is_whitespace s) h in
    rw (trim_end-Solid s rest) (keep_char-solid c s first)

after_space-append : (s t : String) → Solid s → after_space (s ^^ String.◌∷◌ " " t) ≡ some t
unfolding after_space any_char
after_space-append String.[] t h = rw (nil-append (String.◌∷◌ " " t)) refl
after_space-append (String.◌∷◌ c s) t h =
    let (first, rest) = both_false (is_whitespace c) (any_char is_whitespace s) h in
    rw (cons-append c s (String.◌∷◌ " " t), first) (after_space-append s t rest)

pub first_word-append : (s t : String) → Solid s → first_word (s ^^ String.◌∷◌ " " t) ≡ s
unfolding first_word any_char
first_word-append String.[] t h = rw (nil-append (String.◌∷◌ " " t)) refl
first_word-append (String.◌∷◌ c s) t h =
    let (first, rest) = both_false (is_whitespace c) (any_char is_whitespace s) h in
    rw (cons-append c s (String.◌∷◌ " " t), first)
      (ap (λ w. String.◌∷◌ c w) (first_word-append s t rest))

trim-Solid : (s : String) → Solid s → trim s ≡ s
unfolding trim trim_start any_char
trim-Solid String.[] h = refl
trim-Solid (String.◌∷◌ c s) h =
    let (first, rest) = both_false (is_whitespace c) (any_char is_whitespace s) h in
    rw (first) (trim_end-Solid (String.◌∷◌ c s) h)

-- A text that does not end in white space keeps its end behind another.
trim_end-append : (s t : String) → is_empty t ≡ false → trim_end t ≡ t → trim_end (s ^^ t) ≡ s ^^ t
unfolding trim_end
trim_end-append String.[] t h e = rw (nil-append t) e
trim_end-append (String.◌∷◌ c s) t h e =
    rw (cons-append c s t, trim_end-append s t h e) (keeps c (s ^^ t) (filled s))
  where
    keeps : (d : Char) (u : String) → is_empty u ≡ false → keep_char d u ≡ String.◌∷◌ d u
    keeps d String.[] k = absurd (false≢true (sym (unfold is_empty in k)))
    keeps d (String.◌∷◌ x u) k = unfold keep_char in refl

    filled : (r : String) → is_empty (r ^^ t) ≡ false
    filled String.[] = rw (nil-append t) h
    filled (String.◌∷◌ x r) = rw (cons-append x r t) (unfold is_empty in refl)

-- A line as `append_token` writes it.
abbrev pub token_line : String → String → String
token_line secret user = secret ^^ (" # " ^^ user)

comment-user :
    (user : String) → is_empty user ≡ false → Solid user → trim ("# " ^^ user) ≡ "# " ^^ user
unfolding trim trim_start
comment-user user h k = ap trim_end start ∙ trim_end-append "# " user h (trim_end-Solid user k)
  where
    start : trim_start ("# " ^^ user) ≡ "# " ^^ user
    start = unfold trim_start in rw (cons-append "#" " " user) refl

pub line_username-token_line :
    (secret user : String)
    → Solid secret
    → is_empty user ≡ false
    → Solid user
    → line_username (token_line secret user) ≡ some user
unfolding line_username
line_username-token_line secret user h k m =
    rw (comment, comment-user user k m, marked, name, k) refl
  where
    comment : after_space (token_line secret user) ≡ some ("# " ^^ user)
    comment = rw (cons-append " " "# " user) (after_space-append secret ("# " ^^ user) h)

    marked : strip_char ("# " ^^ user) 35 ≡ some (" " ^^ user)
    marked = unfold strip_char in rw (cons-append "#" " " user) refl

    name : trim (" " ^^ user) ≡ user
    name =
        rw (cons-append " " "" user, nil-append user)
          (unfold trim in unfold trim_start in trim-Solid user m)

Solid-lines : (s : String) → Solid s → has_newline s ≡ false
unfolding any_char
Solid-lines String.[] h = refl
Solid-lines (String.◌∷◌ c s) h =
    let (first, rest) = both_false (is_whitespace c) (any_char is_whitespace s) h in
    rw (no_newline c first) (Solid-lines s rest)
  where
    no_newline : (d : Char) → is_whitespace d ≡ false → (code d == 10) ≡ false
    no_newline d k = unfold is_whitespace in ground (arith, k)

has_newline-append : (s t : String) → has_newline (s ^^ t) ≡ (has_newline s || has_newline t)
has_newline-append String.[] t = ap has_newline (nil-append t)
has_newline-append (String.◌∷◌ c s) t =
    rw (cons-append c s t) (ground (arith, has_newline-append s t))

pub token_line-IsLine :
    (secret user : String)
    → Solid secret
    → is_empty secret ≡ false
    → is_empty user ≡ false
    → Solid user
    → IsLine (token_line secret user)
token_line-IsLine secret user h k m n = (
  rw
      (
        has_newline-append secret (" # " ^^ user),
        has_newline-append " # " user,
        Solid-lines secret h,
        Solid-lines user n,
      )
      refl,
  trim_all,
)
  where
    starts :
        (s : String)
        → Solid s
        → is_empty s ≡ false
        → trim_start (s ^^ (" # " ^^ user)) ≡ s ^^ (" # " ^^ user)
    starts String.[] a b = absurd (false≢true (sym (unfold is_empty in b)))
    starts (String.◌∷◌ c s) a b =
        let (first, rest) =
          both_false (is_whitespace c) (any_char is_whitespace s) (unfold any_char in a) in
        unfold trim_start in rw (cons-append c s (" # " ^^ user), first) refl

    marked : is_empty (" # " ^^ user) ≡ false
    marked = rw (cons-append " " "# " user) (unfold is_empty in refl)

    trim_all : trim (token_line secret user) ≡ token_line secret user
    trim_all =
        unfold trim in
        ap trim_end (starts secret h k)
        ∙ trim_end-append secret (" # " ^^ user) marked
            (trim_end-append " # " user m (trim_end-Solid user n))

pub valid_username_lem :
    (user : String)
    → valid_username user ≡ true
    → (is_empty user ≡ false) × (all_username_chars user ≡ true)
unfolding valid_username is_empty text_length
valid_username_lem String.[] h = ground (arith, h)
valid_username_lem (String.◌∷◌ c s) h =
    (refl, (both_true _ (all_username_chars (String.◌∷◌ c s)) h).1)
