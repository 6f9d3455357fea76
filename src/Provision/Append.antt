-- ===== src/Provision/Append.antt =====
-- The lines of a file that a line was appended to. Code: `append_token` of
-- crates/nocturnal-provision/src/lib.rs.
use nocturnal_discord.Prelude.{
  ◌≡◌, ◌≢◌, refl, sym, ap, subst, ◌∙◌, Bool, true, false, not, ◌&&◌, ◌||◌, List, [], ◌∷◌, ◌++◌, map,
  String, arith, if◌then◌else◌, ◌==◌,
}
use nocturnal_discord.Prelude.Text.{is_empty, trim, ends_with_char}
use nocturnal_discord.Prelude.Lines.{trimmed_lines, raw_lines, push_char, has_newline, IsLine}
use nocturnal_discord.Provision.{appended}
use mathlib.Core.List.{map-append}
use Prim.Native.Char.{Char, code}
use Prim.Native.String.{◌++◌ as ◌^^◌}
use text.Mathlib.TextLemmas.{nil-append, cons-append, append_assoc}

-- The end of a text that is empty, or ends in a newline.
abbrev closed : String → Bool
closed text = is_empty text || ends_with_char text 10

raw_lines-some : (c : Char) (s : String) → raw_lines (String.◌∷◌ c s) ≢ []
unfolding raw_lines
raw_lines-some c s = pick (code c == 10) (raw_lines s)
  where
    pick : (b : Bool) (ls : List String) → (if b then String.[] ∷ ls else push_char c ls) ≢ []
    pick true ls e = cc
    pick false [] e = unfold push_char in cc
    pick false (l ∷ ls) e = unfold push_char in cc

push_char-append :
    (c : Char) (xs ys : List String) → xs ≢ [] → push_char c (xs ++ ys) ≡ push_char c xs ++ ys
unfolding push_char
push_char-append c [] ys h = absurd (h refl)
push_char-append c (x ∷ xs) ys h = refl

raw_lines-append :
    (s t : String) → closed s ≡ true → raw_lines (s ^^ t) ≡ raw_lines s ++ raw_lines t
unfolding raw_lines is_empty ends_with_char
raw_lines-append String.[] t h = ap raw_lines (nil-append t)
raw_lines-append (String.◌∷◌ c String.[]) t h =
    rw (cons-append c String.[] t, nil-append t) (ground (arith, h))
raw_lines-append (String.◌∷◌ c (String.◌∷◌ d s)) t h =
    ap raw_lines (cons-append c (String.◌∷◌ d s) t)
    ∙ rw (raw_lines-append (String.◌∷◌ d s) t h)
        (joined (code c == 10) (raw_lines (String.◌∷◌ d s)) (raw_lines-some d s))
  where
    joined :
        (b : Bool) (xs : List String)
        → xs ≢ []
        → (if b then String.[] ∷ (xs ++ raw_lines t) else push_char c (xs ++ raw_lines t))
          ≡ (if b then String.[] ∷ xs else push_char c xs) ++ raw_lines t
    joined true xs k = refl
    joined false xs k = push_char-append c xs (raw_lines t) k

-- A newline that ends a last line adds none.
raw_lines-newline : (s : String) → closed s ≡ false → raw_lines (s ^^ "\n") ≡ raw_lines s
unfolding raw_lines is_empty ends_with_char push_char
raw_lines-newline String.[] h = ground (arith, h)
raw_lines-newline (String.◌∷◌ c String.[]) h = rw (cons-append c String.[] "\n") (ground (arith, h))
raw_lines-newline (String.◌∷◌ c (String.◌∷◌ d s)) h =
    ap raw_lines (cons-append c (String.◌∷◌ d s) "\n")
    ∙ rw (raw_lines-newline (String.◌∷◌ d s) h) refl

ends_with_char-newline : (s : String) → ends_with_char (s ^^ "\n") 10 ≡ true
unfolding ends_with_char
ends_with_char-newline String.[] = refl
ends_with_char-newline (String.◌∷◌ c String.[]) = rw (cons-append c String.[] "\n") refl
ends_with_char-newline (String.◌∷◌ c (String.◌∷◌ d s)) =
    let rest = ends_with_char-newline (String.◌∷◌ d s) in
    rw (cons-append c (String.◌∷◌ d s) "\n", cons-append d s "\n")
      (rw (cons-append d s "\n") at rest)

closed-newline : (s : String) → closed (s ^^ "\n") ≡ true
closed-newline s = rw (ends_with_char-newline s) (either (is_empty (s ^^ "\n")))
  where
    either : (b : Bool) → (b || true) ≡ true
    either true = refl
    either false = refl

raw_lines-one : (line : String) → has_newline line ≡ false → raw_lines (line ^^ "\n") ≡ line ∷ []
unfolding raw_lines push_char
raw_lines-one String.[] h = refl
raw_lines-one (String.◌∷◌ c s) h = rw (cons-append c s "\n") (ground (arith, h, raw_lines-one s))

-- The text with its last line ended.
abbrev ended : String → String
ended text = if not (is_empty text) && not (ends_with_char text 10) then text ^^ "\n" else text

neither : (a b : Bool) → (not a && not b) ≡ not (a || b)
neither true b = refl
neither false b = refl

ended-closed :
    (text : String) → (closed (ended text) ≡ true) × (raw_lines (ended text) ≡ raw_lines text)
ended-closed text =
    subst (λ c. Shut (if c then text ^^ "\n" else text))
      (sym (neither (is_empty text) (ends_with_char text 10))) (go (closed text) refl)
  where
    Shut : String → Type 0
    Shut t = (closed t ≡ true) × (raw_lines t ≡ raw_lines text)

    go : (b : Bool) → closed text ≡ b → Shut (if not b then text ^^ "\n" else text)
    go true h = (h, refl)
    go false h = (closed-newline text, raw_lines-newline text h)

line_newline :
    (secret user : String)
    → secret ^^ (" # " ^^ (user ^^ "\n")) ≡ (secret ^^ (" # " ^^ user)) ^^ "\n"
line_newline secret user =
    ap (λ t. secret ^^ t) (sym (append_assoc " # " user "\n"))
    ∙ sym (append_assoc secret (" # " ^^ user) "\n")

-- A line that is appended is the last of the file, and the other lines stay as they are.
pub trimmed_lines-appended :
    (text user secret : String)
    → IsLine (secret ^^ (" # " ^^ user))
    → trimmed_lines (appended text user secret)
      ≡ trimmed_lines text ++ (secret ^^ (" # " ^^ user)) ∷ []
unfolding trimmed_lines appended
trimmed_lines-appended text user secret h =
    let line = secret ^^ (" # " ^^ user) in
    let (whole, kept) = ended-closed text in
    ap (λ t. map trim (raw_lines (ended text ^^ t))) (line_newline secret user)
    ∙ ap (map trim) (raw_lines-append (ended text) (line ^^ "\n") whole)
    ∙ rw (kept, raw_lines-one line h.0) (map-append trim (raw_lines text) (line ∷ []))
    ∙ ap (λ t. map trim (raw_lines text) ++ t ∷ []) h.1
