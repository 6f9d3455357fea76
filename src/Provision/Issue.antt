-- ===== src/Provision/Issue.antt =====
-- The line of a token that has just been issued: `append_token` and what the next rewrite makes of
-- it. Code: crates/nocturnal-provision/src/lib.rs.
use nocturnal_discord.Prelude.{
  ◌≡◌, refl, sym, ap, subst, ◌∙◌, true, false, ◌||◌, some, List, [], ◌∷◌, ◌++◌, map, String, arith,
}
use nocturnal_discord.Prelude.Lists.{any}
use nocturnal_discord.Prelude.Text.{is_whitespace, any_char, is_empty}
use nocturnal_discord.Prelude.Lines.{trimmed_lines, first_word, starts_with_char}
use nocturnal_discord.Provision.{Grant, tokens_file, vouched, valid_username, appended}
use nocturnal_discord.Prelude.OrdMap
use nocturnal_discord.Prelude.OrdMap.{OrdMap, same, same_refl, text_key}
use nocturnal_discord.Provision.Tokens.{held, entries, entries-append}
use nocturnal_discord.Prelude.Rising.{insert_all, insert_all-append}
use nocturnal_discord.Provision.Append.{trimmed_lines-appended}
use nocturnal_discord.Provision.Rewrite.{new_lines, new_kept, trimmed_lines-tokens_file}
use nocturnal_discord.Provision.Solid.{
  Solid, token_line, all_username_chars-Solid, first_word-append, line_username-token_line,
  token_line-IsLine, valid_username_lem,
}
use mathlib.Core.Bool.{false≢true}
use Prim.Native.String.{◌++◌ as ◌^^◌}
use text.Mathlib.TextLemmas.{cons-append}

-- The last entry of a list of them is in the map that is made of it.
any-insert :
    (m : OrdMap String String) (user line : String)
    → any (λ l. same l line) (map (λ e. e.1) (OrdMap.insert m user line)) ≡ true
unfolding OrdMap.insert
any-insert [] user line = ground (arith, same_refl line)
any-insert ((j, w) ∷ m) user line = ground (arith, same_refl line, any-insert m user line)

any-append :
    (xs ys : List String) (line : String)
    → any (λ l. same l line) ys ≡ true
    → any (λ l. same l line) (xs ++ ys) ≡ true
any-append [] ys line h = h
any-append (x ∷ xs) ys line h = ground (arith, any-append xs ys line h)

module _ (fingerprint : String → String) (managed : OrdMap String (Unit {0}))
    (grants : OrdMap String Grant) where
  held-token_line :
      (secret user : String) (g : Grant)
      → OrdMap.contains_key managed user ≡ true
      → OrdMap.get grants user ≡ some g
      → g.token_fp ≡ fingerprint secret
      → Solid secret
      → is_empty secret ≡ false
      → starts_with_char secret 35 ≡ false
      → is_empty user ≡ false
      → Solid user
      → held fingerprint managed grants (token_line secret user)
        ≡ some (user, token_line secret user)
  unfolding held
  held-token_line secret user g m live fits solid some_secret marked some_user plain =
      rw
        (
          plain_start secret some_secret marked,
          line_username-token_line secret user solid some_user plain,
          m,
          is_vouched,
        )
        refl
    where
      plain_start :
          (s : String)
          → is_empty s ≡ false
          → starts_with_char s 35 ≡ false
          → (is_empty (s ^^ (" # " ^^ user)) || starts_with_char (s ^^ (" # " ^^ user)) 35) ≡ false
      plain_start String.[] a b = absurd (false≢true (sym (unfold is_empty in a)))
      plain_start (String.◌∷◌ c s) a b =
          unfold is_empty in
          unfold starts_with_char in
          rw (cons-append c s (" # " ^^ user)) (unfold starts_with_char in b)

      first : first_word (token_line secret user) ≡ secret
      first = rw (cons-append " " "# " user) (first_word-append secret ("# " ^^ user) solid)

      is_vouched : vouched fingerprint managed grants user (token_line secret user) ≡ true
      is_vouched =
          unfold vouched in ground (arith, live, fits, first, same_refl (fingerprint secret))

  new_kept-last :
      (lines : List String) (user line : String)
      → held fingerprint managed grants line ≡ some (user, line)
      → new_kept fingerprint managed grants (lines ++ line ∷ [])
        ≡ OrdMap.insert (new_kept fingerprint managed grants lines) user line
  unfolding new_kept entries
  new_kept-last lines user line h =
      ap (insert_all []) (entries-append fingerprint managed grants lines (line ∷ []))
      ∙ rw
          (
            entries-one,
            insert_all-append [] (entries fingerprint managed grants lines) ((user, line) ∷ []),
          )
          (unfold insert_all in refl)
    where
      entries-one : entries fingerprint managed grants (line ∷ []) ≡ (user, line) ∷ []
      entries-one = unfold entries in rw (entries, h) refl

  last_kept :
      (lines : List String) (user line : String)
      → held fingerprint managed grants line ≡ some (user, line)
      → any (λ l. same l line) (new_lines fingerprint managed grants (lines ++ line ∷ [])) ≡ true
  unfolding new_lines
  last_kept lines user line h = any-append _ _ line (
      subst (λ m. any (λ l. same l line) (map (λ e. e.1) m) ≡ true)
        (sym (new_kept-last lines user line h))
        (any-insert (new_kept fingerprint managed grants lines) user line))

  -- The line that is appended for a fresh token is still there after the next rewrite, where the
  -- grant in the ledger holds the token's digest, the name is a valid one that the ledger manages,
  -- and the token has no white space, is not empty and does not start with `#`.
  pub issue-kept :
      (text secret user : String) (g : Grant)
      → OrdMap.contains_key managed user ≡ true
      → OrdMap.get grants user ≡ some g
      → g.token_fp ≡ fingerprint secret
      → any_char is_whitespace secret ≡ false
      → is_empty secret ≡ false
      → starts_with_char secret 35 ≡ false
      → valid_username user ≡ true
      → any
          (λ line. same line (secret ^^ (" # " ^^ user)))
          (trimmed_lines (tokens_file fingerprint managed grants (appended text user secret)).0)
        ≡ true
  issue-kept text secret user g m live fits solid some_secret marked valid =
      let (named, chars) = valid_username_lem user valid in
      let plain = all_username_chars-Solid user chars in
      let line = token_line secret user in
      rw
        (
          trimmed_lines-tokens_file fingerprint managed grants (appended text user secret),
          trimmed_lines-appended text user secret
              (token_line-IsLine secret user solid some_secret named plain),
        )
        (last_kept (trimmed_lines text) user line
          (held-token_line secret user g m live fits solid some_secret marked named plain))
