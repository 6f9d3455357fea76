-- ===== src/Provision/Tokens.antt =====
-- The loop of `tokens_file` as two passes: the lines that are not the ledger's, and the entries
-- that a live grant vouches for. Code: crates/nocturnal-provision/src/lib.rs.
use nocturnal_discord.Prelude.{
  ◌≡◌, refl, sym, ap, subst, ◌∙◌, Bool, true, false, not, ◌&&◌, ◌||◌, Option, none, some, List, [],
  ◌∷◌, ◌++◌, map, String, if◌then◌else◌, arith,
}
use nocturnal_discord.Prelude.Lists.{keep, All}
use nocturnal_discord.Prelude.Text.{is_empty}
use nocturnal_discord.Prelude.Lines.{starts_with_char}
use nocturnal_discord.Prelude.Rising.{insert_all, insert_all-append}
use nocturnal_discord.Prelude.OrdMap
use nocturnal_discord.Prelude.OrdMap.{OrdMap, text_key}
use nocturnal_discord.Provision.{Grant, Scan, line_username, vouched, scan_user, scan_line, scan}
use mathlib.Core.List.{append_assoc, append-nil}

module _ (fingerprint : String → String) (managed : OrdMap String (Unit {0}))
    (grants : OrdMap String Grant) where
  -- A line that the ledger does not manage: a credential of a service, or one added by hand.
  unfoldable pub is_foreign : String → Bool
  is_foreign line =
      not (is_empty line) && not (starts_with_char line 35) && elim (line_username line) [
        | none ↦ true
        | some user ↦ not (OrdMap.contains_key managed user)
      ]

  -- A line of a managed member whose grant vouches for the secret, under the member's name.
  unfoldable pub held : String → Option (String × String)
  held line =
      if is_empty line || starts_with_char line 35 then none else elim (line_username line) [
        | none ↦ none
        | some user ↦
            if OrdMap.contains_key managed user && vouched fingerprint managed grants user line
            then some (user, line)
            else none
      ]

  unfoldable pub entries : List String → List (String × String)
  entries [] = []
  entries (line ∷ lines) = elim (held line) [ none ↦ entries lines | some e ↦ e ∷ entries lines ]

  -- One line of the loop.
  scan_line_lem :
      (s : Scan) (line : String)
      → scan_line fingerprint managed grants s line ≡ record {
        kept = insert_all s.kept (entries (line ∷ []));
        out = s.out ++ keep is_foreign (line ∷ []);
      }
  unfolding scan_line scan_user is_foreign held entries insert_all
  scan_line_lem s line = ground (arith, append-nil s.out)

  pub entries-append : (xs ys : List String) → entries (xs ++ ys) ≡ entries xs ++ entries ys
  unfolding entries
  entries-append [] ys = refl
  entries-append (x ∷ xs) ys = ground (arith, entries-append xs ys)

  -- The loop is the two passes.
  pub scan-entries :
      (s : Scan) (lines : List String)
      → scan fingerprint managed grants s lines
        ≡ record { kept = insert_all s.kept (entries lines); out = s.out ++ keep is_foreign lines }
  unfolding scan
  scan-entries s [] =
      unfold entries in
      unfold insert_all in ap (λ o. record { kept = s.kept; out = o }) (sym (append-nil s.out))
  scan-entries s (line ∷ lines) =
      ap (λ t. scan fingerprint managed grants t lines) (scan_line_lem s line)
      ∙ scan-entries
          (record {
            kept = insert_all s.kept (entries (line ∷ []));
            out = s.out ++ keep is_foreign (line ∷ []);
          })
          lines
      ∙ rw
          (
            ← insert_all-append s.kept (entries (line ∷ [])) (entries lines),
            ← entries-append (line ∷ []) lines,
            append_assoc s.out (keep is_foreign (line ∷ [])) (keep is_foreign lines),
          )
          (ground (arith))

  -- An entry of the map is a line under the name that it carries.
  abbrev pub Held : String × String → Type 0
  Held e = held e.1 ≡ some e

  held-line : (line : String) (e : String × String) → held line ≡ some e → e.1 ≡ line
  unfolding held
  held-line line e h = ground arith

  held-Held : (line : String) (e : String × String) → held line ≡ some e → Held e
  held-Held line e h = subst (λ l. held l ≡ some e) (sym (held-line line e h)) h

  pub entries-Held : (lines : List String) → All Held (entries lines)
  unfolding entries
  entries-Held [] = tt
  entries-Held (line ∷ lines) = pick (held line) refl (entries-Held lines)
    where
      pick :
          (o : Option (String × String))
          → held line ≡ o
          → All Held (entries lines)
          → All Held (elim o [ none ↦ entries lines | some e ↦ e ∷ entries lines ])
      pick none h rest = rest
      pick (some e) h rest = (held-Held line e h, rest)

  pub entries-All {ℓ} :
      (P : String → Type ℓ) (lines : List String) → All P lines → All (λ e. P e.1) (entries lines)
  unfolding entries
  entries-All P [] h = tt
  entries-All P (line ∷ lines) h = pick (held line) refl (entries-All P lines h.1)
    where
      pick :
          (o : Option (String × String))
          → held line ≡ o
          → All (λ e. P e.1) (entries lines)
          → All (λ e. P e.1) (elim o [ none ↦ entries lines | some e ↦ e ∷ entries lines ])
      pick none e rest = rest
      pick (some x) e rest = (subst P (sym (held-line line x e)) h.0, rest)

  pub entries-Held-self : (m : OrdMap String String) → All Held m → entries (map (λ e. e.1) m) ≡ m
  unfolding entries
  entries-Held-self [] h = refl
  entries-Held-self (e ∷ m) h = rw (entries, h.0) (ap (λ r. e ∷ r) (entries-Held-self m h.1))

  pub held-foreign :
      (line : String) (e : String × String) → held line ≡ some e → is_foreign line ≡ false
  unfolding held is_foreign
  held-foreign line e h = ground arith

  foreign-held : (line : String) → is_foreign line ≡ true → held line ≡ none
  unfolding held is_foreign
  foreign-held line h = ground arith

  pub entries-foreign :
      (lines : List String) → All (λ l. is_foreign l ≡ true) lines → entries lines ≡ []
  unfolding entries
  entries-foreign [] h = refl
  entries-foreign (l ∷ lines) h = rw (entries, foreign-held l h.0) (entries-foreign lines h.1)

  pub foreign-Held :
      (m : OrdMap String String) → All Held m → keep is_foreign (map (λ e. e.1) m) ≡ []
  foreign-Held [] h = refl
  foreign-Held (e ∷ m) h = rw (held-foreign e.1 e h.0) (foreign-Held m h.1)
