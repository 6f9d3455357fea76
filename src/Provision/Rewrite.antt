-- ===== src/Provision/Rewrite.antt =====
-- What a rewrite of `tokens.txt` keeps, drops and reports.
-- Code: crates/nocturnal-provision/src/lib.rs.
use nocturnal_discord.Prelude.{
  ◌≡◌, refl, sym, ap, subst, ◌∙◌, Bool, true, false, not, Option, none, some, List, [], ◌++◌, map,
  String, arith, ◌⊎◌, inl, inr,
}
use nocturnal_discord.Prelude.Lists.{
  keep, any, All, All-append, All-keep, All-keep-true, All-map, All-weaken, keep-append, keep-keep,
}
use nocturnal_discord.Prelude.Lines.{
  trimmed_lines, join_lines, IsLine, trimmed_lines-join_lines, trimmed_lines-IsLine, first_word,
}
use nocturnal_discord.Prelude.Rising.{
  insert_all, insert_all-All, insert_all-Rising, insert_all_self, contains_key-insert_all,
}
use nocturnal_discord.Prelude.OrdMap
use nocturnal_discord.Prelude.OrdMap.{OrdMap, same, same→eq, text_key}
use nocturnal_discord.Provision.{Grant, line_username, vouched, tokens_file}
use nocturnal_discord.Provision.Tokens.{
  is_foreign, held, entries, scan-entries, entries-Held, entries-All, entries-append, Held,
  entries-Held-self, entries-foreign, foreign-Held,
}
use mathlib.Core.Bool.{false≢true}
use mathlib.Core.List.{append-nil}

module _ (fingerprint : String → String) (managed : OrdMap String (Unit {0}))
    (grants : OrdMap String Grant) where
  -- The lines that the file has after a rewrite of these.
  unfoldable pub new_kept : List String → OrdMap String String
  new_kept lines = insert_all [] (entries fingerprint managed grants lines)

  unfoldable pub new_lines : List String → List String
  new_lines lines =
      keep (is_foreign fingerprint managed grants) lines ++ map (λ e. e.1) (new_kept lines)

  tokens_file_lem :
      (existing : String)
      → tokens_file fingerprint managed grants existing ≡ (
        join_lines (new_lines (trimmed_lines existing)),
        keep
            (λ u. not (OrdMap.contains_key (new_kept (trimmed_lines existing)) u))
            (map (λ e. e.0) grants),
      )
  unfolding tokens_file new_lines new_kept
  tokens_file_lem existing =
      rw
        (scan-entries fingerprint managed grants (record { kept = []; out = [] })
          (trimmed_lines existing))
        refl

  new_kept-Held : (lines : List String) → All (Held fingerprint managed grants) (new_kept lines)
  unfolding new_kept
  new_kept-Held lines =
      insert_all-All (Held fingerprint managed grants) [] (entries fingerprint managed grants lines)
        tt (entries-Held fingerprint managed grants lines)

  new_lines-All {ℓ} :
      (P : String → Type ℓ) (lines : List String) → All P lines → All P (new_lines lines)
  unfolding new_lines new_kept
  new_lines-All P lines h =
      All-append P (keep (is_foreign fingerprint managed grants) lines)
        (map (λ e. e.1) (new_kept lines))
        (All-keep P (is_foreign fingerprint managed grants) lines h)
        (All-map P (λ e. e.1) (new_kept lines)
          (insert_all-All (λ e. P e.1) [] (entries fingerprint managed grants lines) tt
            (entries-All fingerprint managed grants P lines h)))

  pub trimmed_lines-tokens_file :
      (existing : String)
      → trimmed_lines (tokens_file fingerprint managed grants existing).0
        ≡ new_lines (trimmed_lines existing)
  trimmed_lines-tokens_file existing =
      ap (λ r. trimmed_lines r.0) (tokens_file_lem existing)
      ∙ trimmed_lines-join_lines (new_lines (trimmed_lines existing))
          (new_lines-All IsLine (trimmed_lines existing) (trimmed_lines-IsLine existing))

  new_lines-foreign :
      (lines : List String)
      → keep (is_foreign fingerprint managed grants) (new_lines lines)
        ≡ keep (is_foreign fingerprint managed grants) lines
  unfolding new_lines
  new_lines-foreign lines =
      keep-append (is_foreign fingerprint managed grants)
        (keep (is_foreign fingerprint managed grants) lines) (map (λ e. e.1) (new_kept lines))
      ∙ rw
          (
            foreign-Held fingerprint managed grants (new_kept lines) (new_kept-Held lines),
            append-nil (
                keep (is_foreign fingerprint managed grants)
                  (keep (is_foreign fingerprint managed grants) lines)),
          )
          (keep-keep (is_foreign fingerprint managed grants) lines)

  new_lines-kept : (lines : List String) → new_kept (new_lines lines) ≡ new_kept lines
  unfolding new_kept
  new_lines-kept lines =
      ap (insert_all []) (entries-new_lines)
      ∙ insert_all_self [] (new_kept lines)
          (insert_all-Rising [] (entries fingerprint managed grants lines) tt)
    where
      entries-new_lines : entries fingerprint managed grants (new_lines lines) ≡ new_kept lines
      entries-new_lines =
          unfold new_lines in
          entries-append fingerprint managed grants
            (keep (is_foreign fingerprint managed grants) lines) (map (λ e. e.1) (new_kept lines))
          ∙ rw
              (
                entries-foreign fingerprint managed grants
                    (keep (is_foreign fingerprint managed grants) lines)
                    (All-keep-true (is_foreign fingerprint managed grants) lines),
                entries-Held-self fingerprint managed grants (new_kept lines) (new_kept-Held lines),
              )
              refl

  new_lines-new_lines : (lines : List String) → new_lines (new_lines lines) ≡ new_lines lines
  unfolding new_lines
  new_lines-new_lines lines = rw (new_lines, new_lines-foreign lines, new_lines-kept lines) refl

  -- A rewrite keeps every line that the ledger does not manage, in its order: the lines with no
  -- name, and those of names that were never issued a token. Blank lines and lines that start with
  -- `#` are not among them: the rewrite drops these.
  pub tokens_file-foreign :
      (existing : String)
      → keep
          (is_foreign fingerprint managed grants)
          (trimmed_lines (tokens_file fingerprint managed grants existing).0)
        ≡ keep (is_foreign fingerprint managed grants) (trimmed_lines existing)
  tokens_file-foreign existing =
      rw (trimmed_lines-tokens_file existing) (new_lines-foreign (trimmed_lines existing))

  -- A rewrite of a rewritten file changes nothing and reports the same members, whatever stood in
  -- the file at first.
  pub tokens_file-tokens_file :
      (existing : String)
      → tokens_file fingerprint managed grants (tokens_file fingerprint managed grants existing).0
        ≡ tokens_file fingerprint managed grants existing
  tokens_file-tokens_file existing =
      tokens_file_lem (tokens_file fingerprint managed grants existing).0
      ∙ rw
          (
            trimmed_lines-tokens_file existing,
            new_lines-new_lines (trimmed_lines existing),
            new_lines-kept (trimmed_lines existing),
          )
          (sym (tokens_file_lem existing))

  contains_key-new_kept :
      (lines : List String) (u : String)
      → OrdMap.contains_key (new_kept lines) u
        ≡ any (λ e. same e.0 u) (entries fingerprint managed grants lines)
  unfolding new_kept OrdMap.get OrdMap.contains_key
  contains_key-new_kept lines u =
      contains_key-insert_all [] (entries fingerprint managed grants lines) u

  -- The members that a rewrite reports are those with a grant for whom no line of the file held the
  -- secret that the grant vouches for.
  pub tokens_file-missing :
      (existing : String)
      → (tokens_file fingerprint managed grants existing).1
        ≡ keep
            (λ u.
              not (
                any
                  (λ e. same e.0 u)
                  (entries fingerprint managed grants (trimmed_lines existing))))
            (map (λ e. e.0) grants)
  tokens_file-missing existing =
      ap (λ r. r.1) (tokens_file_lem existing)
      ∙ ap {A = String → Bool} (λ f. keep (λ u. not (f u)) (map (λ e. e.0) grants))
          (λ i u. contains_key-new_kept (trimmed_lines existing) u i)

  -- A line that a live grant of the named member vouches for: the digest of its first word is the
  -- one that the grant holds.
  abbrev pub IsVouched : String → Type 0
  IsVouched line =
      (user : String) × (g : Grant) × (line_username line ≡ some user)
      × (OrdMap.get grants user ≡ some g)
      × (g.token_fp ≡ fingerprint (first_word line))

  -- A line that the ledger does not manage, or one that a live grant vouches for.
  abbrev pub IsKept : String → Type 0
  IsKept line = (is_foreign fingerprint managed grants line ≡ true) ⊎ IsVouched line

  vouched-Grant :
      (user line : String)
      → vouched fingerprint managed grants user line ≡ true
      → (g : Grant) × (OrdMap.get grants user ≡ some g)
        × (g.token_fp ≡ fingerprint (first_word line))
  unfolding vouched
  vouched-Grant user line h = go (OrdMap.get grants user) refl h
    where
      go :
          (o : Option Grant)
          → OrdMap.get grants user ≡ o
          → elim o as (λ _. Bool) [
            | none ↦ false
            | some g ↦ same g.token_fp (fingerprint (first_word line))
          ]
            ≡ true
          → (g : Grant) × (OrdMap.get grants user ≡ some g)
            × (g.token_fp ≡ fingerprint (first_word line))
      go none e k = absurd (false≢true k)
      go (some g) e k = (g, e, same→eq g.token_fp (fingerprint (first_word line)) k)

  Held-IsVouched : (e : String × String) → Held fingerprint managed grants e → IsVouched e.1
  Held-IsVouched (user, line) h =
      let (g, found, fits) = vouched-Grant user line (is_vouched h) in
      (user, g, names h, found, fits)
    where
      names : Held fingerprint managed grants (user, line) → line_username line ≡ some user
      names k = unfold held in ground (arith, k)

      is_vouched :
          Held fingerprint managed grants (user, line)
          → vouched fingerprint managed grants user line ≡ true
      is_vouched k = unfold held in ground (arith, k)

  new_lines-IsVouched : (lines : List String) → All IsKept (new_lines lines)
  unfolding new_lines
  new_lines-IsVouched lines =
      let foreign = keep (is_foreign fingerprint managed grants) lines in
      All-append IsKept foreign (map (λ e. e.1) (new_kept lines))
        (All-weaken (λ l. is_foreign fingerprint managed grants l ≡ true) IsKept foreign
          (λ l h. inl h) (All-keep-true (is_foreign fingerprint managed grants) lines))
        (All-map IsKept (λ e. e.1) (new_kept lines)
          (All-weaken (Held fingerprint managed grants) (λ e. IsKept e.1) (new_kept lines)
            (λ e h. inr (Held-IsVouched e h)) (new_kept-Held lines)))

  -- After a rewrite each line is one that the ledger does not manage, or one whose secret a live
  -- grant of the member that it names vouches for: no other token stays valid.
  pub tokens_file-All :
      (existing : String)
      → All IsKept (trimmed_lines (tokens_file fingerprint managed grants existing).0)
  tokens_file-All existing =
      let lines = trimmed_lines existing in
      subst (All IsKept) (sym (trimmed_lines-tokens_file existing)) (new_lines-IsVouched lines)
