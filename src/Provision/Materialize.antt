-- ===== src/Provision/Materialize.antt =====
-- `materialize` as a whole: crates/nocturnal-provision/src/lib.rs.
use nocturnal_discord.Prelude.{
  ℕ, ◌≡◌, ◌≢◌, refl, sym, ap, subst, ◌∙◌, true, false, not, Option, none, some, List, [], ◌∷◌,
  String, if◌then◌else◌, arith, Bool-cases, inl, inr,
}
use nocturnal_discord.Prelude.Lists.{All, All-weaken, All-both}
use nocturnal_discord.Prelude.Lines.{trimmed_lines}
use nocturnal_discord.Prelude.Rising.{Rising}
use nocturnal_discord.Prelude.OrdMap
use nocturnal_discord.Prelude.OrdMap.{OrdMap, same, same_refl, same→eq, text_key}
use nocturnal_discord.Provision.{Grant, line_username, tokens_file}
use nocturnal_discord.Provision.Files.{
  File, Dir, Disk, yaml_of, user_file_names, user_files, write_atomic, put_grants, remove_files,
  remove_revoked, text_of, materialize,
}
use nocturnal_discord.Provision.Names.{FileKind, prefix, yaml_of-NotOf}
use nocturnal_discord.Provision.Settled.{
  Reads, Missing, Reads-alike, put_grants-Reads, put_grants-settled, remove_files-other,
  remove_files-Missing, remove_files-gone, remove_files-settled,
}
use mathlib.Core.Bool.{false≢true}
use nocturnal_discord.Provision.Rewrite.{IsKept, tokens_file-tokens_file, tokens_file-All}
use nocturnal_discord.Provision.Tokens.{is_foreign}

module _ (grants : OrdMap String Grant) where
  -- A live member's files are left alone.
  remove_revoked-live :
      (s : Dir × ℕ) (users : OrdMap String (Unit {0})) (user : String) (k : FileKind)
      → OrdMap.contains_key grants user ≡ true
      → OrdMap.get (remove_revoked grants s users).0 (yaml_of (prefix k) user)
        ≡ OrdMap.get s.0 (yaml_of (prefix k) user)
  unfolding remove_revoked
  remove_revoked-live s [] user k h = refl
  remove_revoked-live s ((v, _) ∷ users) user k h =
      elim (Bool-cases (OrdMap.contains_key grants v)) [
        | inl live ↦ rw (remove_revoked, live) (remove_revoked-live s users user k h)
        | inr gone ↦
            rw (remove_revoked, gone)
              (remove_revoked-live (remove_files s (user_file_names v)) users user k h
                ∙ remove_files-other s (user_file_names v) (yaml_of (prefix k) user)
                    (yaml_of-NotOf k user v (λ e. other e gone)))
      ]
    where
      other : v ≡ user → OrdMap.contains_key grants v ≡ false → ⊥
      other e gone = false≢true (sym gone ∙ ap (OrdMap.contains_key grants) e ∙ h)

  remove_revoked-Missing :
      (s : Dir × ℕ) (users : OrdMap String (Unit {0})) (name : String)
      → Missing s.0 name
      → Missing (remove_revoked grants s users).0 name
  unfolding remove_revoked
  remove_revoked-Missing s [] name h = h
  remove_revoked-Missing s ((v, _) ∷ users) name h =
      elim (Bool-cases (OrdMap.contains_key grants v)) [
        | inl live ↦ rw (remove_revoked, live) (remove_revoked-Missing s users name h)
        | inr gone ↦
            rw (remove_revoked, gone)
              (remove_revoked-Missing (remove_files s (user_file_names v)) users name
                (remove_files-Missing s (user_file_names v) name h))
      ]

  -- The members of this list who hold no grant have no file.
  abbrev pub Cleared : Dir → OrdMap String (Unit {0}) → Type 0
  Cleared dir users =
      All (λ e. OrdMap.contains_key grants e.0 ≡ false → All (Missing dir) (user_file_names e.0))
        users

  remove_revoked-Cleared :
      (s : Dir × ℕ) (users : OrdMap String (Unit {0}))
      → Cleared (remove_revoked grants s users).0 users
  unfolding remove_revoked
  remove_revoked-Cleared s [] = tt
  remove_revoked-Cleared s ((v, _) ∷ users) =
      let next = (if OrdMap.contains_key grants v then s else remove_files s (user_file_names v)) in
      (λ gone. cleared next (rw gone refl), remove_revoked-Cleared next users)
    where
      cleared :
          (next : Dir × ℕ)
          → next ≡ remove_files s (user_file_names v)
          → All (Missing (remove_revoked grants next users).0) (user_file_names v)
      cleared next e =
          All-weaken (Missing next.0) (Missing (remove_revoked grants next users).0)
            (user_file_names v) (λ name. remove_revoked-Missing next users name)
            (subst (λ t. All (Missing t.0) (user_file_names v)) (sym e)
              (remove_files-gone s (user_file_names v)))

  remove_revoked-settled :
      (dir : Dir) (n : ℕ) (users : OrdMap String (Unit {0}))
      → Cleared dir users
      → remove_revoked grants (dir, n) users ≡ (dir, n)
  unfolding remove_revoked
  remove_revoked-settled dir n [] h = refl
  remove_revoked-settled dir n ((v, _) ∷ users) h =
      elim (Bool-cases (OrdMap.contains_key grants v)) [
        | inl live ↦ rw (remove_revoked, live) (remove_revoked-settled dir n users h.1)
        | inr gone ↦
            rw (remove_revoked, gone, remove_files-settled dir n (user_file_names v) (h.0 gone))
              (remove_revoked-settled dir n users h.1)
      ]

-- No line of the tokens file names the user, and no file of the user is left.
abbrev pub Gone : String → Disk → Type 0
Gone user d =
    All (λ line. line_username line ≢ some user) (trimmed_lines (text_of d.tokens))
    × All (Missing d.perses_dir) (user_file_names user)

module _ (fingerprint : String → String) (managed : OrdMap String (Unit {0}))
    (grants : OrdMap String Grant) where
  put_grants-Reads-live :
      (dir : Dir)
      → Rising grants
      → All
          (λ e.
            All
              (Reads (remove_revoked grants ((put_grants (dir, 0) grants).0, 0) managed).0)
              (user_files e.0 e.1.role))
          grants
  put_grants-Reads-live dir h =
      let written = (put_grants (dir, 0) grants).0 in
      All-weaken
        (λ e.
          All (Reads written) (user_files e.0 e.1.role) × (OrdMap.contains_key grants e.0 ≡ true))
        (λ e. All (Reads (remove_revoked grants (written, 0) managed).0) (user_files e.0 e.1.role))
        grants
        (λ e good.
          Reads-alike written (remove_revoked grants (written, 0) managed).0 e.0 e.1.role
            (λ k. remove_revoked-live grants (written, 0) managed e.0 k good.1) good.0)
        (All-both (λ e. All (Reads written) (user_files e.0 e.1.role))
          (λ e. OrdMap.contains_key grants e.0 ≡ true) grants (put_grants-Reads (dir, 0) grants h)
          (OrdMap.contains_key-All grants))

  text_of-rewritten :
      (o : Option File) (desired : String)
      → text_of (if not (same desired (text_of o)) then some (write_atomic o desired) else o)
        ≡ desired
  unfolding text_of write_atomic
  text_of-rewritten none desired = ground (arith, same→eq desired "")
  text_of-rewritten (some f) desired =
      ground (arith, same→eq desired f.contents, same→eq f.contents desired)

  -- A run over a disk that is in step.
  materialize-settled :
      (o : Option File) (dir : Dir) (text : String) (missing : List String)
      → text_of o ≡ text
      → tokens_file fingerprint managed grants text ≡ (text, missing)
      → All (λ e. All (Reads dir) (user_files e.0 e.1.role)) grants
      → Cleared grants dir managed
      → materialize fingerprint managed grants (record { tokens = o; perses_dir = dir }) ≡ (
        record { tokens = o; perses_dir = dir },
        record {
          tokens_rewritten = false;
          files_written = 0;
          files_removed = 0;
          grants_without_secret = missing;
        },
      )
  unfolding materialize
  materialize-settled o dir text missing same_text same_file written cleared =
      rw
        (
          same_text,
          same_file,
          same_refl text,
          put_grants-settled dir 0 grants written,
          remove_revoked-settled grants dir 0 managed cleared,
        )
        refl

  -- After a run, every file of every member who holds a grant has the text that the role asks for,
  -- whatever stood in the directory at first.
  pub materialize-Reads :
      (d : Disk)
      → Rising grants
      → All
          (λ e.
            All
              (Reads (materialize fingerprint managed grants d).0.perses_dir)
              (user_files e.0 e.1.role))
          grants
  unfolding materialize
  materialize-Reads d h = put_grants-Reads-live d.perses_dir h

  -- After a run, no file is left of a member who was issued a token and holds no grant any more.
  pub materialize-Cleared :
      (d : Disk) → Cleared grants (materialize fingerprint managed grants d).0.perses_dir managed
  unfolding materialize
  materialize-Cleared d = remove_revoked-Cleared grants _ managed

  pub materialize-tokens :
      (d : Disk)
      → text_of (materialize fingerprint managed grants d).0.tokens
        ≡ (tokens_file fingerprint managed grants (text_of d.tokens)).0
  unfolding materialize
  materialize-tokens d =
      text_of-rewritten d.tokens (tokens_file fingerprint managed grants (text_of d.tokens)).0

  -- A second run changes nothing on disk, not even the time of a file, and reports nothing but the
  -- members whose secret is gone.
  pub materialize-materialize :
      (d : Disk)
      → Rising grants
      → materialize fingerprint managed grants (materialize fingerprint managed grants d).0 ≡ (
        (materialize fingerprint managed grants d).0,
        record {
          tokens_rewritten = false;
          files_written = 0;
          files_removed = 0;
          grants_without_secret =
              (materialize fingerprint managed grants d).1.grants_without_secret;
        },
      )
  unfolding materialize
  materialize-materialize d h =
      let existing = text_of d.tokens in
      let (desired, missing) = tokens_file fingerprint managed grants existing in
      materialize-settled _ _ desired missing (text_of-rewritten d.tokens desired)
        (tokens_file-tokens_file fingerprint managed grants existing) (materialize-Reads d h)
        (materialize-Cleared d)

  kept-other :
      (user : String)
      → OrdMap.contains_key managed user ≡ true
      → OrdMap.contains_key grants user ≡ false
      → (line : String) → IsKept fingerprint managed grants line
      → line_username line ≢ some user
  unfolding is_foreign OrdMap.contains_key
  kept-other user m g line (inl foreign) e = ground (arith, rw e at foreign, m)
  kept-other user m g line (inr (u, grant, names, found, fits)) e = cc

  pub materialize-Gone :
      (d : Disk) (user : String)
      → OrdMap.contains_key managed user ≡ true
      → OrdMap.contains_key grants user ≡ false
      → Gone user (materialize fingerprint managed grants d).0
  materialize-Gone d user m g = (
    subst (λ t. All (λ line. line_username line ≢ some user) (trimmed_lines t))
        (sym (materialize-tokens d))
        (All-weaken (IsKept fingerprint managed grants) (λ line. line_username line ≢ some user)
          (trimmed_lines (tokens_file fingerprint managed grants (text_of d.tokens)).0)
          (kept-other user m g) (tokens_file-All fingerprint managed grants (text_of d.tokens))),
    OrdMap.All-contains_key
        (λ u.
          OrdMap.contains_key grants u ≡ false
          → All (Missing (materialize fingerprint managed grants d).0.perses_dir)
              (user_file_names u))
        managed user (materialize-Cleared d) m g,
  )
