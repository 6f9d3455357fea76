-- ===== src/Provision/Names.antt =====
-- The names of the members' files: which member and which file a name is of.
-- Code: crates/nocturnal-provision/src/lib.rs.
use nocturnal_discord.Prelude.{
  ℕ, ◌+◌, ◌*◌, ◌≡◌, ◌≢◌, refl, sym, ap, subst, ◌∙◌, List, [], ◌∷◌, String, ◌==◌, if◌then◌else◌,
  arith,
}
use nocturnal_discord.Prelude.Lists.{All}
use nocturnal_discord.Provision.Files.{yaml_of, user_file_names, user_files}
use Prim.Native.Char.{Char, code}
use Prim.Native.String.{◌++◌ as ◌^^◌}
use text.Mathlib.TextLemmas.{cons-append, append_cancel_left, append_cancel_right}

pub data FileKind : Type 0 where
  binding : FileKind
  project : FileKind
  datasource : FileKind
  owner : FileKind
  legacy : FileKind

abbrev pub prefix : FileKind → String
prefix FileKind.binding = "rb-"
prefix FileKind.project = "50-project-"
prefix FileKind.datasource = "51-ds-"
prefix FileKind.owner = "52-rb-own-"
prefix FileKind.legacy = "user-"

-- The first two characters.
abbrev begins : String → ℕ
begins (String.◌∷◌ c (String.◌∷◌ d s)) = code c * 256 + code d
begins _ = 0

begins-append :
    (c d : Char) (s t : String)
    → begins (String.◌∷◌ c (String.◌∷◌ d s) ^^ t) ≡ code c * 256 + code d
begins-append c d s t = rw (cons-append c (String.◌∷◌ d s) t, cons-append d s t) refl

abbrev kind_at : ℕ → FileKind
kind_at n =
    if n == 29282
    then FileKind.binding
    else (if n == 13616
        then FileKind.project
        else (if n == 13617
            then FileKind.datasource
            else (if n == 13618 then FileKind.owner else FileKind.legacy)))

abbrev number : FileKind → ℕ
number FileKind.binding = 0
number FileKind.project = 1
number FileKind.datasource = 2
number FileKind.owner = 3
number FileKind.legacy = 4

kind_at-begins : (k : FileKind) (user : String) → kind_at (begins (yaml_of (prefix k) user)) ≡ k
unfolding yaml_of
kind_at-begins FileKind.binding user = rw (begins-append "r" "b" "-" (user ^^ ".yaml")) refl
kind_at-begins FileKind.project user = rw (begins-append "5" "0" "-project-" (user ^^ ".yaml")) refl
kind_at-begins FileKind.datasource user = rw (begins-append "5" "1" "-ds-" (user ^^ ".yaml")) refl
kind_at-begins FileKind.owner user = rw (begins-append "5" "2" "-rb-own-" (user ^^ ".yaml")) refl
kind_at-begins FileKind.legacy user = rw (begins-append "u" "s" "er-" (user ^^ ".yaml")) refl

same_kind : (j k : FileKind) (u v : String) → yaml_of (prefix j) u ≡ yaml_of (prefix k) v → j ≡ k
same_kind j k u v e = sym (kind_at-begins j u) ∙ ap (λ s. kind_at (begins s)) e ∙ kind_at-begins k v

-- Files of two members never share a name.
pub same_user :
    (j k : FileKind) (u v : String) → yaml_of (prefix j) u ≡ yaml_of (prefix k) v → u ≡ v
same_user j k u v e = append_cancel_right u v ".yaml" (
    append_cancel_left (prefix k) (u ^^ ".yaml") (v ^^ ".yaml") (
      unfold yaml_of in
      (subst (λ i. yaml_of (prefix i) u ≡ yaml_of (prefix k) v) (same_kind j k u v e) e)))

-- A name that is of none of a member's files.
abbrev pub NotOf : String → String → Type 0
NotOf name user = All (λ n. n ≢ name) (user_file_names user)

pub yaml_of-NotOf : (k : FileKind) (u v : String) → v ≢ u → NotOf (yaml_of (prefix k) u) v
unfolding user_file_names
yaml_of-NotOf k u v h = (
  λ e. h (same_user FileKind.binding k v u e),
  (
    λ e. h (same_user FileKind.project k v u e),
    (
      λ e. h (same_user FileKind.datasource k v u e),
      (λ e. h (same_user FileKind.owner k v u e), (λ e. h (same_user FileKind.legacy k v u e), tt)),
    ),
  ),
)

-- The names of the files are all different.
abbrev pub Apart : List (String × String) → Type 0
Apart [] = Unit
Apart (f ∷ fs) = All (λ g. g.0 ≢ f.0) fs × Apart fs

pub user_files-Apart : (user role : String) → Apart (user_files user role)
unfolding user_files
user_files-Apart user role = (
  (
    apart FileKind.project FileKind.binding (λ e. omega (arith, e)),
    (
      apart FileKind.datasource FileKind.binding (λ e. omega (arith, e)),
      (apart FileKind.owner FileKind.binding (λ e. omega (arith, e)), tt),
    ),
  ),
  (
    (
      apart FileKind.datasource FileKind.project (λ e. omega (arith, e)),
      (apart FileKind.owner FileKind.project (λ e. omega (arith, e)), tt),
    ),
    ((apart FileKind.owner FileKind.datasource (λ e. omega (arith, e)), tt), (tt, tt)),
  ),
)
  where
    apart :
        (j k : FileKind) → number j ≢ number k → yaml_of (prefix j) user ≢ yaml_of (prefix k) user
    apart j k h e = h (ap number (same_kind j k user user e))
