-- ===== src/Provision/Settled.antt =====
-- What the files of the members are after `materialize`, and that a second run finds nothing to do.
-- Code: crates/nocturnal-provision/src/lib.rs.
use nocturnal_discord.Prelude.{
  ℕ, ◌≡◌, ◌≢◌, refl, ap, subst, ◌∙◌, Bool, true, false, Option, none, some, List, [], ◌∷◌, String,
  if◌then◌else◌, arith, Ordering,
}
use nocturnal_discord.Prelude.Lists.{All, All-weaken}
use nocturnal_discord.Prelude.Rising.{Rising, Above}
use nocturnal_discord.Prelude.OrdMap
use nocturnal_discord.Prelude.OrdMap.{OrdMap, same, same_refl, same→eq, text_key}
use nocturnal_discord.Provision.{Grant}
use nocturnal_discord.Provision.Files.{
  File, Dir, role_binding, project_file, datasource_file, owner_binding, yaml_of, user_file_names,
  user_files, write_atomic, reads, put_file, put_files, put_grants, remove_file, remove_files,
}
use nocturnal_discord.Provision.Names.{
  FileKind, prefix, NotOf, Apart, user_files-Apart, yaml_of-NotOf,
}
use Prim.Native.String.{compare}
use text.Mathlib.TextPositions.{compare_refl}

-- The file of that name has that text.
abbrev pub Reads : Dir → String × String → Type 0
Reads dir f = reads (OrdMap.get dir f.0) f.1 ≡ true

abbrev pub Missing : Dir → String → Type 0
Missing dir name = OrdMap.get dir name ≡ none

pub same-ne : (a b : String) → a ≢ b → same a b ≡ false
same-ne a b h = pick (same a b) refl
  where
    pick : (x : Bool) → same a b ≡ x → x ≡ false
    pick true e = absurd (h (same→eq a b e))
    pick false e = refl

reads-write_atomic :
    (o : Option File) (contents : String) → reads (some (write_atomic o contents)) contents ≡ true
unfolding reads write_atomic
reads-write_atomic none contents = same_refl contents
reads-write_atomic (some f) contents = ground (arith, same_refl contents)

put_file-Reads : (s : Dir × ℕ) (f : String × String) → Reads (put_file s f).0 f
unfolding put_file
put_file-Reads (dir, n) (name, contents) = ground (
  arith,
  OrdMap.get-insert dir name name (write_atomic (OrdMap.get dir name) contents),
  same_refl name,
  reads-write_atomic (OrdMap.get dir name) contents,
)

put_file-other :
    (s : Dir × ℕ) (f : String × String) (name : String)
    → f.0 ≢ name
    → OrdMap.get (put_file s f).0 name ≡ OrdMap.get s.0 name
unfolding put_file
put_file-other (dir, n) (m, contents) name h = ground (
  arith,
  OrdMap.get-insert dir m name (write_atomic (OrdMap.get dir m) contents),
  same-ne m name h,
)

put_files-other :
    (s : Dir × ℕ) (fs : List (String × String)) (name : String)
    → All (λ f. f.0 ≢ name) fs
    → OrdMap.get (put_files s fs).0 name ≡ OrdMap.get s.0 name
unfolding put_files
put_files-other s [] name h = refl
put_files-other s (f ∷ fs) name h =
    put_files-other (put_file s f) fs name h.1 ∙ put_file-other s f name h.0

put_files-Reads :
    (s : Dir × ℕ) (fs : List (String × String)) → Apart fs → All (Reads (put_files s fs).0) fs
unfolding put_files
put_files-Reads s [] h = tt
put_files-Reads s (f ∷ fs) h = (
  ap (λ o. reads o f.1) (put_files-other (put_file s f) fs f.0 h.0) ∙ put_file-Reads s f,
  put_files-Reads (put_file s f) fs h.1,
)

user_files-other :
    (user role name : String) → NotOf name user → All (λ f. f.0 ≢ name) (user_files user role)
unfolding user_files user_file_names
user_files-other user role name h = (h.0, (h.1.0, (h.1.1.0, (h.1.1.1.0, tt))))

put_grants-other :
    (s : Dir × ℕ) (gs : OrdMap String Grant) (name : String)
    → All (λ e. NotOf name e.0) gs
    → OrdMap.get (put_grants s gs).0 name ≡ OrdMap.get s.0 name
unfolding put_grants
put_grants-other s [] name h = refl
put_grants-other s ((user, g) ∷ gs) name h =
    put_grants-other (put_files s (user_files user g.role)) gs name h.1
    ∙ put_files-other s (user_files user g.role) name (user_files-other user g.role name h.0)

-- A run over files that are as they should be.
put_files-settled :
    (dir : Dir) (n : ℕ) (fs : List (String × String))
    → All (Reads dir) fs
    → put_files (dir, n) fs ≡ (dir, n)
unfolding put_files put_file
put_files-settled dir n [] h = refl
put_files-settled dir n (f ∷ fs) h = rw h.0 (put_files-settled dir n fs h.1)

pub put_grants-settled :
    (dir : Dir) (n : ℕ) (gs : OrdMap String Grant)
    → All (λ e. All (Reads dir) (user_files e.0 e.1.role)) gs
    → put_grants (dir, n) gs ≡ (dir, n)
unfolding put_grants
put_grants-settled dir n [] h = refl
put_grants-settled dir n ((user, g) ∷ gs) h =
    rw (put_files-settled dir n (user_files user g.role) h.0) (put_grants-settled dir n gs h.1)

-- Files whose entries are alike read alike.
pub Reads-alike :
    (dir dir' : Dir) (user role : String)
    → ((k : FileKind)
        → OrdMap.get dir' (yaml_of (prefix k) user) ≡ OrdMap.get dir (yaml_of (prefix k) user))
    → All (Reads dir) (user_files user role)
    → All (Reads dir') (user_files user role)
unfolding user_files
Reads-alike dir dir' user role t h = (
  ap (λ o. reads o (role_binding user role)) (t FileKind.binding) ∙ h.0,
  (
    ap (λ o. reads o (project_file user)) (t FileKind.project) ∙ h.1.0,
    (
      ap (λ o. reads o (datasource_file user)) (t FileKind.datasource) ∙ h.1.1.0,
      (ap (λ o. reads o (owner_binding user)) (t FileKind.owner) ∙ h.1.1.1.0, tt),
    ),
  ),
)

above-ne : (u v : String) → compare u v ≡ Ordering.lt → v ≢ u
above-ne u v h e = ground (arith, subst (λ w. compare u w ≡ Ordering.lt) e h, compare_refl u)

Above-NotOf :
    (user : String) (gs : OrdMap String Grant) (k : FileKind)
    → Above user gs
    → All (λ e. NotOf (yaml_of (prefix k) user) e.0) gs
Above-NotOf user gs k h =
    All-weaken (λ e. compare user e.0 ≡ Ordering.lt) (λ e. NotOf (yaml_of (prefix k) user) e.0) gs
      (λ e lt. yaml_of-NotOf k user e.0 (above-ne user e.0 lt)) h

pub put_grants-Reads :
    (s : Dir × ℕ) (gs : OrdMap String Grant)
    → Rising gs
    → All (λ e. All (Reads (put_grants s gs).0) (user_files e.0 e.1.role)) gs
unfolding put_grants
put_grants-Reads s [] h = tt
put_grants-Reads s ((user, g) ∷ gs) h =
    let mine = put_files s (user_files user g.role) in
    (
      Reads-alike mine.0 (put_grants mine gs).0 user g.role
          (λ k. put_grants-other mine gs (yaml_of (prefix k) user) (Above-NotOf user gs k h.0))
          (put_files-Reads s (user_files user g.role) (user_files-Apart user g.role)),
      put_grants-Reads mine gs h.1,
    )

-- Removals.
remove_file-get :
    (s : Dir × ℕ) (name other : String)
    → OrdMap.get (remove_file s name).0 other
      ≡ (if same name other then none else OrdMap.get s.0 other)
unfolding remove_file OrdMap.contains_key
remove_file-get (dir, n) name other =
    ground (arith, OrdMap.get-remove dir name other, same→eq name other)

pub remove_files-other :
    (s : Dir × ℕ) (names : List String) (name : String)
    → All (λ n. n ≢ name) names
    → OrdMap.get (remove_files s names).0 name ≡ OrdMap.get s.0 name
unfolding remove_files
remove_files-other s [] name h = refl
remove_files-other s (n ∷ names) name h =
    remove_files-other (remove_file s n) names name h.1
    ∙ remove_file-get s n name
    ∙ rw (same-ne n name h.0) refl

-- A file that is gone stays gone.
pub remove_files-Missing :
    (s : Dir × ℕ) (names : List String) (name : String)
    → Missing s.0 name
    → Missing (remove_files s names).0 name
unfolding remove_files
remove_files-Missing s [] name h = h
remove_files-Missing s (n ∷ names) name h =
    remove_files-Missing (remove_file s n) names name (remove_file-get s n name ∙ ground (arith, h))

pub remove_files-gone :
    (s : Dir × ℕ) (names : List String) → All (Missing (remove_files s names).0) names
unfolding remove_files
remove_files-gone s [] = tt
remove_files-gone s (n ∷ names) = (
  remove_files-Missing (remove_file s n) names n (remove_file-get s n n ∙ rw (same_refl n) refl),
  remove_files-gone (remove_file s n) names,
)

pub remove_files-settled :
    (dir : Dir) (n : ℕ) (names : List String)
    → All (Missing dir) names
    → remove_files (dir, n) names ≡ (dir, n)
unfolding remove_files remove_file OrdMap.contains_key
remove_files-settled dir n [] h = refl
remove_files-settled dir n (name ∷ names) h =
    rw (OrdMap.contains_key, h.0) (remove_files-settled dir n names h.1)
