-- ===== src/Provision/Files.antt =====
-- The files on disk, and `materialize`: crates/nocturnal-provision/src/lib.rs. Each read and
-- write that the code asks of the file system is done.
use nocturnal_discord.Prelude.{
  ℕ, ◌+◌, Bool, false, not, Option, none, some, List, [], ◌∷◌, String, if◌then◌else◌,
}
use nocturnal_discord.Prelude.OrdMap
use nocturnal_discord.Prelude.OrdMap.{OrdMap, same, text_key}
use nocturnal_discord.Provision.{Grant, tokens_file, appended}
use Prim.Native.String.{◌++◌ as ◌^^◌}

-- A file: its text, and how often it was renamed into place, which its time of change tells.
pub record File : Type 0 where
  pub contents : String
  pub version : ℕ

abbrev pub Dir : Type 0
Dir = OrdMap String File

-- `tokens.txt` and the provisioning directory of the dashboard.
pub record Disk : Type 0 where
  pub tokens : Option File
  pub perses_dir : Dir

pub record Report : Type 0 where
  pub tokens_rewritten : Bool
  pub files_written : ℕ
  pub files_removed : ℕ
  pub grants_without_secret : List String

-- `{prefix}{user}.yaml`
unfoldable pub yaml_of : String → String → String
yaml_of prefix user = prefix ^^ (user ^^ ".yaml")

unfoldable pub user_file_names : String → List String
unfolding yaml_of
user_file_names user =
    yaml_of "rb-" user
    ∷ yaml_of "50-project-" user
    ∷ yaml_of "51-ds-" user
    ∷ yaml_of "52-rb-own-" user
    ∷ yaml_of "user-" user
    ∷ []

-- `DS_SPEC`
unfoldable pub ds_spec : String
ds_spec =
    "  display:\n    name: Prometheus (EverQuest metrics)\n  default: true\n  plugin:\n"
    ^^ ("    kind: PrometheusDatasource\n    spec:\n      proxy:\n        kind: HTTPProxy\n"
        ^^ ("        spec:\n          url: http://127.0.0.1:9090\n          allowedEndpoints:\n"
            ^^ ("            - endpointPattern: /api/v1/labels\n              method: POST\n"
                ^^ ("            - endpointPattern: /api/v1/series\n              method: POST\n"
                    ^^ ("            - endpointPattern: /api/v1/metadata\n              method: GET\n"
                        ^^ ("            - endpointPattern: /api/v1/query\n              method: POST\n"
                            ^^ ("            - endpointPattern: /api/v1/query_range\n              method: POST\n"
                                ^^ "            - endpointPattern: /api/v1/label/([a-zA-Z0-9_-]+)/values\n              method: GET\n")))))))

unfoldable pub role_binding : String → String → String
role_binding user role =
    "apiVersion: perses.dev/v1alpha1\nkind: RoleBinding\nmetadata:\n  name: "
    ^^ (role
        ^^ ("-"
            ^^ (user
                ^^ ("\n  project: everquest\nspec:\n  role: "
                    ^^ (role
                        ^^ ("\n  subjects:\n    - kind: User\n      name: " ^^ (user ^^ "\n")))))))

unfoldable pub project_file : String → String
project_file user =
    "apiVersion: perses.dev/v1alpha1\nkind: Project\nmetadata:\n  name: u-"
    ^^ (user ^^ ("\nspec:\n  display:\n    name: \"" ^^ (user ^^ " (personal)\"\n")))

unfoldable pub datasource_file : String → String
unfolding ds_spec
datasource_file user =
    "apiVersion: perses.dev/v1alpha1\nkind: Datasource\nmetadata:\n  name: prometheus\n  project: u-"
    ^^ (user ^^ ("\nspec:\n" ^^ ds_spec))

unfoldable pub owner_binding : String → String
owner_binding user =
    "apiVersion: perses.dev/v1alpha1\nkind: RoleBinding\nmetadata:\n  name: owner-"
    ^^ (user
        ^^ ("\n  project: u-"
            ^^ (user
                ^^ ("\nspec:\n  role: owner\n  subjects:\n    - kind: User\n      name: "
                    ^^ (user ^^ "\n")))))

unfoldable pub user_files : String → String → List (String × String)
unfolding yaml_of role_binding project_file datasource_file owner_binding
user_files user role =
    (yaml_of "rb-" user, role_binding user role)
    ∷ (yaml_of "50-project-" user, project_file user)
    ∷ (yaml_of "51-ds-" user, datasource_file user)
    ∷ (yaml_of "52-rb-own-" user, owner_binding user)
    ∷ []

-- Unchanged contents are not written.
unfoldable pub write_atomic : Option File → String → File
unfolding same
write_atomic none contents = record { contents = contents; version = 0 }
write_atomic (some f) contents =
    if same f.contents contents then f else record { contents = contents; version = f.version + 1 }

-- `fs::read_to_string(..).ok().as_deref() == Some(contents)`
unfoldable pub reads : Option File → String → Bool
unfolding same
reads none contents = false
reads (some f) contents = same f.contents contents

-- The body of the loop over one member's files, with the count of those written.
unfoldable pub put_file : Dir × ℕ → String × String → Dir × ℕ
unfolding reads write_atomic OrdMap.get OrdMap.insert
put_file (dir, n) (name, contents) =
    if reads (OrdMap.get dir name) contents
    then (dir, n)
    else (OrdMap.insert dir name (write_atomic (OrdMap.get dir name) contents), n + 1)

unfoldable pub put_files : Dir × ℕ → List (String × String) → Dir × ℕ
unfolding put_file
put_files s [] = s
put_files s (f ∷ fs) = put_files (put_file s f) fs

unfoldable pub put_grants : Dir × ℕ → OrdMap String Grant → Dir × ℕ
unfolding put_files user_files
put_grants s [] = s
put_grants s ((user, grant) ∷ gs) = put_grants (put_files s (user_files user grant.role)) gs

-- A file that is there is removed and counted.
unfoldable pub remove_file : Dir × ℕ → String → Dir × ℕ
unfolding OrdMap.contains_key OrdMap.remove
remove_file (dir, n) name =
    if OrdMap.contains_key dir name then (OrdMap.remove dir name, n + 1) else (dir, n)

unfoldable pub remove_files : Dir × ℕ → List String → Dir × ℕ
unfolding remove_file
remove_files s [] = s
remove_files s (name ∷ names) = remove_files (remove_file s name) names

unfoldable pub remove_revoked : OrdMap String Grant → Dir × ℕ → OrdMap String (Unit {0}) → Dir × ℕ
unfolding remove_files user_file_names OrdMap.contains_key
remove_revoked grants s [] = s
remove_revoked grants s ((user, _) ∷ users) =
    let next =
      (if OrdMap.contains_key grants user then s else remove_files s (user_file_names user)) in
    remove_revoked grants next users

-- `fs::read_to_string(..).unwrap_or_default()`
unfoldable pub text_of : Option File → String
text_of none = ""
text_of (some f) = f.contents

unfoldable pub materialize :
    (String → String) → OrdMap String (Unit {0}) → OrdMap String Grant → Disk → Disk × Report
unfolding text_of write_atomic
materialize fingerprint managed grants d =
    let existing = text_of d.tokens in
    let (desired, missing) = tokens_file fingerprint managed grants existing in
    let rewritten = not (same desired existing) in
    let (written, n) = put_grants (d.perses_dir, 0) grants in
    let (left, m) = remove_revoked grants (written, 0) managed in
    (
      record {
        tokens = if rewritten then some (write_atomic d.tokens desired) else d.tokens;
        perses_dir = left;
      },
      record {
        tokens_rewritten = rewritten;
        files_written = n;
        files_removed = m;
        grants_without_secret = missing;
      },
    )

-- The only writer that introduces a line.
unfoldable pub append_token : Disk → String → String → Disk
unfolding text_of appended write_atomic
append_token d user secret = record d {
  tokens = some (write_atomic d.tokens (appended (text_of d.tokens) user secret));
}
