-- ===== src/Sync/Request.antt =====
-- `admitted`, `validate` and what they call, of src/write/sync.rs; `recorded_scope` of
-- src/write/sync/recorded.rs.
use project_db.Base.{
  ℕ, String, Text, codes, text_eq, length, has_slash, split, to_ascii_lowercase, Bool, true, false,
  ◌&&◌, ◌||◌, not, Option, none, some, List, [], ◌∷◌, ◌++◌, map, any, ltb, ◌==◌, if◌then◌else◌,
}
use project_db.Status.{Code, Detail, Status, status, Result, ok, err, ◌>>=◌, ◌>>◌, refuse_unless}
use project_db.Path
use project_db.Path.{refuse_reserved_root, is_private_class}
use project_db.Sql.{Scope, Observed, tel_scope}
use project_db.Contract.{DeclaredProject, SyncProjectsRequest}
use project_db.Declared.{Declared}
use project_db.Grants

abbrev pub max_chars : ℕ
max_chars = 255

abbrev pub max_principal_chars : ℕ
max_principal_chars = 64

abbrev pub sync_caller : Text
sync_caller = codes "project-caller"

-- `caller == Some(name)`
unfoldable pub is_caller : Option Text → Text → Bool
unfolding text_eq
is_caller none name = false
is_caller (some c) name = text_eq c name

unfoldable pub admit : Option Text → Result Status Unit
unfolding is_caller
admit caller =
    if is_caller caller sync_caller
    then ok tt
    else err (status Code.permission_denied (Detail.wrong_caller "SyncProjects" caller))

unfoldable pub principal : Text → Result Status Text
principal user_id =
    let chars = length user_id in
    if chars == 0 || ltb max_principal_chars chars
    then err (status Code.invalid_argument (Detail.principal_width chars))
    else ok user_id

abbrev pub require_scope : Option Scope → Result Status Scope
require_scope none = err (status Code.invalid_argument Detail.seeder_scope_required)
require_scope (some s) = ok s

unfoldable pub admitted : Option Text → Option Scope → Result Status Text
admitted caller scope = do admit caller; s ← require_scope scope; principal s.user_id

abbrev pub only_request_id : Text → Observed
only_request_id r = record { request_id = r; instance_id = []; user_id = []; project_id = [] }

-- What telemetry records for the call.
unfoldable pub recorded_scope : Option Text → Option Scope → Text → Observed
recorded_scope caller scope header = elim (admitted caller scope) [
  | ok _ ↦ tel_scope scope header
  | err _ ↦ only_request_id (tel_scope scope header).request_id
]

-- The width of one field, in characters.
abbrev pub narrow : String → Text → Text → Result Status Unit
narrow field path value =
    if ltb max_chars (length value)
    then err (status Code.invalid_argument (Detail.wide_field field path (length value)))
    else ok tt

-- The row's own checks, in order.
unfoldable pub row : String → DeclaredProject → Result Status Declared
row what d = do
  Path.validate what d.path
  refuse_reserved_root what d.path
  refuse_unless (not (is_private_class d.path))
      (status Code.invalid_argument (Detail.private_path what d.path))
  refuse_unless (not (text_eq d.source_repo []))
      (status Code.invalid_argument (Detail.no_source_repo d.path))
  narrow "source_repo" d.path d.source_repo
  narrow "display_name" d.path d.display_name
  grants ← Grants.validate d
  ok (record {
    key = to_ascii_lowercase d.path;
    path = d.path;
    display_name = d.display_name;
    source_repo = d.source_repo;
    grants = grants;
  })

-- The loop over the roots.
unfoldable pub validate_roots : List DeclaredProject → Result Status (List Declared)
validate_roots [] = ok []
validate_roots (root ∷ roots) = do
  r ← row "roots[].path" root
  refuse_unless (not (has_slash root.path))
      (status Code.invalid_argument (Detail.deep_root root.path))
  rest ← validate_roots roots
  ok (r ∷ rest)

-- `split('/').next()`
abbrev pub first_part : List Text → Text
first_part [] = []
first_part (part ∷ parts) = part

-- The row sits strictly beneath one of the roots.
unfoldable pub is_rooted : List Text → Declared → Bool
unfolding has_slash split text_eq
is_rooted roots r = has_slash r.key && any (text_eq (first_part (split r.key))) roots

-- The loop over the projects.
unfoldable pub validate_projects : List Text → List DeclaredProject → Result Status (List Declared)
validate_projects roots [] = ok []
validate_projects roots (project ∷ projects) = do
  r ← row "projects[].path" project
  refuse_unless (is_rooted roots r)
      (status Code.invalid_argument (Detail.not_under_root project.path))
  rest ← validate_projects roots projects
  ok (r ∷ rest)

-- The loop of `refuse_duplicates`, with the keys seen so far.
unfoldable pub refuse_duplicates : List Text → List Declared → Result Status Unit
unfolding text_eq
refuse_duplicates seen [] = ok tt
refuse_duplicates seen (r ∷ rows) =
    if any (text_eq r.key) seen
    then err (status Code.invalid_argument (Detail.declared_twice r.path))
    else refuse_duplicates (r.key ∷ seen) rows

abbrev pub no_projects : List DeclaredProject → Bool
no_projects [] = true
no_projects (d ∷ ds) = false

unfoldable pub validate : SyncProjectsRequest → Result Status (List Declared)
validate req =
    if no_projects req.roots then err (status Code.invalid_argument Detail.no_roots) else do
      roots ← validate_roots req.roots
      projects ← validate_projects (map (λ r. r.key) roots) req.projects
      refuse_duplicates [] (roots ++ projects)
      ok (roots ++ projects)
