-- ===== src/Read/Projects.antt =====
-- src/rows.rs, and `get`, `with_aliases` and `with_grants` of src/read.rs.
use project_db.Base.{
  ℕ, Text, text_eq, Bool, true, false, not, ◌&&◌, ◌||◌, Option, none, some, List, [], ◌∷◌, ◌++◌,
  map, any, find, keep, if◌then◌else◌,
}
use project_db.Base.Int.{pos}
use project_db.Status.{Code, Detail, Status, status, Result, ok, err, ◌>>=◌, ◌>>◌}
use project_db.Path
use project_db.Engine.{ci_eq}
use project_db.Engine.Order.{order_by}
use project_db.Sql.{EngineError}
use project_db.Store.{Store, Project, Alias, Grant, has_id, at_path, is_org}
use project_db.Pooled.{Deadline, Pool, acquire}
use project_db.Session.{Session, query}
use project_db.Contract.{Timestamp, ProtoProject, GetProjectRequest, GetProjectResponse}

-- An epoch second.
abbrev pub timestamp_at : ℕ → Timestamp
timestamp_at s = record { seconds = pos s; nanos = pos 0 }

abbrev pub or_empty : Option Text → Text
or_empty none = []
or_empty (some t) = t

abbrev pub maybe_at : Option ℕ → Option Timestamp
maybe_at none = none
maybe_at (some s) = some (timestamp_at s)

unfoldable pub row_to_project : Project → ProtoProject
row_to_project r = record {
  meta = some (record {
    id = r.id;
    version = r.version;
    project_id = r.path;
    owner_user_id = or_empty r.owner_user_id;
    team_id = [];
    visibility = 0;
    created_by = r.created_by;
    updated_by = r.updated_by;
    created_at = some (timestamp_at r.created_at);
    updated_at = some (timestamp_at r.updated_at);
    deleted_at = none;
    derived_from = [];
  });
  path = r.path;
  display_name = r.display_name;
  status = r.status;
  last_seen_at = maybe_at r.last_seen_at;
  aliases = [];
  grants = [];
}

-- The ids of the projects that have a `meta`.
abbrev pub ids_of : List ProtoProject → List Text
ids_of [] = []
ids_of (p ∷ ps) = elim p.meta [ none ↦ ids_of ps | some m ↦ m.id ∷ ids_of ps ]

abbrev pub fill : (Text → ProtoProject → ProtoProject) → ProtoProject → ProtoProject
fill f p = elim p.meta [ none ↦ p | some m ↦ f m.id p ]

-- The aliases of the projects, in order.
unfoldable pub alias_pairs : List Text → Store → Result EngineError (List Alias)
unfolding text_eq order_by
alias_pairs ids s =
    ok (order_by (λ a. a.alias_path) (keep (λ a. any (text_eq a.project_id) ids) s.aliases))

unfoldable pub put_aliases : List Alias → Text → ProtoProject → ProtoProject
unfolding text_eq
put_aliases pairs id p = record p {
  aliases = map (λ (a : Alias). a.alias_path) (keep (λ (a : Alias). text_eq a.project_id id) pairs);
}

-- The grants of the org rows among the projects, in order.
unfoldable pub grant_rows : List Text → Store → Result EngineError (List Grant)
unfolding text_eq has_id order_by
grant_rows ids s = ok (
    order_by (λ g. g.team_id)
      (keep
        (λ g.
          any (λ p. has_id g.project_id p && is_org p) s.projects && any (text_eq g.project_id) ids)
        s.grants))

unfoldable pub put_grants : List Grant → Text → ProtoProject → ProtoProject
unfolding text_eq
put_grants rows id p = record p {
  grants =
      map (λ (g : Grant). record { team_id = g.team_id; level = pos g.level })
        (keep (λ (g : Grant). text_eq g.project_id id) rows);
}

abbrev pub no_ids : List Text → Bool
no_ids [] = true
no_ids (i ∷ ids) = false

-- SELECT of `get`: the row at the path first, then the row that it is a former path of.
abbrev pub first_row : List Project → Option Project
first_row [] = none
first_row (r ∷ rs) = some r

unfoldable pub named_by : Text → Store → Project → Bool
unfolding ci_eq text_eq
named_by path s r = elim (find (λ a. ci_eq a.alias_path path) s.aliases) [
  | none ↦ false
  | some a ↦ text_eq r.id a.project_id
]

unfoldable pub get_row : Text → Store → Result EngineError (Option Project)
unfolding at_path named_by
get_row path s =
    let selected = keep (λ r. at_path path r || named_by path s r) s.projects in
    ok (first_row (keep (at_path path) selected ++ keep (λ r. not (at_path path r)) selected))

abbrev pub found_or : Text → Option Project → Result Status Project
found_or path none = err (status Code.not_found (Detail.no_project path))
found_or path (some r) = ok r

module _ (session : Session) where
  -- The second statement of a page, and its third. The statement after an empty page is not run.
  unfoldable pub with_aliases : List ProtoProject → Result Status (List ProtoProject)
  unfolding query alias_pairs put_aliases
  with_aliases projects =
      if no_ids (ids_of projects)
      then ok projects
      else query session 1 (alias_pairs (ids_of projects)) >>= λ pairs.
          ok (map (fill (put_aliases pairs)) projects)

  unfoldable pub with_grants : List ProtoProject → Result Status (List ProtoProject)
  unfolding query grant_rows put_grants
  with_grants projects =
      if no_ids (ids_of projects)
      then ok projects
      else query session 2 (grant_rows (ids_of projects)) >>= λ rows.
          ok (map (fill (put_grants rows)) projects)

abbrev first_project : List ProtoProject → Option ProtoProject
first_project [] = none
first_project (p ∷ ps) = some p

module _ (session : Session) (pool : Pool) where
  unfoldable pub get : GetProjectRequest → Deadline → Result Status GetProjectResponse
  unfolding query get_row row_to_project with_aliases with_grants
  get req deadline = do
    Path.validate "path" req.path
    acquire pool deadline
    found ← query session 0 (get_row req.path)
    row ← found_or req.path found
    aliased ← with_aliases session (row_to_project row ∷ [])
    granted ← with_grants session aliased
    ok (record { project = first_project granted })
