-- ===== src/Read/Pages.antt =====
-- `list`, `page_size` and `status_filter` of src/read.rs.
use project_db.Base.{
  ℕ, suc, Text, length, take, Bool, true, false, ◌&&◌, ◌||◌, Option, none, some, List, [], ◌∷◌, map,
  keep, ltb, ◌==◌, if◌then◌else◌,
}
use project_db.Base.Int.{ℤ, pos, negsuc, not_positive, above}
use project_db.Status.{Code, Detail, Status, status, Result, ok, err, ◌>>=◌, ◌>>◌}
use project_db.Path
use project_db.Engine.{like}
use project_db.Engine.Order.{order_by, ci_lt}
use project_db.Sql.{EngineError, subtree}
use project_db.Store.{Store, Project, at_path}
use project_db.Pooled.{Deadline, Pool, acquire}
use project_db.Session.{Session, query}
use project_db.Contract.{ProtoProject, ListProjectsRequest, ListProjectsResponse}
use project_db.Read.Projects.{row_to_project, with_aliases, with_grants}

abbrev pub max_page : ℕ
max_page = 500

abbrev pub default_page : ℕ
default_page = 50

abbrev magnitude : ℤ → ℕ
magnitude (pos k) = k
magnitude (negsuc k) = suc k

unfoldable pub page_size : ℤ → ℕ
page_size n =
    if not_positive n then default_page else if above n max_page then max_page else magnitude n

-- `ProjectStatus::try_from`: active is 1 and archived is 2.
abbrev known_status : ℤ → ℕ → Result Status (Option ℕ)
known_status z k =
    if k == 0
    then err (status Code.invalid_argument Detail.unspecified_status)
    else if k == 1 || k == 2
    then ok (some k)
    else err (status Code.invalid_argument (Detail.not_a_status z))

unfoldable pub status_filter : Option ℤ → Result Status (Option ℕ)
status_filter none = ok none
status_filter (some (pos k)) = known_status (pos k) k
status_filter (some (negsuc k)) =
    err (status Code.invalid_argument (Detail.not_a_status (negsuc k)))

abbrev pub is_empty : Text → Bool
is_empty [] = true
is_empty (c ∷ t) = false

abbrev pub has_status : Option ℕ → Project → Bool
has_status none r = true
has_status (some st) r = r.status == st

-- The arms of the WHERE clause that do not depend on the page.
unfoldable pub is_listed : Text → Option ℕ → Project → Bool
unfolding at_path like subtree
is_listed under st r =
    (is_empty under || (at_path under r || like r.path (subtree under))) && has_status st r

abbrev pub is_after : Text → Project → Bool
is_after token r = is_empty token || ci_lt token r.path

-- The rows in the order of their paths that meet the WHERE clause, and as many as LIMIT lets
-- through.
unfoldable pub scan : Text → Option ℕ → Text → Store → List Project
unfolding is_listed order_by ci_lt
scan under st token s =
    keep (λ r. is_listed under st r && is_after token r) (order_by (λ r. r.path) s.projects)

unfoldable pub page_rows : Text → Option ℕ → Text → ℕ → Store → Result EngineError (List Project)
unfolding scan
page_rows under st token limit s = ok (take (suc limit) (scan under st token s))

abbrev pub last_path : List ProtoProject → Text
last_path [] = []
last_path (p ∷ []) = p.path
last_path (p ∷ q ∷ ps) = last_path (q ∷ ps)

abbrev pub validate_under : Text → Result Status Unit
validate_under [] = ok tt
validate_under (c ∷ t) = Path.validate "under_path" (c ∷ t)

module _ (session : Session) (pool : Pool) where
  unfoldable pub list : ListProjectsRequest → Deadline → Result Status ListProjectsResponse
  unfolding query page_rows
  list req deadline =
      let limit = page_size req.page_size in
      status_filter req.status >>= λ st.
      (validate_under req.under_path
        >> acquire pool deadline
        >> query session 0 (page_rows req.under_path st req.page_token limit)
        >>= λ rows. with_aliases session (map row_to_project (take limit rows)) >>= λ aliased.
            with_grants session aliased >>= λ projects. ok (record {
              projects = projects;
              next_page_token = if ltb limit (length rows) then last_path projects else [];
            }))
