-- ===== src/Store.antt =====
-- The tables of src/schema.rs and the statements that the handlers run on them, each with the
-- constraints that the engine checks. A table is a list of rows.
pub mod Rows
pub mod Valid
pub mod Granted
use project_db.Base.{
  ℕ, zero, suc, ◌+◌, Text, codes, text_eq, Bool, true, false, not, ◌&&◌, ◌||◌, Option, none, some,
  List, [], ◌∷◌, ◌++◌, map, any, all, keep, find, ◌==◌, if◌then◌else◌,
}
use project_db.Status.{Result, ok, err}
use project_db.Engine.{like, ci_eq}
use project_db.Sql.{EngineError, database}

-- `ProjectStatus` as the column holds it.
abbrev pub active : ℕ
active = 1

abbrev pub archived : ℕ
archived = 2

-- `Visibility` as the column holds it.
abbrev pub visibility_private : ℕ
visibility_private = 1

abbrev pub visibility_org : ℕ
visibility_org = 3

-- Table `project`.
pub record Project : Type 0 where
  pub id : Text
  pub version : ℕ
  pub path : Text
  pub display_name : Text
  pub status : ℕ
  pub source_repo : Option Text
  pub owner_user_id : Option Text
  pub visibility : ℕ
  pub created_by : Text
  pub updated_by : Text
  pub created_at : ℕ
  pub updated_at : ℕ
  pub last_seen_at : Option ℕ

-- Table `project_alias`.
pub record Alias : Type 0 where
  pub alias_path : Text
  pub project_id : Text

-- Table `project_write`.
pub record Write : Type 0 where
  pub project_id : Text
  pub user_id : Text
  pub idem_key : Text
  pub rpc : Text
  pub response : List ℕ
  pub request_fingerprint : List ℕ

-- Table `project_grant`.
pub record Grant : Type 0 where
  pub project_id : Text
  pub team_id : Text
  pub level : ℕ

pub record Store : Type 0 where
  pub projects : List Project
  pub aliases : List Alias
  pub writes : List Write
  pub grants : List Grant

abbrev pub is_some {ℓ} : {A : Type ℓ} → Option A → Bool
is_some none = false
is_some (some a) = true

abbrev pub bool_eq : Bool → Bool → Bool
bool_eq true b = b
bool_eq false b = not b

-- `ck_project_class` and `ck_project_class_path`.
unfoldable pub class_ok : Project → Bool
unfolding like
class_ok r =
    not (bool_eq (is_some r.source_repo) (is_some r.owner_user_id))
    && bool_eq (is_some r.owner_user_id) (like r.path (codes "local/%"))

abbrev pub check_violation : EngineError
check_violation = database (some (codes "23000")) (some 4025) false

abbrev pub unique_violation : EngineError
unique_violation = database (some (codes "23000")) (some 1062) true

abbrev pub foreign_key_violation : EngineError
foreign_key_violation = database (some (codes "23000")) (some 1452) false

-- `WHERE owner_user_id IS NULL`
abbrev pub is_org : Project → Bool
is_org r = not (is_some r.owner_user_id)

-- The row at a path, and the row with an id.
unfoldable pub at_path : Text → Project → Bool
unfolding ci_eq
at_path p r = ci_eq r.path p

unfoldable pub has_id : Text → Project → Bool
unfolding text_eq
has_id i r = text_eq r.id i

-- INSERT INTO project: the constraints, then the two unique indexes.
unfoldable pub insert_project : Project → Store → Result EngineError (Unit × Store)
unfolding class_ok at_path has_id
insert_project r s =
    if not (class_ok r)
    then err check_violation
    else if any (has_id r.id) s.projects || any (at_path r.path) s.projects
    then err unique_violation
    else ok (tt, record s { projects = s.projects ++ r ∷ [] })

-- The rows that a test selects, rewritten; the others as they were.
abbrev pub update_rows {ℓ} : {A : Type ℓ} → (A → Bool) → (A → A) → List A → List A
update_rows p f [] = []
update_rows p f (x ∷ xs) = (if p x then f x else x) ∷ update_rows p f xs

-- UPDATE project ... WHERE: the rows that it leaves must meet the constraints.
unfoldable pub update_projects :
    (Project → Bool) → (Project → Project) → Store → Result EngineError (Unit × Store)
unfolding class_ok
update_projects p f s =
    if all class_ok (update_rows p f s.projects)
    then ok (tt, record s { projects = update_rows p f s.projects })
    else err check_violation

abbrev pub grant_of : Text → Text → Grant → Bool
grant_of project team g = text_eq g.project_id project && text_eq g.team_id team

-- DELETE FROM project_grant WHERE project_id = ? AND team_id = ?
unfoldable pub delete_grant : Text → Text → Store → Result EngineError (Unit × Store)
unfolding text_eq
delete_grant project team s =
    ok (tt, record s { grants = keep (λ g. not (grant_of project team g)) s.grants })

abbrev pub level_ok : ℕ → Bool
level_ok l = l == 1 || l == 2

-- UPDATE project_grant SET level = ? WHERE project_id = ? AND team_id = ?
unfoldable pub update_grant : Text → Text → ℕ → Store → Result EngineError (Unit × Store)
unfolding text_eq
update_grant project team l s =
    if level_ok l
    then ok (
      tt,
      record s {
        grants = update_rows (grant_of project team) (λ g. record g { level = l }) s.grants;
      },
    )
    else err check_violation

-- INSERT INTO project_grant: `ck_project_grant_level`, the foreign key, the primary key.
unfoldable pub insert_grant : Text → Text → ℕ → Store → Result EngineError (Unit × Store)
unfolding text_eq has_id
insert_grant project team l s =
    if not (level_ok l)
    then err check_violation
    else if not (any (has_id project) s.projects)
    then err foreign_key_violation
    else if any (grant_of project team) s.grants
    then err unique_violation
    else ok (
      tt,
      record s {
        grants = s.grants ++ record { project_id = project; team_id = team; level = l } ∷ [];
      },
    )
