-- ===== src/Register.antt =====
-- src/write/register.rs, and the two refused verbs of src/write.rs.
pub mod Account
pub mod Keeps
pub mod Invariant
pub mod Holds
pub mod Replay
pub mod Misused
use project_db.Base.{
  ℕ, Text, codes, text_eq, length, Bool, true, false, not, Option, none, some, List, [], ◌∷◌, ◌++◌,
  find, ltb, if◌then◌else◌,
}
use project_db.Status
use project_db.Status.{Code, Detail, Status, status, Result, ok, err, refuse_unless}
use project_db.Path
use project_db.Path.{
  Uuid, refuse_reserved_root, is_private_class, account_segment, is_under_own_root,
}
use project_db.Engine.{ci_eq}
use project_db.Sql.{Scope, scope_of, EngineError, internal, is_duplicate}
use project_db.Store.{Store, Project, Alias, active, visibility_private, insert_project}
use project_db.Tx.{
  Outside, Conn, Tx, Ended, committing, rolling_back, transact, pure, raise, ◌>>=◌, ◌>>◌, statement,
  execute, select, draw_uuid,
}
use project_db.Pooled.{Deadline, Pool, acquire}
use project_db.Contract.{
  Meta, RegisterProjectRequest, RegisterProjectResponse, RenameProjectRequest,
  RenameProjectResponse, ArchiveProjectRequest, ArchiveProjectResponse,
}
use project_db.Idem.{Claimed, proceed, replayed, Outcomes, caught, claim, record_outcome}
use project_db.Sync.Request.{is_caller}

abbrev pub max_display_name_chars : ℕ
max_display_name_chars = 255

abbrev pub register_caller : Text
register_caller = codes "project-caller"

abbrev pub rpc_name : Text
rpc_name = codes "RegisterProject"

unfoldable pub admit : Option Text → Result Status Unit
unfolding is_caller
admit caller =
    refuse_unless (is_caller caller register_caller)
      (status Code.permission_denied (Detail.wrong_caller "RegisterProject" caller))

pub record Class : Type 0 where
  pub owner_user_id : Text
  pub visibility : ℕ

abbrev pub owned_segment : Option Text → Result Status Text
owned_segment none = err (status Code.invalid_argument Detail.no_account_segment)
owned_segment (some seg) = ok seg

-- `Class::of`
unfoldable pub class_of : (Text → Option Uuid) → Text → Text → Text → Result Status Class
class_of try_parse path actor source_repo =
    Status.◌>>◌
      (refuse_unless (is_private_class path)
        (status Code.failed_precondition (Detail.org_path path)))
      (Status.◌>>=◌ (owned_segment (account_segment try_parse actor)) λ seg.
        Status.◌>>◌
          (refuse_unless (is_under_own_root path seg)
            (status Code.permission_denied (Detail.foreign_root path seg)))
          (Status.◌>>◌
            (refuse_unless (text_eq source_repo [])
              (status Code.invalid_argument (Detail.owned_source_repo path)))
            (ok (record { owner_user_id = actor; visibility = visibility_private }))))

unfoldable pub meta_of : Text → ℕ → Text → Text → Meta
meta_of id version path actor = record {
  id = id;
  version = version;
  project_id = path;
  owner_user_id = actor;
  team_id = [];
  visibility = 0;
  created_by = actor;
  updated_by = actor;
  created_at = none;
  updated_at = none;
  deleted_at = none;
  derived_from = [];
}

unfoldable pub alias_owner : Text → Store → Option Text
unfolding ci_eq
alias_owner path s = elim (find (λ a. ci_eq a.alias_path path) s.aliases) [
  | none ↦ none
  | some a ↦ some a.project_id
]

-- The row that a registration writes.
abbrev pub fresh : Text → RegisterProjectRequest → Class → Text → ℕ → Project
fresh id req class actor now = record {
  id = id;
  version = 1;
  path = req.path;
  display_name = req.display_name;
  status = active;
  source_repo = none;
  owner_user_id = some class.owner_user_id;
  visibility = class.visibility;
  created_by = actor;
  updated_by = actor;
  created_at = now;
  updated_at = now;
  last_seen_at = none;
}

-- The checks above the transaction.
unfoldable pub checked :
    (Text → Option Uuid) → RegisterProjectRequest → Result Status (Scope × Class)
checked try_parse req = Status.◌>>=◌ (scope_of req.scope) λ scope.
    Status.◌>>◌ (Path.validate "path" req.path) (
      Status.◌>>◌ (refuse_reserved_root "path" req.path) (
        Status.◌>>◌
          (refuse_unless (not (ltb max_display_name_chars (length req.display_name)))
            (status Code.invalid_argument (Detail.wide_display_name (length req.display_name))))
          (Status.◌>>=◌ (class_of try_parse req.path scope.user_id req.source_repo)
            λ class. ok (scope, class))))

-- `prost` encodes a message; a request's payload is the message without its scope and its key.
unfoldable pub payload : (RegisterProjectRequest → List ℕ) → RegisterProjectRequest → List ℕ
payload encode_request req = encode_request (record req { scope = none; idempotency = none })

module _ (o : Outside) (x : Outcomes RegisterProjectResponse) where
  -- The answer to a failed insert, given after the rollback.
  abbrev pub insert_refused : Text → EngineError → Status
  insert_refused path e =
      if is_duplicate e
      then status Code.already_exists (Detail.already_registered path)
      else internal e

  abbrev pub inserted :
      Scope
      → RegisterProjectRequest
      → Text
      → Result EngineError Unit
      → Tx Status (Ended RegisterProjectResponse)
  inserted scope req id (err e) = pure (rolling_back (err (insert_refused req.path e)))
  inserted scope req id (ok u) =
      let response : RegisterProjectResponse = record {
        meta = some (meta_of id 1 req.path scope.user_id);
      } in
      record_outcome x o scope req.idempotency response >> pure (committing response)

  unfoldable pub insert_new :
      Scope → Class → RegisterProjectRequest → Tx Status (Ended RegisterProjectResponse)
  insert_new scope class req = do
    uuid ← draw_uuid o
    let id = codes "yadgar:project:" ++ uuid
    r ← caught (statement o (λ now. insert_project (fresh id req class scope.user_id now)))
    inserted scope req id r

  abbrev pub unless_former :
      Scope
      → Class
      → RegisterProjectRequest
      → Option Text
      → Tx Status (Ended RegisterProjectResponse)
  unless_former scope class req (some owner) =
      pure (rolling_back (err (status Code.already_exists (Detail.former_path req.path owner))))
  unless_former scope class req none = insert_new scope class req

  abbrev pub unless_replayed :
      Scope
      → Class
      → RegisterProjectRequest
      → Claimed RegisterProjectResponse
      → Tx Status (Ended RegisterProjectResponse)
  unless_replayed scope class req (replayed original) = pure (rolling_back (ok original))
  unless_replayed scope class req proceed =
      select o (alias_owner req.path) >>= λ owner. unless_former scope class req owner

  -- The body of the transaction.
  unfoldable pub body :
      (RegisterProjectRequest → List ℕ)
      → Scope
      → Class
      → RegisterProjectRequest
      → Tx Status (Ended RegisterProjectResponse)
  body encode_request scope class req =
      claim x o scope rpc_name req.idempotency (payload encode_request req) >>= λ c.
      unless_replayed scope class req c

  module _ (try_parse : Text → Option Uuid) (encode_request : RegisterProjectRequest → List ℕ)
      (pool : Pool) where
    unfoldable pub register :
        RegisterProjectRequest → Deadline → Store → Result Status RegisterProjectResponse × Store
    register req deadline s = elim (checked try_parse req) [
      | err e ↦ (err e, s)
      | ok (scope, class) ↦ elim (acquire pool deadline) [
        | err e ↦ (err e, s)
        | ok _ ↦ transact o (body encode_request scope class req) s
      ]
    ]

    unfoldable pub register_as :
        Option Text
        → RegisterProjectRequest
        → Deadline
        → Store
        → Result Status RegisterProjectResponse × Store
    register_as caller req deadline s = elim (admit caller) [
      | err e ↦ (err e, s)
      | ok _ ↦ register req deadline s
    ]

-- `rename` and `archive` refuse before anything else.
unfoldable pub rename : RenameProjectRequest → Store → Result Status RenameProjectResponse × Store
rename req s = (err (status Code.unimplemented Detail.held_back), s)

unfoldable pub archive :
    ArchiveProjectRequest → Store → Result Status ArchiveProjectResponse × Store
archive req s = (err (status Code.unimplemented Detail.no_per_row_archive), s)
