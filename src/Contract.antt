-- ===== src/Contract.antt =====
-- The messages of proto/yadgar/project/v1/project.proto that the handlers read and build.
use project_db.Base.{ℕ, Text, Bool, Option, List}
use project_db.Base.Int.{ℤ}
use project_db.Sql.{Scope}

pub record DeclaredGrant : Type 0 where
  pub team_id : Text
  pub level : ℤ

pub record DeclaredProject : Type 0 where
  pub path : Text
  pub display_name : Text
  pub source_repo : Text
  pub grants : List DeclaredGrant

pub record SyncProjectsRequest : Type 0 where
  pub scope : Option Scope
  pub roots : List DeclaredProject
  pub projects : List DeclaredProject
  pub allow_mass_archive : Bool
  pub allow_mass_revoke : Bool

pub record SyncProjectsResponse : Type 0 where
  pub inserted : ℕ
  pub updated : ℕ
  pub archived : ℕ
  pub reactivated : ℕ
  pub unchanged : ℕ
  pub grants_declared : ℕ
  pub grants_inserted : ℕ
  pub grants_deleted : ℕ
  pub grants_unchanged : ℕ

pub record ResolveProjectRequest : Type 0 where
  pub scope : Option Scope
  pub candidate_path : Text

pub record ResolveProjectResponse : Type 0 where
  pub resolved_path : Text
  pub exact : Bool
  pub via_alias : Bool
  pub status : ℕ
  pub source_repo : Text

-- `google.protobuf.Timestamp`
pub record Timestamp : Type 0 where
  pub seconds : ℤ
  pub nanos : ℤ

-- `yadgar.common.v1.Meta`
pub record Meta : Type 0 where
  pub id : Text
  pub version : ℕ
  pub project_id : Text
  pub owner_user_id : Text
  pub team_id : Text
  pub visibility : ℕ
  pub created_by : Text
  pub updated_by : Text
  pub created_at : Option Timestamp
  pub updated_at : Option Timestamp
  pub deleted_at : Option Timestamp
  pub derived_from : List Text

-- The message `Project`, as the reads return it.
pub record ProtoProject : Type 0 where
  pub meta : Option Meta
  pub path : Text
  pub display_name : Text
  pub status : ℕ
  pub last_seen_at : Option Timestamp
  pub aliases : List Text
  pub grants : List DeclaredGrant

pub record GetProjectRequest : Type 0 where
  pub scope : Option Scope
  pub path : Text

pub record GetProjectResponse : Type 0 where
  pub project : Option ProtoProject

pub record ListProjectsRequest : Type 0 where
  pub scope : Option Scope
  pub under_path : Text
  pub status : Option ℤ
  pub page_size : ℤ
  pub page_token : Text

pub record ListProjectsResponse : Type 0 where
  pub projects : List ProtoProject
  pub next_page_token : Text

-- `yadgar.common.v1.Idempotency`
pub record Idempotency : Type 0 where
  pub key : Text

pub record RegisterProjectRequest : Type 0 where
  pub idempotency : Option Idempotency
  pub scope : Option Scope
  pub path : Text
  pub display_name : Text
  pub source_repo : Text

pub record RegisterProjectResponse : Type 0 where
  pub meta : Option Meta

pub record TouchProjectsRequest : Type 0 where
  pub scope : Option Scope
  pub paths : List Text
  pub seen_at : Option Timestamp

-- A message without fields.
pub data TouchProjectsResponse : Type 0 where
  touched : TouchProjectsResponse

pub record RenameProjectRequest : Type 0 where
  pub idempotency : Option Idempotency
  pub scope : Option Scope
  pub from_path : Text
  pub to_path : Text
  pub expect_version : ℕ

pub record RenameProjectResponse : Type 0 where
  pub meta : Option Meta

pub record ArchiveProjectRequest : Type 0 where
  pub idempotency : Option Idempotency
  pub scope : Option Scope
  pub path : Text
  pub expect_version : ℕ

pub record ArchiveProjectResponse : Type 0 where
  pub meta : Option Meta
