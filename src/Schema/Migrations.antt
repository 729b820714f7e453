-- ===== src/Schema/Migrations.antt =====
-- The list `all` of src/schema.rs, each migration with its version, its name and its statements.
use project_db.Base.{ℕ, Text, codes, true, false, Option, none, some, List, [], ◌∷◌, ◌++◌}
use project_db.Schema.{
  Column, Check, Table, Database, Statement, create_table, modify_column, add_columns, add_check,
  insert_ignore,
}

pub record Migration : Type 0 where
  pub version : ℕ
  pub name : Text
  pub statements : List Statement

abbrev pub general_ci : Option Text
general_ci = some (codes "utf8mb4_general_ci")

-- NOT NULL and NULL columns that take the server's collation.
abbrev pub required : Text → Text → Column
required name kind = record {
  name = name;
  kind = kind;
  collation = none;
  nullable = false;
  default_value = none;
}

abbrev pub optional : Text → Text → Column
optional name kind = record (required name kind) { nullable = true }

abbrev pub stamped : Text → Column
stamped name = record (required name (codes "TIMESTAMP")) {
  default_value = some (codes "CURRENT_TIMESTAMP");
}

abbrev pub path_column : Text → Column
path_column name = record (required name (codes "VARCHAR(255)")) { collation = general_ci }

abbrev pub source_repo : Column
source_repo = optional (codes "source_repo") (codes "VARCHAR(255)")

abbrev pub owner_user_id : Column
owner_user_id = optional (codes "owner_user_id") (codes "VARCHAR(64)")

abbrev pub visibility : Column
visibility = required (codes "visibility") (codes "TINYINT")

abbrev pub project_class : Check
project_class = record {
  name = codes "ck_project_class";
  condition = codes "(source_repo IS NOT NULL) <> (owner_user_id IS NOT NULL)";
}

abbrev pub project_class_path : Check
project_class_path = record {
  name = codes "ck_project_class_path";
  condition = codes "(owner_user_id IS NOT NULL) = (path LIKE 'local/%')";
}

abbrev pub project : Table
project = record {
  name = codes "project";
  columns =
      required (codes "id") (codes "VARCHAR(96)")
      ∷ record (required (codes "version") (codes "BIGINT UNSIGNED")) {
        default_value = some (codes "1");
      }
      ∷ path_column (codes "path")
      ∷ required (codes "display_name") (codes "VARCHAR(255)")
      ∷ required (codes "status") (codes "TINYINT")
      ∷ source_repo
      ∷ owner_user_id
      ∷ visibility
      ∷ required (codes "created_by") (codes "VARCHAR(64)")
      ∷ required (codes "updated_by") (codes "VARCHAR(64)")
      ∷ stamped (codes "created_at")
      ∷ stamped (codes "updated_at")
      ∷ record (optional (codes "last_seen_at") (codes "TIMESTAMP")) {
        default_value = some (codes "NULL");
      }
      ∷ [];
  primary_key = codes "id" ∷ [];
  unique = (codes "uq_project_path", codes "path") ∷ [];
  indexes = (codes "ix_project_status", codes "status") ∷ [];
  checks = project_class ∷ project_class_path ∷ [];
  foreign_keys = [];
}

abbrev pub create_project : Migration
create_project = record {
  version = 1;
  name = codes "create_project";
  statements = create_table false project ∷ [];
}

abbrev pub project_alias : Migration
project_alias = record {
  version = 2;
  name = codes "project_alias";
  statements =
      create_table false (record {
        name = codes "project_alias";
        columns =
            required (codes "alias_path") (codes "VARCHAR(255)")
            ∷ required (codes "project_id") (codes "VARCHAR(96)")
            ∷ stamped (codes "created_at")
            ∷ [];
        primary_key = codes "alias_path" ∷ [];
        unique = [];
        indexes = (codes "ix_project_alias_project", codes "project_id") ∷ [];
        checks = [];
        foreign_keys = [];
      })
      ∷ [];
}

abbrev pub project_write_idempotency : Migration
project_write_idempotency = record {
  version = 3;
  name = codes "project_write_idempotency";
  statements =
      create_table false (record {
        name = codes "project_write";
        columns =
            required (codes "project_id") (codes "VARCHAR(255)")
            ∷ required (codes "user_id") (codes "VARCHAR(64)")
            ∷ required (codes "idem_key") (codes "VARCHAR(255)")
            ∷ required (codes "rpc") (codes "VARCHAR(32)")
            ∷ required (codes "response") (codes "VARBINARY(4096)")
            ∷ required (codes "request_fingerprint") (codes "BINARY(32)")
            ∷ stamped (codes "created_at")
            ∷ [];
        primary_key = codes "project_id" ∷ codes "user_id" ∷ codes "idem_key" ∷ [];
        unique = [];
        indexes = [];
        checks = [];
        foreign_keys = [];
      })
      ∷ [];
}

abbrev pub pin_the_path_collation : Migration
pin_the_path_collation = record {
  version = 4;
  name = codes "pin_the_path_collation";
  statements =
      modify_column (codes "project") (path_column (codes "path"))
      ∷ modify_column (codes "project_alias") (path_column (codes "alias_path"))
      ∷ [];
}

abbrev pub project_sync_lock : Migration
project_sync_lock = record {
  version = 5;
  name = codes "project_sync_lock";
  statements =
      create_table true (record {
        name = codes "project_sync_lock";
        columns = required (codes "id") (codes "TINYINT UNSIGNED") ∷ [];
        primary_key = codes "id" ∷ [];
        unique = [];
        indexes = [];
        checks =
            record { name = codes "ck_project_sync_lock_one"; condition = codes "id = 1" } ∷ [];
        foreign_keys = [];
      })
      ∷ insert_ignore (codes "project_sync_lock") 1
      ∷ [];
}

-- Each with the column that it is placed after.
abbrev pub class_columns : List (Column × Text)
class_columns =
    (source_repo, codes "status")
    ∷ (owner_user_id, codes "source_repo")
    ∷ (visibility, codes "owner_user_id")
    ∷ []

abbrev pub project_class_columns : Migration
project_class_columns = record {
  version = 6;
  name = codes "project_class_columns";
  statements =
      add_columns (codes "project") class_columns
      ∷ add_check (codes "project") project_class
      ∷ add_check (codes "project") project_class_path
      ∷ [];
}

abbrev pub project_grant : Migration
project_grant = record {
  version = 7;
  name = codes "project_grant";
  statements =
      create_table true (record {
        name = codes "project_grant";
        columns =
            required (codes "project_id") (codes "VARCHAR(96)")
            ∷ required (codes "team_id") (codes "VARCHAR(96)")
            ∷ required (codes "level") (codes "TINYINT")
            ∷ [];
        primary_key = codes "project_id" ∷ codes "team_id" ∷ [];
        unique = [];
        indexes = [];
        checks =
            record { name = codes "ck_project_grant_level"; condition = codes "level IN (1, 2)" }
            ∷ [];
        foreign_keys =
            record {
              name = codes "fk_project_grant_project";
              column = codes "project_id";
              parent = codes "project";
              parent_column = codes "id";
              on_delete = codes "CASCADE";
            }
            ∷ [];
      })
      ∷ [];
}

abbrev pub all : List Migration
all =
    create_project ∷ project_alias ∷ project_write_idempotency ∷ pin_the_path_collation
    ∷ project_sync_lock ∷ project_class_columns ∷ project_grant ∷ []

-- What a store that has applied none of them runs.
abbrev pub statements_of : List Migration → List Statement
statements_of [] = []
statements_of (m ∷ ms) = m.statements ++ statements_of ms

abbrev pub empty : Database
empty = record { tables = []; seeded = [] }
