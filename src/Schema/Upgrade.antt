-- ===== src/Schema/Upgrade.antt =====
-- A store that version 0.1 of the service migrated, brought up to date: the statement that
-- tests/upgrade.rs checks of src/schema.rs.
use project_db.Base.{Text, codes, text_eq, ◌≡◌, true, false, Option, [], ◌∷◌, Bool-cases, inl, inr}
use project_db.Status.{Result, err}
use project_db.Schema.{
  Table, Database, Contents, DdlError, constraint_failed, create_table, run, execute, alter,
  modified, widened, constrained, add_all, add_column,
}
use project_db.Schema.Migrations.{
  project, project_alias, project_write_idempotency, pin_the_path_collation, project_sync_lock,
  project_class_columns, project_grant, required, optional, stamped, path_column, project_class,
  project_class_path, statements_of, all, empty,
}

-- The first migration before the class columns, its path column with some collation.
abbrev pub former_project : Option Text → Table
former_project collation = record project {
  columns =
      required (codes "id") (codes "VARCHAR(96)")
      ∷ record (required (codes "version") (codes "BIGINT UNSIGNED")) {
        default_value = Option.some (codes "1");
      }
      ∷ record (required (codes "path") (codes "VARCHAR(255)")) { collation = collation }
      ∷ required (codes "display_name") (codes "VARCHAR(255)")
      ∷ required (codes "status") (codes "TINYINT")
      ∷ required (codes "created_by") (codes "VARCHAR(64)")
      ∷ required (codes "updated_by") (codes "VARCHAR(64)")
      ∷ stamped (codes "created_at")
      ∷ stamped (codes "updated_at")
      ∷ record (optional (codes "last_seen_at") (codes "TIMESTAMP")) {
        default_value = Option.some (codes "NULL");
      }
      ∷ [];
  checks = [];
}

-- What a store has run that applied the first three migrations of version 0.1, and then the others.
abbrev pub upgraded : Contents → Option Text → Result DdlError Database
upgraded x collation =
    run x
      (create_table false (former_project collation)
        ∷ statements_of (
            project_alias ∷ project_write_idempotency ∷ pin_the_path_collation ∷ project_sync_lock
            ∷ project_class_columns ∷ project_grant ∷ []))
      empty

abbrev pub fresh : Contents → Result DdlError Database
fresh x = run x (statements_of all) empty

-- A store of version 0.1, whatever the collation that its path column took, whose rows meet the two
-- class constraints comes to what a fresh one comes to: the very tables, columns in their order,
-- keys and constraints, or the same refusal of a path column.
pub upgraded-fresh :
    (x : Contents) (collation : Option Text)
    → x.meets (codes "project") project_class ≡ true
    → x.meets (codes "project") project_class_path ≡ true
    → upgraded x collation ≡ fresh x
unfolding run execute alter modified widened constrained add_all add_column text_eq
upgraded-fresh x collation a b =
    elim (Bool-cases (x.distinct (codes "project") (path_column (codes "path")))) [
      | inr c ↦ rw c
      | inl c ↦
          elim (Bool-cases
            (x.distinct (codes "project_alias") (path_column (codes "alias_path")))) [
              | inr d ↦ rw (c, d)
              | inl d ↦ rw (c, d, a, b)
            ]
    ]

-- A store of version 0.1 whose paths stay distinct, and whose rows do not meet the first class
-- constraint, is refused, and the refusal names the constraint.
upgraded-refused :
    (x : Contents) (collation : Option Text)
    → x.distinct (codes "project") (path_column (codes "path")) ≡ true
    → x.distinct (codes "project_alias") (path_column (codes "alias_path")) ≡ true
    → x.meets (codes "project") project_class ≡ false
    → upgraded x collation ≡ err (constraint_failed (codes "ck_project_class"))
unfolding run execute alter modified widened constrained add_all add_column text_eq
upgraded-refused x collation c d a = rw (c, d, a)
