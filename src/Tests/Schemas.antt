-- ===== src/Tests/Schemas.antt =====
-- Migrations of src/schema.rs on the tables of version 0.1.
use project_db.Base.{codes, true, none, [], ◌∷◌, refl, ◌≡◌, inl, inr, arith, text_eq}
use project_db.Status.{ok}
use project_db.Schema.{
  Contents, Database, run, execute, alter, widened, add_all, add_column, add_columns, add_check,
}
use project_db.Schema.Migrations.{
  project, project_class_columns, class_columns, project_class, project_class_path, general_ci,
}
use project_db.Schema.Upgrade.{former_project, upgraded, fresh, upgraded-fresh}
use project_db.Schema.Reruns.{later-reruns}

-- Tables without rows.
abbrev no_rows : Contents
no_rows = record { distinct = λ t c. true; meets = λ t c. true }

upgraded-fresh_example : upgraded no_rows none ≡ fresh no_rows
upgraded-fresh_example = upgraded-fresh no_rows none refl refl

abbrev before : Database
before = record { tables = former_project general_ci ∷ []; seeded = [] }

-- The columns were added, and neither constraint.
abbrev between : Database
between = record { tables = record project { checks = [] } ∷ []; seeded = [] }

columns_added : run no_rows (add_columns (codes "project") class_columns ∷ []) before ≡ ok between
unfolding run execute alter widened add_all add_column text_eq
columns_added = refl

later-reruns_example :
    run no_rows project_class_columns.statements between
    ≡ run no_rows project_class_columns.statements before
later-reruns_example =
    later-reruns no_rows project_class_columns (inr (inr (inr (inr (inr (inl refl))))))
      (omega arith) (add_columns (codes "project") class_columns ∷ [])
      (add_check (codes "project") project_class
        ∷ add_check (codes "project") project_class_path
        ∷ [])
      refl before between columns_added
