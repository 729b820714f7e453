-- ===== src/Schema.antt =====
-- src/schema.rs: the seven migrations, and what the engine makes of their statements.
pub mod Migrations
pub mod Upgrade
pub mod Alter
pub mod Columns
pub mod Stable
pub mod Clauses
pub mod Reruns
use project_db.Base.{
  ℕ, Text, codes, text_eq, Bool, true, false, Option, none, some, List, [], ◌∷◌, ◌++◌, any,
  if◌then◌else◌, ◌==◌, ◌&&◌,
}
use project_db.Status.{Result, ok, err, ◌>>=◌}
use project_db.Store.{update_rows}

pub record Column : Type 0 where
  pub name : Text
  pub kind : Text
  pub collation : Option Text
  pub nullable : Bool
  pub default_value : Option Text

pub record Check : Type 0 where
  pub name : Text
  pub condition : Text

pub record ForeignKey : Type 0 where
  pub name : Text
  pub column : Text
  pub parent : Text
  pub parent_column : Text
  pub on_delete : Text

pub record Table : Type 0 where
  pub name : Text
  pub columns : List Column
  pub primary_key : List Text
  pub unique : List (Text × Text)
  pub indexes : List (Text × Text)
  pub checks : List Check
  pub foreign_keys : List ForeignKey

-- The tables, and the rows that the migrations put into one of them.
pub record Database : Type 0 where
  pub tables : List Table
  pub seeded : List (Text × ℕ)

pub data DdlError : Type 0 where
  table_exists : Text → DdlError
  no_such_table : Text → DdlError
  unknown_column : Text → DdlError
  duplicate_entry : Text → DdlError
  constraint_failed : Text → DdlError

-- What the rows that are stored decide: whether a column's values stay distinct when it is
-- redefined, and whether the rows meet a condition.
pub record Contents : Type 0 where
  pub distinct : Text → Column → Bool
  pub meets : Text → Check → Bool

pub data Statement : Type 0 where
  create_table : Bool → Table → Statement
  modify_column : Text → Column → Statement
  add_columns : Text → List (Column × Text) → Statement
  add_check : Text → Check → Statement
  insert_ignore : Text → ℕ → Statement

abbrev pub is_table : Text → Table → Bool
is_table n t = text_eq t.name n

abbrev pub is_column : Text → Column → Bool
is_column n c = text_eq c.name n

abbrev pub is_check : Text → Check → Bool
is_check n c = text_eq c.name n

abbrev pub is_seed : Text → ℕ → Text × ℕ → Bool
is_seed n v (m, w) = text_eq m n && w == v

-- ALTER TABLE: the table of that name, altered.
unfoldable pub alter :
    Text → (Table → Result DdlError Table) → List Table → Result DdlError (List Table)
unfolding text_eq
alter n f [] = err (no_such_table n)
alter n f (t ∷ ts) =
    let rest = alter n f ts in
    if is_table n t then f t >>= (λ u. ok (u ∷ ts)) else rest >>= (λ us. ok (t ∷ us))

-- MODIFY
unfoldable pub modified : Contents → Text → Column → Table → Result DdlError Table
unfolding text_eq
modified x n c t =
    if any (is_column c.name) t.columns
    then if x.distinct n c
      then ok (record t { columns = update_rows (is_column c.name) (λ old. c) t.columns })
      else err (duplicate_entry c.name)
    else err (unknown_column c.name)

-- AFTER
abbrev pub place_after : Text → Column → List Column → Result DdlError (List Column)
place_after after c [] = err (unknown_column after)
place_after after c (d ∷ ds) =
    let rest = place_after after c ds in
    if is_column after d then ok (d ∷ c ∷ ds) else rest >>= (λ es. ok (d ∷ es))

-- ADD COLUMN IF NOT EXISTS
unfoldable pub add_column : Column → Text → List Column → Result DdlError (List Column)
unfolding text_eq
add_column c after cs = if any (is_column c.name) cs then ok cs else place_after after c cs

unfoldable pub add_all : List (Column × Text) → List Column → Result DdlError (List Column)
unfolding add_column
add_all [] cs = ok cs
add_all ((c, after) ∷ more) cs = add_column c after cs >>= add_all more

unfoldable pub widened : List (Column × Text) → Table → Result DdlError Table
unfolding add_all
widened more t = add_all more t.columns >>= λ cs. ok (record t { columns = cs })

-- ADD CONSTRAINT IF NOT EXISTS ... CHECK
unfoldable pub constrained : Contents → Text → Check → Table → Result DdlError Table
unfolding text_eq
constrained x n c t =
    if any (is_check c.name) t.checks
    then ok t
    else if x.meets n c
    then ok (record t { checks = t.checks ++ c ∷ [] })
    else err (constraint_failed c.name)

abbrev pub altering : Text → (Table → Result DdlError Table) → Database → Result DdlError Database
altering n f d = alter n f d.tables >>= λ ts. ok (record d { tables = ts })

unfoldable pub execute : Contents → Statement → Database → Result DdlError Database
unfolding alter modified widened constrained text_eq
execute x (create_table guarded t) d =
    if any (is_table t.name) d.tables
    then if guarded then ok d else err (table_exists t.name)
    else ok (record d { tables = d.tables ++ t ∷ [] })
execute x (modify_column n c) d = altering n (modified x n c) d
execute x (add_columns n more) d = altering n (widened more) d
execute x (add_check n c) d = altering n (constrained x n c) d
execute x (insert_ignore n v) d =
    if any (is_table n) d.tables
    then if any (is_seed n v) d.seeded
      then ok d
      else ok (record d { seeded = d.seeded ++ (n, v) ∷ [] })
    else err (no_such_table n)

-- The statements of one migration, up to the first that fails.
unfoldable pub run : Contents → List Statement → Database → Result DdlError Database
unfolding execute
run x [] d = ok d
run x (s ∷ ss) d = execute x s d >>= run x ss
