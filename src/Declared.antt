-- ===== src/Declared.antt =====
-- A declared row after validation (`Declared` of src/write/sync.rs), which its grants share.
use project_db.Base.{ℕ, Text, List}

pub record Declared : Type 0 where
  pub key : Text
  pub path : Text
  pub display_name : Text
  pub source_repo : Text
  pub grants : List (Text × ℕ)
