-- ===== src/Tests/Writes.antt =====
-- Writes to the sample tables.
use project_db.Base.{
  ℕ, Text, codes, to_ascii_lowercase, text_eq, ◌≡◌, refl, true, Option, none, some, List, [], ◌∷◌,
  inl, inr, ◌↔◌, ◌⊎◌, has_slash, split,
}
use project_db.Status.{Code, Detail, Status, status, ok, err}
use project_db.Path
use project_db.Path.{
  Uuid, refuse_reserved_root, is_private_class, strip_prefix, account_segment, is_under_own_root,
}
use project_db.Sql.{tel_scope}
use project_db.Store.{Store, update_projects, class_ok, has_id, insert_grant}
use project_db.Pooled.{acquire, pool_acquire}
use project_db.Tx.{transact, statement, execute, select, settle}
use project_db.Contract.{SyncProjectsResponse, RegisterProjectRequest, RegisterProjectResponse}
use project_db.Declared.{Declared}
use project_db.Grants
use project_db.Sync.Request.{
  validate, validate_roots, validate_projects, refuse_duplicates, is_rooted, row, admitted, admit,
  principal, sync_caller, is_caller, recorded_scope, only_request_id,
}
use project_db.Sync.Declaration.{IsAdmitted, validate-IsAdmitted}
use project_db.Sync.Apply.{
  sync_as, checked, apply, take_lock, stored_rows, declared_alias, check_alias, to_archive, guard,
  write_rows, archive, write_one, by_key, insert, overwrite, differs, reactivating, is_listed,
  is_named,
}
use project_db.Sync.Invariant.{Survives, sync_as-Survives}
use project_db.Sync.Recorded.{IsAdmittedAs, recorded_scope-IsAdmittedAs}
use project_db.Sync.Converge.{Converged}
use project_db.Sync.Outcome.{sync_as-Converged}
use project_db.Idem.{Outcomes}
use project_db.Register
use project_db.Register.{register_as, class_of}
use project_db.Register.Account.{Owns, class_of-ok_iff, class_of_one_account}
use project_db.Register.Invariant.{Extends, register_as-Extends}
use project_db.Tests.Fixtures.{
  tables, tables-IsValid, web, calm, ready, patient, declaration, seeder,
}

abbrev pub rows : List Declared
rows =
    record {
      key = codes "acme";
      path = codes "acme";
      display_name = [];
      source_repo = codes "git/acme";
      grants = [];
    }
    ∷ record {
      key = codes "acme/web";
      path = codes "acme/Web";
      display_name = codes "Web 2";
      source_repo = codes "git/web";
      grants = (codes "yadgar:team:core", 2) ∷ [];
    }
    ∷ []

declaration_valid : validate declaration ≡ ok rows
unfolding validate validate_roots validate_projects refuse_duplicates is_rooted row Path.validate
    refuse_reserved_root is_private_class Grants.validate text_eq has_slash split to_ascii_lowercase
declaration_valid = refl

validate-IsAdmitted_example : IsAdmitted declaration rows
validate-IsAdmitted_example = validate-IsAdmitted declaration declaration_valid

abbrev counts : SyncProjectsResponse
counts = record {
  inserted = 0;
  updated = 2;
  archived = 0;
  reactivated = 0;
  unchanged = 0;
  grants_declared = 1;
  grants_inserted = 1;
  grants_deleted = 0;
  grants_unchanged = 0;
}

-- The tables after that declaration.
abbrev synced : Store
synced = (sync_as calm ready (some sync_caller) declaration patient tables).1

sync_overwrites :
    sync_as calm ready (some sync_caller) declaration patient tables ≡ (ok counts, synced)
unfolding sync_as checked admitted admit is_caller principal validate validate_roots
    validate_projects refuse_duplicates is_rooted row Path.validate refuse_reserved_root
    is_private_class Grants.validate text_eq has_slash split to_ascii_lowercase acquire pool_acquire
    transact settle select execute statement apply take_lock stored_rows declared_alias check_alias
    to_archive guard Grants.stored_of Grants.plan Grants.revoke_guard write_rows write_one by_key
    insert overwrite differs reactivating is_listed is_named archive Grants.write update_projects
    insert_grant class_ok has_id
sync_overwrites = refl

sync_as-Converged_example :
    (rows : List Declared) × (validate declaration ≡ ok rows) × Converged rows synced
sync_as-Converged_example =
    sync_as-Converged calm ready (some sync_caller) declaration patient tables synced
      sync_overwrites tables-IsValid

abbrev stranger : Status
stranger =
    status Code.permission_denied (Detail.wrong_caller "SyncProjects" (some (codes "memory")))

stranger_refused :
    sync_as calm ready (some (codes "memory")) declaration patient tables ≡ (err stranger, tables)
unfolding sync_as checked admitted admit is_caller text_eq
stranger_refused = refl

sync_as-Survives_example :
    Survives web (sync_as calm ready (some sync_caller) declaration patient tables).1
sync_as-Survives_example =
    sync_as-Survives calm ready (some sync_caller) declaration patient tables web (inr (inl refl))

-- A parser that takes every text for a version 7 uuid in its own spelling.
abbrev trusting : Text → Option Uuid
trusting t = some (record { version_num = 7; is_rfc4122 = true; hyphenated = t })

-- A codec that keeps nothing, and a server that compares keys byte for byte.
abbrev plain : Outcomes RegisterProjectResponse
plain = record {
  sha256 = λ bytes. bytes;
  encode = λ r. [];
  decode = λ bytes. some (record { meta = none });
  same = text_eq;
}

abbrev draft : RegisterProjectRequest
draft = record {
  idempotency = some (record { key = codes "k1" });
  scope = some (record seeder { user_id = codes "yadgar:user:u7" });
  path = codes "local/u7/draft";
  display_name = codes "Draft";
  source_repo = [];
}

abbrev encoded : RegisterProjectRequest → List ℕ
encoded req = req.path

owner_class :
    class_of trusting (codes "local/u7/draft") (codes "yadgar:user:u7") []
    ≡ ok (record { owner_user_id = codes "yadgar:user:u7"; visibility = 1 })
unfolding class_of is_private_class account_segment strip_prefix is_under_own_root text_eq
owner_class = refl

class_of-ok_iff_example :
    (class_of trusting (codes "local/u7/draft") (codes "yadgar:user:u7") []
      ≡ ok (record { owner_user_id = codes "yadgar:user:u7"; visibility = 1 }))
    ↔ (Owns trusting (codes "local/u7/draft") (codes "yadgar:user:u7")
        × (◌≡◌ {A = Text} [] [])
        × (◌≡◌ {A = Register.Class}
            (record { owner_user_id = codes "yadgar:user:u7"; visibility = 1 })
            (record { owner_user_id = codes "yadgar:user:u7"; visibility = 1 })))
class_of-ok_iff_example =
    class_of-ok_iff trusting (codes "local/u7/draft") (codes "yadgar:user:u7") []
      (record { owner_user_id = codes "yadgar:user:u7"; visibility = 1 })

class_of_one_account_example : codes "yadgar:user:u7" ≡ codes "yadgar:user:u7"
class_of_one_account_example =
    class_of_one_account trusting (codes "local/u7/draft") (codes "yadgar:user:u7")
      (codes "yadgar:user:u7") [] [] owner_class owner_class

register_as-Extends_example :
    Extends trusting draft tables
      (register_as calm plain trusting encoded ready (some sync_caller) draft patient tables).1
register_as-Extends_example =
    register_as-Extends calm plain trusting encoded ready (some sync_caller) draft patient tables

recorded_scope-IsAdmittedAs_example :
    ((u : Text) × IsAdmittedAs (some (codes "memory")) (some seeder) u
      × (recorded_scope (some (codes "memory")) (some seeder) [] ≡ tel_scope (some seeder) []))
    ⊎ (recorded_scope (some (codes "memory")) (some seeder) []
        ≡ only_request_id (tel_scope (some seeder) []).request_id)
recorded_scope-IsAdmittedAs_example =
    recorded_scope-IsAdmittedAs (some (codes "memory")) (some seeder) []

abbrev outsider : Status
outsider =
    status Code.permission_denied (Detail.wrong_caller "RegisterProject" (some (codes "memory")))

outsider_refused :
    register_as calm plain trusting encoded ready (some (codes "memory")) draft patient tables
    ≡ (err outsider, tables)
unfolding register_as Register.admit is_caller text_eq
outsider_refused = refl
