-- ===== src/Tests/Shares.antt =====
-- A sync over tables with grants.
use project_db.Base.{
  some, ap, sym, codes, [], ◌∷◌, refl, ◌≡◌, inl, inr, text_eq, has_slash, split, to_ascii_lowercase,
  List,
}
use project_db.Status.{ok}
use project_db.Path
use project_db.Path.{refuse_reserved_root, is_private_class}
use project_db.Store.{
  Store, Grant, update_projects, class_ok, has_id, insert_grant, delete_grant, update_grant,
}
use project_db.Store.Valid.{IsValid, IsValid-same_projects}
use project_db.Store.Granted.{IsGranted, grant}
use project_db.Pooled.{acquire, pool_acquire}
use project_db.Tx.{transact, statement, execute, select, settle}
use project_db.Contract.{SyncProjectsResponse}
use project_db.Declared.{Declared}
use project_db.Grants
use project_db.Service.{serve}
use project_db.Service.History.{start, next}
use project_db.Service.Grants.{History-IsGranted}
use project_db.Sync.Request.{
  validate, validate_roots, validate_projects, refuse_duplicates, is_rooted, row, admitted, admit,
  principal, sync_caller, is_caller,
}
use project_db.Sync.Apply.{
  sync_as, checked, apply, take_lock, stored_rows, declared_alias, check_alias, to_archive, guard,
  write_rows, archive, write_one, by_key, insert, overwrite, differs, reactivating, is_listed,
  is_named,
}
use project_db.Sync.Granted.{Granted, sync_as-Granted}
use project_db.Sync.Counts.{Counted, sync_as-Counted}
use project_db.Tests.Fixtures.{
  tables, tables-IsValid, web, apart, calm, ready, patient, declaration,
}
use project_db.Tests.Calls.{given, quiet, calm_world, second, first}

-- Row `acme/web` shared with two teams, of which the declaration names one, at another level.
abbrev shared : Store
shared = record tables {
  grants =
      grant (codes "yadgar:project:w") (codes "yadgar:team:core") 1
      ∷ grant (codes "yadgar:project:w") (codes "yadgar:team:ops") 1
      ∷ [];
}

shared-IsGranted : IsGranted shared
shared-IsGranted = record {
  rows = λ g m. elim m [
    | inl e ↦ (web, inr (inl refl), ap (λ (x : Grant). x.project_id) (sym e))
    | inr n ↦ elim n [
      | inl e ↦ (web, inr (inl refl), ap (λ (x : Grant). x.project_id) (sym e))
      | inr x ↦ absurd x
    ]
  ];
  keys = (
    (
      λ e.
          apart (codes "yadgar:team:core") (codes "yadgar:team:ops") (unfold text_eq in refl)
            (ap (λ x. x.1) e),
      tt,
    ),
    (tt, tt),
  );
}

shared-IsValid : IsValid shared
shared-IsValid = IsValid-same_projects refl tables-IsValid

abbrev settled : Store
settled = (sync_as calm ready (some sync_caller) declaration patient shared).1

abbrev revoked : SyncProjectsResponse
revoked = record {
  inserted = 0;
  updated = 2;
  archived = 0;
  reactivated = 0;
  unchanged = 0;
  grants_declared = 1;
  grants_inserted = 0;
  grants_deleted = 1;
  grants_unchanged = 0;
}

sync_revokes :
    sync_as calm ready (some sync_caller) declaration patient shared ≡ (ok revoked, settled)
unfolding sync_as checked admitted admit is_caller principal validate validate_roots
    validate_projects refuse_duplicates is_rooted row Path.validate refuse_reserved_root
    is_private_class Grants.validate text_eq has_slash split to_ascii_lowercase acquire pool_acquire
    transact settle select execute statement apply take_lock stored_rows declared_alias check_alias
    to_archive guard Grants.stored_of Grants.plan Grants.revoke_guard write_rows write_one by_key
    insert overwrite differs reactivating is_listed is_named archive Grants.write update_projects
    insert_grant update_grant delete_grant class_ok has_id
sync_revokes = refl

sync_as-Granted_example :
    (rows : List Declared) × (validate declaration ≡ ok rows) × Granted rows settled
sync_as-Granted_example =
    sync_as-Granted calm ready (some sync_caller) declaration patient shared settled sync_revokes
      shared-IsValid shared-IsGranted

sync_as-Counted_example :
    (rows : List Declared) × (validate declaration ≡ ok rows)
    × Counted declaration rows shared settled revoked
sync_as-Counted_example =
    sync_as-Counted calm ready (some sync_caller) declaration patient shared settled sync_revokes
      shared-IsValid shared-IsGranted

abbrev later : Store
later =
    (serve given quiet (λ r. 0) calm_world second
      (serve given quiet (λ r. 0) calm_world first shared).1).1

History-IsGranted_example : IsGranted later
History-IsGranted_example =
    History-IsGranted given quiet (λ r. 0) (next calm_world second (next calm_world first start))
      shared-IsGranted
