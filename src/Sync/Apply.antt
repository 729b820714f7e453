-- ===== src/Sync/Apply.antt =====
-- `apply` and `sync_as` of src/write/sync.rs: steps 3 to 8, inside one transaction.
use Prim.Native.Nat.{◌%◌, ◌^◌}
use project_db.Base.{
  ℕ, suc, ◌+◌, ◌*◌, Text, codes, text_eq, length, to_ascii_lowercase, Bool, true, false, ◌&&◌, ◌||◌,
  not, Option, none, some, List, [], ◌∷◌, ◌++◌, map, any, find, find_last, keep, leb, ◌==◌,
  if◌then◌else◌,
}
use project_db.Status
use project_db.Status.{Code, Detail, Status, status, Result, ok, err}
use project_db.Engine.{ci_eq}
use project_db.Store.{
  Store, Project, Alias, active, archived, visibility_org, is_org, has_id, insert_project,
  update_projects,
}
use project_db.Pooled.{Deadline, Pool, acquire}
use project_db.Tx.{
  Ended, committing, rolling_back, transact, Outside, Tx, pure, lift, ◌>>=◌, ◌>>◌, execute, select,
  draw_uuid,
}
use project_db.Contract.{SyncProjectsRequest, SyncProjectsResponse}
use project_db.Declared.{Declared}
use project_db.Grants
use project_db.Sync.Request.{admitted, validate}

-- `as u32`, and the wrap of a `u32` counter.
abbrev pub u32 : ℕ → ℕ
u32 n = n % 2 ^ 32

pub record Guards : Type 0 where
  pub allow_mass_archive : Bool
  pub allow_mass_revoke : Bool

-- The org-class rows.
unfoldable pub stored_rows : Store → List Project
stored_rows s = keep is_org s.projects

-- The first stored alias at a declared path, and the declared path that it is.
unfoldable pub declared_alias : List Declared → Store → Option Alias
unfolding ci_eq
declared_alias declared s = find (λ a. any (λ d. ci_eq a.alias_path d.path) declared) s.aliases

abbrev pub spelling : Option Declared → Text → Text
spelling none alias = alias
spelling (some d) alias = d.path

unfoldable pub check_alias : List Declared → Option Alias → Result Status Unit
unfolding text_eq to_ascii_lowercase
check_alias declared none = ok tt
check_alias declared (some a) =
    let folded = to_ascii_lowercase a.alias_path in
    err (
      status Code.already_exists
        (Detail.alias_path (spelling (find (λ d. text_eq d.key folded) declared) a.alias_path)))

-- `by_key.get`: the last stored row with the folded path.
unfoldable pub by_key : List Project → Text → Option Project
unfolding text_eq to_ascii_lowercase
by_key stored key = find_last (λ s. text_eq (to_ascii_lowercase s.path) key) stored

-- The row is named by the declaration.
unfoldable pub is_named : List Declared → Project → Bool
unfolding text_eq to_ascii_lowercase
is_named declared s = any (λ d. text_eq d.key (to_ascii_lowercase s.path)) declared

abbrev pub is_active : Project → Bool
is_active s = s.status == active

-- The active rows that the declaration does not name.
unfoldable pub to_archive : List Declared → List Project → List Text
unfolding is_named
to_archive declared stored =
    map (λ s. s.id) (keep (λ s. is_active s && not (is_named declared s)) stored)

unfoldable pub guard : ℕ → ℕ → Bool → Result Status Unit
guard archiving active_count allowed =
    if allowed || leb (archiving * 2) active_count
    then ok tt
    else err (status Code.failed_precondition (Detail.mass_archive archiving active_count))

abbrev pub text_is : Option Text → Text → Bool
text_is none t = false
text_is (some s) t = text_eq s t

-- The stored row is not as declared.
unfoldable pub differs : Declared → Project → Bool
unfolding text_eq
differs d s =
    not (text_eq s.display_name d.display_name) || not (text_is s.source_repo d.source_repo)

unfoldable pub reactivating : Project → Bool
reactivating s = not (s.status == active)

-- What an overwrite makes of the row.
abbrev pub overwritten : Declared → Text → ℕ → Project → Project
overwritten d actor now r = record r {
  display_name = d.display_name;
  source_repo = some d.source_repo;
  status = active;
  version = suc r.version;
  updated_by = actor;
  updated_at = now;
}

abbrev pub fresh : Text → Declared → Text → ℕ → Project
fresh id d actor now = record {
  id = id;
  version = 1;
  path = d.path;
  display_name = d.display_name;
  status = active;
  source_repo = some d.source_repo;
  owner_user_id = none;
  visibility = visibility_org;
  created_by = actor;
  updated_by = actor;
  created_at = now;
  updated_at = now;
  last_seen_at = none;
}

abbrev pub archived_row : Text → ℕ → Project → Project
archived_row actor now r = record r {
  status = archived;
  version = suc r.version;
  updated_by = actor;
  updated_at = now;
}

-- The three counters of `write_one`.
abbrev pub count_inserted : SyncProjectsResponse → SyncProjectsResponse
count_inserted r = record r { inserted = u32 (suc r.inserted) }

abbrev pub count_unchanged : SyncProjectsResponse → SyncProjectsResponse
count_unchanged r = record r { unchanged = u32 (suc r.unchanged) }

abbrev pub count_overwritten : Bool → SyncProjectsResponse → SyncProjectsResponse
count_overwritten true r = record r { reactivated = u32 (suc r.reactivated) }
count_overwritten false r = record r { updated = u32 (suc r.updated) }

abbrev pub no_counts : SyncProjectsResponse
no_counts = record {
  inserted = 0;
  updated = 0;
  archived = 0;
  reactivated = 0;
  unchanged = 0;
  grants_declared = 0;
  grants_inserted = 0;
  grants_deleted = 0;
  grants_unchanged = 0;
}

-- Some row id is among the ids.
unfoldable pub is_listed : List Text → Project → Bool
unfolding has_id
is_listed ids r = any (λ i. has_id i r) ids

module _ (o : Outside) (actor : Text) where
  unfoldable pub insert : Declared → Tx Status Text
  unfolding execute draw_uuid insert_project
  insert d = do
    uuid ← draw_uuid o
    let id = codes "yadgar:project:" ++ uuid
    execute o (λ now. insert_project (fresh id d actor now))
    pure id

  unfoldable pub overwrite : Declared → Project → Tx Status Unit
  unfolding execute update_projects has_id
  overwrite d s = execute o (λ now. update_projects (has_id s.id) (overwritten d actor now))

  unfoldable pub write_one :
      Declared → Option Project → SyncProjectsResponse → Tx Status (Text × SyncProjectsResponse)
  unfolding insert overwrite differs reactivating
  write_one d none response = do id ← insert d; pure (id, count_inserted response)
  write_one d (some s) response =
      if not (differs d s) && not (reactivating s)
      then pure (s.id, count_unchanged response)
      else (do overwrite d s; pure (s.id, count_overwritten (reactivating s) response))

  -- The loop over the declared rows, with the ids that it maps their keys to.
  unfoldable pub write_rows :
      List Project
      → List Declared
      → SyncProjectsResponse
      → Tx Status (List (Text × Text) × SyncProjectsResponse)
  unfolding write_one by_key
  write_rows stored [] response = pure ([], response)
  write_rows stored (d ∷ ds) response = do
    (id, counted) ← write_one d (by_key stored d.key) response
    (ids, total) ← write_rows stored ds counted
    pure ((d.key, id) ∷ ids, total)

  unfoldable pub archive : List Text → Tx Status Unit
  unfolding execute update_projects is_listed
  archive [] = pure tt
  archive (i ∷ ids) =
      execute o (λ now. update_projects (is_listed (i ∷ ids)) (archived_row actor now))

abbrev pub grant_total : List Declared → ℕ
grant_total [] = 0
grant_total (d ∷ ds) = length d.grants + grant_total ds

-- The response, once the rows are counted.
abbrev pub finish :
    List Declared → List Text → Grants.GrantPlan → SyncProjectsResponse → SyncProjectsResponse
finish declared ids p r = record r {
  archived = u32 (length ids);
  grants_declared = u32 (grant_total declared);
  grants_inserted = u32 (length p.inserts);
  grants_deleted = u32 (length p.deletes);
  grants_unchanged = u32 p.unchanged;
}

module _ (o : Outside) where
  -- The lock row always exists: taking it is a statement with no effect on the tables.
  unfoldable pub take_lock : Tx Status Unit
  unfolding select
  take_lock = select o (λ _. tt)

  unfoldable pub apply : List Declared → Text → Guards → Tx Status SyncProjectsResponse
  unfolding take_lock select stored_rows declared_alias check_alias to_archive guard
      Grants.stored_of Grants.plan Grants.revoke_guard write_rows archive Grants.write
  apply declared actor guards = do
    take_lock
    stored ← select o stored_rows
    alias ← select o (declared_alias declared)
    lift (check_alias declared alias)
    let ids_to_archive = to_archive declared stored
    lift (guard (length ids_to_archive) (length (keep is_active stored)) guards.allow_mass_archive)
    stored_grants ← select o Grants.stored_of
    let grant_plan = Grants.plan declared stored_grants
    lift (
        Grants.revoke_guard (length grant_plan.deletes) (length stored_grants)
          guards.allow_mass_revoke)
    (ids, response) ← write_rows o actor stored declared no_counts
    archive o actor ids_to_archive
    Grants.write o grant_plan ids
    pure (finish declared ids_to_archive grant_plan response)

abbrev pub ended : {A : Type 0} → Result Status A → Ended A
ended (ok a) = committing a
ended (err e) = rolling_back (err e)

abbrev pub outcome : {A : Type 0} → Tx Status A → Tx Status (Ended A)
outcome m c = (ok (ended (m c).0), (m c).1)

abbrev pub guards_of : SyncProjectsRequest → Guards
guards_of req = record {
  allow_mass_archive = req.allow_mass_archive;
  allow_mass_revoke = req.allow_mass_revoke;
}

-- The two checks that come before the connection.
unfoldable pub checked : Option Text → SyncProjectsRequest → Result Status (Text × List Declared)
unfolding admitted validate
checked caller req =
    Status.◌>>=◌ (admitted caller req.scope)
      λ actor. Status.◌>>=◌ (validate req) (λ declared. ok (actor, declared))

-- `sync_as`: the request is checked before a connection is taken; a refusal of `apply` is given
-- after the rollback.
module _ (o : Outside) (pool : Pool) where
  unfoldable pub sync_as :
      Option Text
      → SyncProjectsRequest
      → Deadline
      → Store
      → Result Status SyncProjectsResponse × Store
  unfolding checked acquire transact apply
  sync_as caller req deadline s = elim (checked caller req) [
    | err e ↦ (err e, s)
    | ok (actor, declared) ↦ elim (acquire pool deadline) [
      | err e ↦ (err e, s)
      | ok _ ↦ transact o (outcome (apply o declared actor (guards_of req))) s
    ]
  ]
