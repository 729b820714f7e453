-- ===== src/Sync/Keeps.antt =====
-- What `sync_as` of src/write/sync.rs keeps, on every outcome and whatever the engine does.
use project_db.Base.{
  ℕ, ◌≤◌, Text, ◌≡◌, refl, inl, inr, Option, none, some, Bool, List, [], ◌∷◌, arith,
}
use project_db.Status.{Status, Result-cases}
use project_db.Pooled.{Deadline, Pool, acquire}
use project_db.Store.{Store, Project, has_id, insert_project, update_projects}
use project_db.Tx.{Outside, Tx}
use project_db.Tx.Keeps.{
  Keeps, Allowed, Keeps-execute, Keeps-bind, Keeps-pure, transact-keeps, keeps_rules,
}
use project_db.Contract.{SyncProjectsRequest, SyncProjectsResponse}
use project_db.Declared.{Declared}
use project_db.Grants.Keeps.{GrantSafe, write-Keeps}
use project_db.Sync.Apply.{
  Guards, insert, overwrite, write_one, write_rows, archive, take_lock, apply, overwritten,
  archived_row, outcome, sync_as, checked, guards_of, is_listed,
}

-- A rewrite of a row that leaves its identity alone.
pub record SameIdentity (r q : Project) : Type 0 where
  pub id : q.id ≡ r.id
  pub path : q.path ≡ r.path
  pub owner : q.owner_user_id ≡ r.owner_user_id
  pub created_by : q.created_by ≡ r.created_by
  pub created_at : q.created_at ≡ r.created_at
  pub version : r.version ≤ q.version

-- A predicate that every statement of a sync on the projects keeps.
pub record RowSafe (P : Store → Type 0) : Type 0 where
  pub inserts : (row : ℕ → Project) → Allowed P (λ now. insert_project (row now))
  pub updates :
      (p : Project → Bool) (f : ℕ → Project → Project)
      → ((now : ℕ) (r : Project) → SameIdentity r (f now r))
      → Allowed P (λ now. update_projects p (f now))

-- A predicate that every statement of a sync keeps.
pub record SyncSafe (P : Store → Type 0) : Type 0 where
  pub rows : RowSafe P
  pub grants : GrantSafe P

module _ {P : Store → Type 0} (safe : RowSafe P) (o : Outside) (actor : Text) where
  insert-Keeps : (d : Declared) → Keeps P (insert o actor d)
  unfolding insert
  insert-Keeps d = search (keeps_rules, Keeps-execute, safe.inserts)

  overwrite-Keeps : (d : Declared) (s : Project) → Keeps P (overwrite o actor d s)
  unfolding overwrite
  overwrite-Keeps d s = Keeps-execute o _ (
      safe.updates (has_id s.id) (overwritten d actor) (λ now r. record {
        id = refl;
        path = refl;
        owner = refl;
        created_by = refl;
        created_at = refl;
        version = omega arith;
      }))

  pub write_one-Keeps :
      (d : Declared) (s : Option Project) (r : SyncProjectsResponse)
      → Keeps P (write_one o actor d s r)
  unfolding write_one
  write_one-Keeps d none r = search (keeps_rules, insert-Keeps)
  write_one-Keeps d (some s) r = search (keeps_rules, overwrite-Keeps)

  pub write_rows-Keeps :
      (stored : List Project) (ds : List Declared) (r : SyncProjectsResponse)
      → Keeps P (write_rows o actor stored ds r)
  unfolding write_rows
  write_rows-Keeps stored [] r = Keeps-pure _
  write_rows-Keeps stored (d ∷ ds) r =
      Keeps-bind _ _ (write_one-Keeps d _ r)
        λ one. Keeps-bind _ _ (write_rows-Keeps stored ds one.1) λ more. Keeps-pure _

  pub archive-Keeps : (ids : List Text) → Keeps P (archive o actor ids)
  unfolding archive
  archive-Keeps [] = Keeps-pure _
  archive-Keeps (i ∷ ids) = Keeps-execute o _ (
      safe.updates (is_listed (i ∷ ids)) (archived_row actor) (λ now r. record {
        id = refl;
        path = refl;
        owner = refl;
        created_by = refl;
        created_at = refl;
        version = omega arith;
      }))

module _ {P : Store → Type 0} (safe : SyncSafe P) (o : Outside) where
  apply-Keeps : (ds : List Declared) (actor : Text) (g : Guards) → Keeps P (apply o ds actor g)
  unfolding apply take_lock
  apply-Keeps ds actor g =
      search (keeps_rules, write_rows-Keeps, archive-Keeps, write-Keeps, safe.rows, safe.grants)
        depth 20

  outcome-Keeps : {A : Type 0} (m : Tx Status A) → Keeps P m → Keeps P (outcome m)
  outcome-Keeps m k = record { keep = λ c h. k.keep c h }

  pub sync_as-keeps :
      (pool : Pool) (caller : Option Text) (req : SyncProjectsRequest) (deadline : Deadline)
      (s : Store)
      → P s
      → P (sync_as o pool caller req deadline s).1
  unfolding sync_as
  sync_as-keeps pool caller req deadline s h = elim (Result-cases (checked caller req)) [
    | inr (e, c) ↦ rw (c, sync_as) h
    | inl ((actor, declared), c) ↦ elim (Result-cases (acquire pool deadline)) [
      | inr (e, a) ↦ rw (c, sync_as, a) h
      | inl (_, a) ↦
          rw (c, sync_as, a)
            (transact-keeps P o _ s (outcome-Keeps _ (apply-Keeps declared actor (guards_of req)))
              h)
    ]
  ]
