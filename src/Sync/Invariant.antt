-- ===== src/Sync/Invariant.antt =====
-- A sync keeps the invariant of the tables, and every row that was there under its identity.
use project_db.Base.{
  Text, ◌≡◌, refl, sym, ap, ◌∙◌, subst, inl, inr, Option, Bool, Bool-cases, In, arith,
  In-append_left,
}
use project_db.Status.{ok}
use project_db.Pooled.{Deadline, Pool}
use project_db.Store.{Store, Project, update_projects, update_rows}
use project_db.Store.Rows.{
  insert_project-Inserted, update_projects-ok, In-update_rows, In-update_rows_other,
  delete_grant-projects, update_grant-projects, insert_grant-projects,
}
use project_db.Store.Valid.{
  IsValid, IsValid-same_projects, insert_project-IsValid, update_projects-IsValid,
}
use project_db.Tx.{Outside}
use project_db.Contract.{SyncProjectsRequest}
use project_db.Sync.Apply.{sync_as}
use project_db.Sync.Keeps.{SameIdentity, RowSafe, SyncSafe, sync_as-keeps}

pub IsValid-rows : RowSafe IsValid
IsValid-rows = record {
  inserts = λ row now s t a h. insert_project-IsValid (row now) h;
  updates = λ p f same now s t a h.
      update_projects-IsValid p (f now) (λ r. (same now r).id) (λ r. (same now r).path) h;
}

pub IsValid-safe : SyncSafe IsValid
IsValid-safe = record {
  rows = IsValid-rows;
  grants = record {
    deletes = λ p t now s s' a h. IsValid-same_projects (delete_grant-projects p t s s' h);
    updates = λ p t l now s s' a h. IsValid-same_projects (update_grant-projects p t l s s' h);
    inserts = λ p t l now s s' a h. IsValid-same_projects (insert_grant-projects p t l s s' h);
  };
}

-- Whatever the caller, the request, the pool and the engine do, a sync leaves the `project` table
-- valid if it was: ids and folded paths distinct, every row in the class that its path says. This
-- includes a commit that reports an error and takes effect all the same.
pub sync_as-IsValid :
    (o : Outside) (pool : Pool) (caller : Option Text) (req : SyncProjectsRequest)
    (deadline : Deadline) (s : Store)
    → IsValid s
    → IsValid (sync_as o pool caller req deadline s).1
sync_as-IsValid o pool caller req deadline s =
    sync_as-keeps IsValid-safe o pool caller req deadline s

-- The row is still there, under its identity.
abbrev pub Survives : Project → Store → Type 0
Survives r s = (q : Project) × In q s.projects × SameIdentity r q

pub SameIdentity-refl : (r : Project) → SameIdentity r r
SameIdentity-refl r = record {
  id = refl;
  path = refl;
  owner = refl;
  created_by = refl;
  created_at = refl;
  version = omega arith;
}

pub SameIdentity-trans : {a b c : Project} → SameIdentity a b → SameIdentity b c → SameIdentity a c
SameIdentity-trans x y = record {
  id = y.id ∙ x.id;
  path = y.path ∙ x.path;
  owner = y.owner ∙ x.owner;
  created_by = y.created_by ∙ x.created_by;
  created_at = y.created_at ∙ x.created_at;
  version = omega arith;
}

Survives-same : {r : Project} (s t : Store) → t.projects ≡ s.projects → Survives r s → Survives r t
Survives-same s t e (q, m, same) = (q, subst (λ ps. In q ps) (sym e) m, same)

Survives-update :
    (r : Project) (p : Project → Bool) (f : Project → Project)
    → ((x : Project) → SameIdentity x (f x))
    → (s t : Store) → update_projects p f s ≡ ok (tt, t)
    → Survives r s
    → Survives r t
Survives-update r p f same s t h (q, m, i) =
    let (result, _) = update_projects-ok p f s t h in
    let there : Survives r (record s { projects = update_rows p f s.projects }) =
      elim (Bool-cases (p q)) [
        | inl hit ↦ (f q, In-update_rows p f q s.projects m hit, SameIdentity-trans i (same q))
        | inr miss ↦ (q, In-update_rows_other p f q s.projects m miss, i)
      ] in
    Survives-same (record s { projects = update_rows p f s.projects }) t
      (ap (λ (x : Store). x.projects) result) there

pub Survives-rows : (r : Project) → RowSafe (Survives r)
Survives-rows r = record {
  inserts = λ row now s t a h (q, m, i). (
    q,
    subst (λ (x : Store). In q x.projects) (sym (insert_project-Inserted (row now) s t h).result)
        (In-append_left q s.projects _ m),
    i,
  );
  updates = λ p f same now s t a h. Survives-update r p (f now) (same now) s t h;
}

pub Survives-safe : (r : Project) → SyncSafe (Survives r)
Survives-safe r = record {
  rows = Survives-rows r;
  grants = record {
    deletes = λ p t now s s' a h. Survives-same s s' (delete_grant-projects p t s s' h);
    updates = λ p t l now s s' a h. Survives-same s s' (update_grant-projects p t l s s' h);
    inserts = λ p t l now s s' a h. Survives-same s s' (insert_grant-projects p t l s s' h);
  };
}

-- No sync deletes a row, rewrites its id, path, owner or creator, or lowers its version: an
-- archived row is a row with another status, and a spelling that differs by case is kept.
pub sync_as-Survives :
    (o : Outside) (pool : Pool) (caller : Option Text) (req : SyncProjectsRequest)
    (deadline : Deadline) (s : Store) (r : Project)
    → In r s.projects
    → Survives r (sync_as o pool caller req deadline s).1
sync_as-Survives o pool caller req deadline s r m =
    sync_as-keeps (Survives-safe r) o pool caller req deadline s (r, m, SameIdentity-refl r)
