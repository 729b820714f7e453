-- ===== src/Sync/Outcome.antt =====
-- What a `SyncProjects` that is answered has done: `apply` and `sync_as` of src/write/sync.rs.
use project_db.Base.{
  Text, to_ascii_lowercase, ◌≡◌, refl, sym, ap, ◌∙◌, subst, ◌⊎◌, inl, inr, true, Option, List, In,
}
use project_db.Base.Distinct.{Distinct}
use project_db.Status.{Status, ok, err, Result-cases}
use project_db.Pooled.{Deadline, Pool, acquire}
use project_db.Store.{Store}
use project_db.Store.Valid.{IsValid}
use project_db.Tx.{Outside}
use project_db.Tx.Atomic.{transact-err}
use project_db.Contract.{SyncProjectsRequest, SyncProjectsResponse}
use project_db.Declared.{Declared}
use project_db.Grants
use project_db.Grants.Keeps.{write-Keeps, same_projects-GrantSafe}
use project_db.Sync.Request.{validate}
use project_db.Sync.Declaration.{validate-IsAdmitted}
use project_db.Sync.Apply.{Guards, stored_rows, to_archive, no_counts, sync_as, checked}
use project_db.Sync.Ran.{Ran, sync_as-Ran}
use project_db.Sync.Loop.{Ready, Written, write_rows-Written, archive-update_rows}
use project_db.Sync.Converge.{Converged, Ready-of_stored_rows, archived-Converged}

-- A run that returned has left the tables as declared.
Ran-Converged :
    {o : Outside} (declared : List Declared) {actor : Text} {guards : Guards} (s : Store)
    {answer : SyncProjectsResponse} {t : Store}
    → Ran o declared actor guards s answer t
    → IsValid s
    → ((d : Declared) → In d declared → d.key ≡ to_ascii_lowercase d.path)
    → Distinct (λ (d : Declared). d.key) declared
    → Converged declared t
Ran-Converged {o} declared {actor} s r v folded keys =
    let stored = stored_rows s in
    let ids = to_archive declared stored in
    let plan = Grants.plan declared (Grants.stored_of s) in
    let ready = Ready-of_stored_rows declared s v folded keys in
    let written =
      subst (λ x. Written declared x r.c₁.store) r.start
        (write_rows-Written o actor stored declared no_counts r.c₀ r.wrote
          (subst (Ready stored declared) (sym r.start) ready)) in
    let kept =
      (write-Keeps (same_projects-GrantSafe r.c₂.store.projects) o plan r.ids).keep r.c₂ refl in
    let after : r.c₃.store.projects ≡ r.c₂.store.projects =
      ap (λ p. p.1.store.projects) (sym r.granted) ∙ kept in
    subst (Converged declared) r.ends (
      archived-Converged declared s r.c₁.store written actor (o.now r.c₁.step) r.c₃.store
        (after ∙ archive-update_rows o actor ids r.c₁ r.archived))

-- When a sync on valid tables is answered with counts, its request was valid and the tables hold
-- exactly its declaration: every declared row is stored under its folded path as an active
-- organisation's row with the declared name and repository, and every organisation's row that is
-- active is declared.
pub sync_as-Converged :
    (o : Outside) (pool : Pool) (caller : Option Text) (req : SyncProjectsRequest)
    (deadline : Deadline) (s t : Store) {response : SyncProjectsResponse}
    → sync_as o pool caller req deadline s ≡ (ok response, t)
    → IsValid s
    → (rows : List Declared) × (validate req ≡ ok rows) × Converged rows t
sync_as-Converged o pool caller req deadline s t h v =
    let (actor, rows, valid, ran) = sync_as-Ran o pool caller req deadline s t h in
    let admitted = validate-IsAdmitted req valid in
    (rows, valid, Ran-Converged rows s ran v (λ x m. (admitted.declared x m).folded) admitted.keys)

-- A sync that is refused or fails has changed nothing, in any table, unless the engine took a
-- commit that it did not acknowledge.
pub sync_as-err :
    (o : Outside) (pool : Pool) (caller : Option Text) (req : SyncProjectsRequest)
    (deadline : Deadline) (s t : Store) {e : Status}
    → sync_as o pool caller req deadline s ≡ (err e, t)
    → (t ≡ s) ⊎ (o.commit_lands ≡ true)
unfolding sync_as
sync_as-err o pool caller req deadline s t h = elim (Result-cases (checked caller req)) [
  | inr (e, c) ↦ inl (sym (ap (λ p. p.1) (rw (c, sync_as) at h)))
  | inl ((actor, rows), c) ↦ elim (Result-cases (acquire pool deadline)) [
    | inr (e, a) ↦ inl (sym (ap (λ p. p.1) (rw (c, sync_as, a) at h)))
    | inl (_, a) ↦ transact-err o _ s (rw (c, sync_as, a) at h)
  ]
]
