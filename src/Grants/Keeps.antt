-- ===== src/Grants/Keeps.antt =====
-- What the grant writes of src/write/grants.rs keep.
use project_db.Base.{ℕ, Text, List, [], ◌∷◌, Option-cases, inl, inr, ◌≡◌, ◌∙◌}
use project_db.Store.{Store, Project, delete_grant, update_grant, insert_grant}
use project_db.Store.Rows.{delete_grant-projects, update_grant-projects, insert_grant-projects}
use project_db.Tx.{Outside}
use project_db.Tx.Keeps.{Keeps, Allowed, Keeps-execute, Keeps-bind, Keeps-pure, Keeps-raise}
use project_db.Grants.{GrantPlan, write_deletes, write_updates, write_inserts, write, id_of}

-- A predicate that every statement on grants keeps.
pub record GrantSafe (P : Store → Type 0) : Type 0 where
  pub deletes : (project team : Text) → Allowed P (λ _. delete_grant project team)
  pub updates : (project team : Text) (l : ℕ) → Allowed P (λ _. update_grant project team l)
  pub inserts : (project team : Text) (l : ℕ) → Allowed P (λ _. insert_grant project team l)

module _ {P : Store → Type 0} (safe : GrantSafe P) (o : Outside) where
  write_deletes-Keeps : (ds : List (Text × Text)) → Keeps P (write_deletes o ds)
  unfolding write_deletes
  write_deletes-Keeps [] = Keeps-pure _
  write_deletes-Keeps ((p, t) ∷ ds) =
      Keeps-bind _ _ (Keeps-execute o _ (safe.deletes p t)) λ _. write_deletes-Keeps ds

  write_updates-Keeps : (us : List (Text × Text × ℕ)) → Keeps P (write_updates o us)
  unfolding write_updates
  write_updates-Keeps [] = Keeps-pure _
  write_updates-Keeps ((p, t, l) ∷ us) =
      Keeps-bind _ _ (Keeps-execute o _ (safe.updates p t l)) λ _. write_updates-Keeps us

  write_inserts-Keeps :
      (ids : List (Text × Text)) (is : List (Text × Text × ℕ)) → Keeps P (write_inserts o ids is)
  unfolding write_inserts
  write_inserts-Keeps ids [] = Keeps-pure _
  write_inserts-Keeps ids ((k, t, l) ∷ is) = elim (Option-cases (id_of ids k)) [
    | inl e ↦ rw (e, write_inserts) (Keeps-raise _)
    | inr ((k', p), e) ↦
        rw (e, write_inserts)
          (Keeps-bind _ _ (Keeps-execute o _ (safe.inserts p t l)) λ _. write_inserts-Keeps ids is)
  ]

  pub write-Keeps : (p : GrantPlan) (ids : List (Text × Text)) → Keeps P (write o p ids)
  unfolding write
  write-Keeps p ids =
      Keeps-bind _ _ (write_deletes-Keeps p.deletes)
        λ _. Keeps-bind _ _ (write_updates-Keeps p.updates) λ _. write_inserts-Keeps ids p.inserts

-- They leave the projects as they were.
pub same_projects-GrantSafe : (ps : List Project) → GrantSafe (λ t. t.projects ≡ ps)
same_projects-GrantSafe ps = record {
  deletes = λ p t now s s' a h e. delete_grant-projects p t s s' h ∙ e;
  updates = λ p t l now s s' a h e. update_grant-projects p t l s s' h ∙ e;
  inserts = λ p t l now s s' a h e. insert_grant-projects p t l s s' h ∙ e;
}
