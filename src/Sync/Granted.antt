-- ===== src/Sync/Granted.antt =====
-- The grants that a `SyncProjects` leaves: `apply` and `sync_as` of src/write/sync.rs with the
-- writes of src/write/grants.rs.
use project_db.Base.{
  ℕ, Text, to_ascii_lowercase, ◌≡◌, sym, ap, ◌∙◌, subst, inl, inr, ◌↔◌, true, not, Bool-cases,
  Option, some, List, In, In_of_keep,
}
use project_db.Base.Distinct.{Distinct, Distinct-unique}
use project_db.Status.{ok}
use project_db.Pooled.{Deadline, Pool}
use project_db.Store.{Store, Project, Grant, is_org, is_some}
use project_db.Store.Rows.{insert_project-Inserted, update_projects-ok}
use project_db.Store.Valid.{IsValid}
use project_db.Tx.{Outside, Conn}
use project_db.Contract.{SyncProjectsRequest, SyncProjectsResponse}
use project_db.Declared.{Declared}
use project_db.Grants
use project_db.Grants.{kept, plan, stored_of, id_of}
use project_db.Grants.Keeps.{write-Keeps}
use project_db.Grants.Levels.{Declares, Declares-unique, plan-inserts, kept-stored}
use project_db.Grants.Joined.{stored_of-Join}
use project_db.Store.Granted.{pair, grant, IsGranted}
use project_db.Grants.Written.{Rewritten, write-Rewritten}
use project_db.Sync.Request.{validate}
use project_db.Sync.Declaration.{validate-IsAdmitted}
use project_db.Sync.Apply.{Guards, stored_rows, to_archive, no_counts, sync_as}
use project_db.Sync.Keeps.{SameIdentity, RowSafe, write_rows-Keeps, archive-Keeps}
use project_db.Sync.Invariant.{
  Survives, Survives-safe, SameIdentity-refl, sync_as-IsValid, sync_as-Survives,
}
use project_db.Sync.Named.{Holds, id_of-Holds}
use project_db.Sync.Ran.{Ran, sync_as-Ran}
use project_db.Sync.Revoked.{deleted-Undeclared, left-Declares}
use project_db.Sync.Steps.{key_of}

module _ (ds : List Declared) (s t : Store) (v : IsValid s) (w : IsValid t) (holds : IsGranted s)
    (survive : (r : Project) → In r s.projects → Survives r t)
    (keys : Distinct (λ (d : Declared). d.key) ds)
    (teams : (d : Declared) → In d ds → Distinct (λ (g : Text × ℕ). g.0) d.grants)
    (ids : List (Text × Text))
    (named : (key k id : Text) → id_of ids key ≡ some (k, id) → Holds key id t)
    (rewritten : Rewritten (plan ds (stored_of s)) ids s.grants t.grants) where
  -- A row that was there under an id is, if that id is now its, the row.
  same_row : (q r : Project) → In q t.projects → In r s.projects → r.id ≡ q.id → SameIdentity r q
  same_row q r m n e =
      let (r', k, same) = survive r n in
      subst (SameIdentity r)
        (Distinct-unique (λ (x : Project). x.id) t.projects w.ids r' q k m (same.id ∙ e)) same

  granted-Declares :
      (q : Project) (team : Text) (l : ℕ)
      → In q t.projects
      → is_org q ≡ true
      → In (grant q.id team l) t.grants
      → Declares ds (key_of q) team l
  granted-Declares q team l m org at = elim (rewritten.only (grant q.id team l) at) [
    | inl (key, k, n, e) ↦
        let (q', m', here, id) = named key k q.id e in
        let same = Distinct-unique (λ (x : Project). x.id) t.projects w.ids q' q m' m id in
        subst (λ x. Declares ds x team l) (sym here ∙ ap key_of same)
          ((plan-inserts ds (stored_of s) (key, team, l)).0 n).0
    | inr (h, n, is, stands, leaves) ↦
        let (r, k, id) = holds.rows h n in
        let same = same_row q r m k (id ∙ ap (λ (x : Text × Text). x.0) is) in
        let r_org : is_org r ≡ true = ap (λ x. not (is_some x)) (sym same.owner) ∙ org in
        subst (λ x. Declares ds x team l) (ap to_ascii_lowercase (sym same.path))
          (subst (λ x. Declares ds (key_of r) x l) (ap (λ (x : Text × Text). x.1) is)
            (left-Declares s v ds h r n k r_org id l stands leaves))
  ]

  declared-Granted :
      (q : Project) (team : Text) (l : ℕ)
      → In q t.projects
      → Declares ds (key_of q) team l
      → In (grant q.id team l) t.grants
  declared-Granted q team l m d = elim (Bool-cases (kept (stored_of s) (key_of q) team)) [
    | inr absent ↦
        let n = (plan-inserts ds (stored_of s) (key_of q, team, l)).1 (d, absent) in
        let (k, id, e, at) = rewritten.inserted (key_of q) team l n in
        let (q', m', here, is) = named (key_of q) k id e in
        let same =
          Distinct-unique (λ (x : Project). to_ascii_lowercase x.path) t.projects w.paths q' q m' m
            here in
        subst (λ x. In (grant x team l) t.grants) (sym is ∙ ap (λ (x : Project). x.id) same) at
    | inl stored ↦
        let (x, n, path, of_team) = kept-stored (stored_of s) (key_of q) team stored in
        let (h, i, r, k, org, id, is) = (stored_of-Join s x).0 n in
        let (r', k', same) = survive r k in
        let key : key_of r ≡ key_of q =
          ap (λ (y : Grants.StoredGrant). to_ascii_lowercase y.path) (sym is) ∙ path in
        let at_q =
          Distinct-unique (λ (y : Project). to_ascii_lowercase y.path) t.projects w.paths r' q k' m
            (ap to_ascii_lowercase same.path ∙ key) in
        let has_team : h.team_id ≡ team =
          ap (λ (y : Grants.StoredGrant). y.team_id) (sym is) ∙ of_team in
        let d' : Declares ds (key_of r) h.team_id l =
          subst (λ y. Declares ds y h.team_id l) (sym key)
            (subst (λ y. Declares ds (key_of q) y l) (sym has_team) d) in
        let stands : ¬ (In (pair h) (plan ds (stored_of s)).deletes) =
          λ gone. deleted-Undeclared s v ds h r i k org id l gone d' in
        let (l', there, leaves) = rewritten.stays h i stands in
        let level =
          Declares-unique ds keys teams (key_of r) h.team_id l' l
            (left-Declares s v ds h r i k org id l' stands leaves) d' in
        let at_id : h.project_id ≡ q.id = sym id ∙ sym same.id ∙ ap (λ (y : Project). y.id) at_q in
        subst (λ y. In (grant y team l) t.grants) at_id
          (subst (λ y. In (grant h.project_id y l) t.grants) has_team
            (subst (λ y. In (grant h.project_id h.team_id y) t.grants) level there))
  ]

-- The statements on projects leave the grants as they were.
same_grants-rows : (gs : List Grant) → RowSafe (λ t. t.grants ≡ gs)
same_grants-rows gs = record {
  inserts = λ row now s t a h e.
      ap (λ (x : Store). x.grants) (insert_project-Inserted (row now) s t h).result ∙ e;
  updates = λ p f same now s t a h e.
      ap (λ (x : Store). x.grants) (update_projects-ok p (f now) s t h).0 ∙ e;
}

-- The grants are as declared: on each organisation's row exactly those that the declaration gives
-- it.
abbrev pub Granted : List Declared → Store → Type 0
Granted ds t =
    (q : Project)
    → In q t.projects
    → is_org q ≡ true
    → (team : Text) (l : ℕ) → In (grant q.id team l) t.grants ↔ Declares ds (key_of q) team l

stored-Survives : (s : Store) (p : Project) → In p (stored_rows s) → Survives p s
unfolding stored_rows
stored-Survives s p m = (p, (In_of_keep is_org p s.projects m).0, SameIdentity-refl p)

module _ {o : Outside} (declared : List Declared) {actor : Text} {guards : Guards} (s : Store)
    {answer : SyncProjectsResponse} {t : Store} (r : Ran o declared actor guards s answer t) where
  abbrev stored : List Project
  stored = stored_rows s

  abbrev grants : Grants.GrantPlan
  grants = plan declared (stored_of s)

  -- The grants are rewritten by the plan, from those at the start.
  Ran-Rewritten : Rewritten grants r.ids s.grants t.grants
  Ran-Rewritten =
      let written =
        (write_rows-Keeps (same_grants-rows s.grants) o actor stored declared no_counts).keep r.c₀
          (ap (λ (x : Store). x.grants) r.start) in
      let wrote : r.c₁.store.grants ≡ s.grants =
        subst (λ (x : Conn). x.store.grants ≡ s.grants) (ap (λ p. p.1) r.wrote) written in
      let archiving =
        (archive-Keeps (same_grants-rows s.grants) o actor (to_archive declared stored)).keep r.c₁
          wrote in
      let archived : r.c₂.store.grants ≡ s.grants =
        subst (λ (x : Conn). x.store.grants ≡ s.grants) (ap (λ p. p.1) r.archived) archiving in
      subst (λ (x : Store). Rewritten grants r.ids s.grants x.grants) r.ends
        (subst (λ gs. Rewritten grants r.ids gs r.c₃.store.grants) archived
          (write-Rewritten o grants r.ids r.c₂ r.granted))

  -- A row that the loop left survives the archive and the grants.
  Ran-Survives : (q : Project) → In q r.c₁.store.projects → Survives q t
  Ran-Survives q m =
      let archiving =
        (archive-Keeps (Survives-safe q).rows o actor (to_archive declared stored)).keep r.c₁
          (q, m, SameIdentity-refl q) in
      let archived =
        subst (λ (x : Conn). Survives q x.store) (ap (λ p. p.1) r.archived) archiving in
      let granting = (write-Keeps (Survives-safe q).grants o grants r.ids).keep r.c₂ archived in
      subst (Survives q) r.ends
        (subst (λ (x : Conn). Survives q x.store) (ap (λ p. p.1) r.granted) granting)

  Ran-named :
      ((d : Declared) → In d declared → d.key ≡ to_ascii_lowercase d.path)
      → (key k id : Text) → id_of r.ids key ≡ some (k, id)
      → Holds key id t
  Ran-named folded key k id e =
      let there : (p : Project) → In p stored → Survives p r.c₀.store =
        λ p m. subst (Survives p) (sym r.start) (stored-Survives s p m) in
      let (q, m, at, is) =
        id_of-Holds o actor stored declared no_counts r.c₀ r.wrote folded there key e in
      let (q', n, same) = Ran-Survives q m in
      (q', n, ap to_ascii_lowercase same.path ∙ at, same.id ∙ is)

-- When a sync on valid tables, with the keys of the grants kept, is answered with counts, the
-- grants on each organisation's row are exactly those, at those levels, that the request's valid
-- declaration gives to the row's folded path: what it does not name is revoked, what it names anew
-- granted, and what it names at another level changed.
pub sync_as-Granted :
    (o : Outside) (pool : Pool) (caller : Option Text) (req : SyncProjectsRequest)
    (deadline : Deadline) (s t : Store) {response : SyncProjectsResponse}
    → sync_as o pool caller req deadline s ≡ (ok response, t)
    → IsValid s
    → IsGranted s
    → (rows : List Declared) × (validate req ≡ ok rows) × Granted rows t
sync_as-Granted o pool caller req deadline s t h v holds =
    let (actor, rows, valid, ran) = sync_as-Ran o pool caller req deadline s t h in
    let admitted = validate-IsAdmitted req valid in
    let ends = ap (λ p. p.1) h in
    let w : IsValid t = subst IsValid ends (sync_as-IsValid o pool caller req deadline s v) in
    let survive : (r : Project) → In r s.projects → Survives r t =
      λ r m. subst (Survives r) ends (sync_as-Survives o pool caller req deadline s r m) in
    let teams : (d : Declared) → In d rows → Distinct (λ (g : Text × ℕ). g.0) d.grants =
      λ d m. (admitted.declared d m).teams in
    let named = Ran-named rows s ran (λ d m. (admitted.declared d m).folded) in
    let rewritten = Ran-Rewritten rows s ran in
    (
      rows,
      valid,
      λ q m org team l. (
        granted-Declares rows s t v w holds survive admitted.keys teams ran.ids named rewritten q
            team l m org,
        declared-Granted rows s t v w holds survive admitted.keys teams ran.ids named rewritten q
            team l m,
      ),
    )
