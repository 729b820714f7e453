-- ===== src/Sync/Ran.antt =====
-- A run of `apply` (src/write/sync.rs) that returned, step by step.
use project_db.Base.{
  Text, ◌≡◌, refl, sym, ap, ◌∙◌, subst, Option, Option-cases, inl, inr, List, length, keep,
}
use project_db.Status.{Status, Result, ok, err, Result-cases, >>=-eq-ok}
use project_db.Pooled.{Deadline, Pool, acquire}
use project_db.Store.{Store, Project}
use project_db.Tx.{
  Outside, Conn, Tx, select, pure, lift, ◌>>=◌, Ended, committing, rolling_back, committed,
  rolled_back, settle, transact, continue,
}
use project_db.Tx.Laws.{>>=-returns, select-returns}
use project_db.Contract.{SyncProjectsRequest, SyncProjectsResponse}
use project_db.Sync.Request.{admitted, validate}
use project_db.Declared.{Declared}
use project_db.Grants
use project_db.Sync.Apply.{
  Guards, apply, take_lock, stored_rows, declared_alias, check_alias, to_archive, guard, write_rows,
  archive, is_active, no_counts, finish, outcome, ended, sync_as, checked, guards_of,
}

-- The stored rows and the plan are those of the tables at the start.
pub record Ran (o : Outside) (declared : List Declared) (actor : Text) (guards : Guards) (s : Store)
    (answer : SyncProjectsResponse) (t : Store) : Type 0 where
  pub c₀ : Conn
  pub c₁ : Conn
  pub c₂ : Conn
  pub c₃ : Conn
  pub ids : List (Text × Text)
  pub counted : SyncProjectsResponse
  pub start : c₀.store ≡ s
  pub archiving :
      guard
        (length (to_archive declared (stored_rows s)))
        (length (keep is_active (stored_rows s)))
        guards.allow_mass_archive
      ≡ ok tt
  pub revoking :
      Grants.revoke_guard
        (length (Grants.plan declared (Grants.stored_of s)).deletes)
        (length (Grants.stored_of s))
        guards.allow_mass_revoke
      ≡ ok tt
  pub wrote : write_rows o actor (stored_rows s) declared no_counts c₀ ≡ (ok (ids, counted), c₁)
  pub archived : archive o actor (to_archive declared (stored_rows s)) c₁ ≡ (ok tt, c₂)
  pub granted : Grants.write o (Grants.plan declared (Grants.stored_of s)) ids c₂ ≡ (ok tt, c₃)
  pub answered :
      answer
      ≡ finish declared
          (to_archive declared (stored_rows s))
          (Grants.plan declared (Grants.stored_of s))
          counted
  pub ends : c₃.store ≡ t

lift-returns :
    {E A : Type 0} (r : Result E A) (c : Conn) {a : A} {d : Conn}
    → lift r c ≡ (ok a, d)
    → (r ≡ ok a) × (d ≡ c)
lift-returns r c h = (ap (λ p. p.0) h, sym (ap (λ p. p.1) h))

module _ (o : Outside) (declared : List Declared) (actor : Text) (guards : Guards) where
  -- The writes, after the plan was made.
  abbrev pub writes : List Project → Grants.GrantPlan → Tx Status SyncProjectsResponse
  writes stored plan = write_rows o actor stored declared no_counts >>= λ w.
      archive o actor (to_archive declared stored) >>= λ _.
      Grants.write o plan w.0 >>= λ _. pure (finish declared (to_archive declared stored) plan w.1)

  writes-Ran :
      (s : Store) (c : Conn) {a : SyncProjectsResponse} {d : Conn}
      → c.store ≡ s
      → guard
          (length (to_archive declared (stored_rows s)))
          (length (keep is_active (stored_rows s)))
          guards.allow_mass_archive
        ≡ ok tt
      → Grants.revoke_guard
          (length (Grants.plan declared (Grants.stored_of s)).deletes)
          (length (Grants.stored_of s))
          guards.allow_mass_revoke
        ≡ ok tt
      → writes (stored_rows s) (Grants.plan declared (Grants.stored_of s)) c ≡ (ok a, d)
      → Ran o declared actor guards s a d.store
  writes-Ran s c start archiving revoking h =
      let stored = stored_rows s in
      let plan = Grants.plan declared (Grants.stored_of s) in
      let (w, c₁, e₁, h₁) = >>=-returns (write_rows o actor stored declared no_counts) _ c h in
      let (_, c₂, e₂, h₂) = >>=-returns (archive o actor (to_archive declared stored)) _ c₁ h₁ in
      let (_, c₃, e₃, h₃) = >>=-returns (Grants.write o plan w.0) _ c₂ h₂ in
      record {
        c₀ = c;
        c₁ = c₁;
        c₂ = c₂;
        c₃ = c₃;
        ids = w.0;
        counted = w.1;
        start = start;
        archiving = archiving;
        revoking = revoking;
        wrote = e₁;
        archived = e₂;
        granted = e₃;
        answered = sym (cc (ap (λ p. p.0) h₃));
        ends = ap (λ p. p.1.store) h₃;
      }

  -- What a run of `apply` that returned has done.
  pub apply-Ran :
      (c : Conn) {a : SyncProjectsResponse} {d : Conn}
      → apply o declared actor guards c ≡ (ok a, d)
      → Ran o declared actor guards c.store a d.store
  unfolding apply take_lock
  apply-Ran c {a} {d} h =
      let (_, c₁, e₁, h₁) = >>=-returns (take_lock o) _ c h in
      let (stored, c₂, e₂, h₂) = >>=-returns (select o stored_rows) _ c₁ h₁ in
      let (alias, c₃, e₃, h₃) = >>=-returns (select o (declared_alias declared)) _ c₂ h₂ in
      let (_, c₄, e₄, h₄) = >>=-returns (lift (check_alias declared alias)) _ c₃ h₃ in
      let (_, c₅, e₅, h₅) =
        >>=-returns
          (lift (
            guard (length (to_archive declared stored)) (length (keep is_active stored))
              guards.allow_mass_archive))
          _ c₄ h₄ in
      let (grants, c₆, e₆, h₆) = >>=-returns (select o Grants.stored_of) _ c₅ h₅ in
      let (_, c₇, e₇, h₇) =
        >>=-returns
          (lift (
            Grants.revoke_guard (length (Grants.plan declared grants).deletes) (length grants)
              guards.allow_mass_revoke))
          _ c₆ h₆ in
      let at₁ = (select-returns o (λ _. tt) c e₁).1 in
      let (is, at₂) = select-returns o stored_rows c₁ e₂ in
      let at₃ = (select-returns o (declared_alias declared) c₂ e₃).1 in
      let at₄ = ap (λ (x : Conn). x.store) (lift-returns _ c₃ e₄).1 in
      let (archiving, same₅) = lift-returns _ c₄ e₅ in
      let (are, at₆) = select-returns o Grants.stored_of c₅ e₆ in
      let (revoking, same₇) = lift-returns _ c₆ e₇ in
      let at₅ : c₅.store ≡ c.store = ap (λ (x : Conn). x.store) same₅ ∙ at₄ ∙ at₃ ∙ at₂ ∙ at₁ in
      let rows : stored ≡ stored_rows c.store = is ∙ ap stored_rows at₁ in
      let held : grants ≡ Grants.stored_of c.store = are ∙ ap Grants.stored_of at₅ in
      writes-Ran c.store c₇ (ap (λ (x : Conn). x.store) same₇ ∙ at₆ ∙ at₅)
        (subst
          (λ rs.
            guard (length (to_archive declared rs)) (length (keep is_active rs))
              guards.allow_mass_archive
            ≡ ok tt)
          rows archiving)
        (subst
          (λ gs.
            Grants.revoke_guard (length (Grants.plan declared gs).deletes) (length gs)
              guards.allow_mass_revoke
            ≡ ok tt)
          held revoking)
        (subst (λ gs. writes (stored_rows c.store) (Grants.plan declared gs) c₇ ≡ (ok a, d)) held
          (subst (λ rs. writes rs (Grants.plan declared grants) c₇ ≡ (ok a, d)) rows h₇))

not_ok : {A : Type 0} {e : Status} {a : A} → ◌≡◌ {A = Result Status A} (err e) (ok a) → ⊥
not_ok h = cc

checked-ok :
    (caller : Option Text) (req : SyncProjectsRequest) {actor : Text} {rows : List Declared}
    → checked caller req ≡ ok (actor, rows)
    → validate req ≡ ok rows
unfolding checked
checked-ok caller req {actor} {rows} h =
    let (a, _, h₁) = >>=-eq-ok (admitted caller req.scope) _ h in
    let (ds, e, h₂) = >>=-eq-ok (validate req) _ h₁ in e ∙ ap ok (same h₂)
  where
    same :
        {a b : Text} {x y : List Declared}
        → ◌≡◌ {A = Result Status (Text × List Declared)} (ok (a, x)) (ok (b, y))
        → x ≡ y
    same h = cc

-- A transaction that was answered with its own value committed: the tables are those that its body
-- left.
settled :
    {A : Type 0} (o : Outside) (before : Store) (r : Result Status A) (c : Conn) {a : A} {t : Store}
    → settle o before (ok (ended r), c) ≡ (ok a, t)
    → (r ≡ ok a) × (c.store ≡ t)
unfolding settle
settled o before (ok b) c h = elim (Option-cases (o.fault c.step)) [
  | inl calm ↦ let e = rw (calm, settle) at h in (ap (λ p. p.0) e, ap (λ p. p.1) e)
  | inr (fault, e) ↦ absurd (not_ok (ap (λ p. p.0) (rw (e, settle) at h)))
]
  where
    not_ok : {A : Type 0} {e : Status} {a : A} → ◌≡◌ {A = Result Status A} (err e) (ok a) → ⊥
    not_ok h = cc
settled o before (err s) c h = elim (Option-cases (o.fault c.step)) [
  | inl calm ↦ absurd (not_ok (ap (λ p. p.0) (rw (calm, settle) at h)))
  | inr (fault, e) ↦ absurd (not_ok (ap (λ p. p.0) (rw (e, settle) at h)))
]
  where
    not_ok : {A : Type 0} {e : Status} {a : A} → ◌≡◌ {A = Result Status A} (err e) (ok a) → ⊥
    not_ok h = cc

-- A transaction that was answered by its body: BEGIN returned, the body returned that answer, and
-- the tables are those that it left.
transact-outcome :
    {A : Type 0} (o : Outside) (m : Tx Status A) (s : Store) {a : A} {t : Store}
    → transact o (outcome m) s ≡ (ok a, t)
    → (c : Conn) × (d : Conn) × (c.store ≡ s) × (m c ≡ (ok a, d)) × (d.store ≡ t)
unfolding transact
transact-outcome {A} o m s h =
    let start : Conn = record { store = s; step = 0 } in
    begun (select o (λ _. tt) start).0 (select o (λ _. tt) start).1 h (λ u e.
      (select-returns o (λ _. tt) start
        (ap {B = Result Status (Unit {0}) × Conn} (λ r. (r, (select o (λ _. tt) start).1)) e)).1)
  where
    begun :
        (r : Result Status (Unit {0})) (c : Conn) {a : A} {t : Store}
        → settle o s (project_db.Tx.continue r (λ _. outcome m) c) ≡ (ok a, t)
        → ((u : Unit {0}) → r ≡ ok u → c.store ≡ s)
        → (c : Conn) × (d : Conn) × (c.store ≡ s) × (m c ≡ (ok a, d)) × (d.store ≡ t)
    begun (ok u) c h same =
        let (e, k) = settled o s (m c).0 (m c).1 h in
        (c, (m c).1, same u refl, ap {B = Result Status A × Conn} (λ r. (r, (m c).1)) e, k)
    begun (err e) c h same = absurd (unfold settle in not_ok (ap (λ p. p.0) h))

-- A sync that is answered with counts has run on a valid request's rows.
pub sync_as-Ran :
    (o : Outside) (pool : Pool) (caller : Option Text) (req : SyncProjectsRequest)
    (deadline : Deadline) (s t : Store) {response : SyncProjectsResponse}
    → sync_as o pool caller req deadline s ≡ (ok response, t)
    → (actor : Text) × (rows : List Declared) × (validate req ≡ ok rows)
      × Ran o rows actor (guards_of req) s response t
unfolding sync_as
sync_as-Ran o pool caller req deadline s t {response} h = elim (Result-cases (checked caller req)) [
  | inr (e, c) ↦ absurd (not_ok (ap (λ p. p.0) (rw (c, sync_as) at h)))
  | inl ((actor, rows), c) ↦ elim (Result-cases (acquire pool deadline)) [
    | inr (e, a) ↦ absurd (not_ok (ap (λ p. p.0) (rw (c, sync_as, a) at h)))
    | inl (_, a) ↦
        let (c₁, d, e, run, k) =
          transact-outcome o (apply o rows actor (guards_of req)) s (rw (c, sync_as, a) at h) in
        (
          actor,
          rows,
          checked-ok caller req c,
          subst (λ u. Ran o rows actor (guards_of req) u response t) e
              (subst (Ran o rows actor (guards_of req) c₁.store response) k
                (apply-Ran o rows actor (guards_of req) c₁ run)),
        )
  ]
]
