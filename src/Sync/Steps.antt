-- ===== src/Sync/Steps.antt =====
-- What one declared row makes of the tables: `write_one` of src/write/sync.rs.
use project_db.Base.{
  ℕ, Text, codes, text_eq, text_eq_iff, to_ascii_lowercase, ◌≡◌, ◌≢◌, refl, sym, ap, ◌∙◌, subst,
  inl, inr, true, not, ◌&&◌, Option, none, some, Bool-cases, List, [], ◌∷◌, ◌++◌, In,
  In-append_left, In-append_right, In-append_cases, In_of_find_last, arith, ==_iff,
}
use project_db.Base.Distinct.{Distinct-unique}
use project_db.Status.{Status, Result, ok}
use project_db.Sql.{EngineError}
use project_db.Store.{Store, Project, active, is_org, has_id, insert_project, update_projects}
use project_db.Store.Rows.{
  insert_project-Inserted, update_projects-ok, In-update_rows, In-update_rows_other,
  In_of_update_rows, has_id_iff-to,
}
use project_db.Store.Valid.{IsValid}
use project_db.Tx.{Outside, Conn, execute, draw_uuid, pure, ◌>>◌}
use project_db.Tx.Laws.{>>=-returns, execute-returns, draw_uuid-returns}
use project_db.Contract.{SyncProjectsResponse}
use project_db.Declared.{Declared}
use project_db.Sync.Apply.{
  insert, overwrite, write_one, by_key, differs, reactivating, overwritten, fresh, text_is,
  count_overwritten, count_inserted, count_unchanged,
}

-- The key that the store takes a path for.
abbrev pub key_of : Project → Text
key_of r = to_ascii_lowercase r.path

-- The row is stored as the declaration wants it.
pub record AsDeclared (d : Declared) (q : Project) : Type 0 where
  pub key : key_of q ≡ d.key
  pub org : is_org q ≡ true
  pub status : q.status ≡ active
  pub display_name : q.display_name ≡ d.display_name
  pub source_repo : q.source_repo ≡ some d.source_repo

-- Two stores hold the same rows at every path but one.
pub record Frame (key : Text) (s t : Store) : Type 0 where
  pub stays : (q : Project) → key_of q ≢ key → In q s.projects → In q t.projects
  pub stood : (q : Project) → key_of q ≢ key → In q t.projects → In q s.projects

-- What a step makes of a declared row.
abbrev pub Met : Declared → Store → Type 0
Met d t = (q : Project) × In q t.projects × AsDeclared d q

abbrev pub Done : Declared → Store → Store → Type 0
Done d s t = Met d t × Frame d.key s t

Frame-refl : (key : Text) (s : Store) → Frame key s s
Frame-refl key s = record { stays = λ q n m. m; stood = λ q n m. m }

has_id_self : (r : Project) → has_id r.id r ≡ true
unfolding has_id
has_id_self r = (text_eq_iff r.id r.id).1 refl

inserted-Done :
    (row : Project) (d : Declared) (s t : Store)
    → insert_project row s ≡ ok (tt, t)
    → AsDeclared d row
    → Done d s t
inserted-Done row d s t h as_declared =
    let i = insert_project-Inserted row s t h in
    let u : Store = record s { projects = s.projects ++ row ∷ [] } in
    subst (Done d s) (sym i.result) (
      (row, In-append_right row s.projects (row ∷ []) (inl refl), as_declared),
      record {
        stays = λ q n m. In-append_left q s.projects (row ∷ []) m;
        stood = λ q n m. elim (In-append_cases q s.projects (row ∷ []) m) [
          | inl l ↦ l
          | inr (inl e) ↦ absurd (n (ap key_of e ∙ as_declared.key))
          | inr (inr k) ↦ absurd k
        ];
      },
    )

-- An update of the one row with an id touches no row at another key.
updated-Done :
    (f : Project → Project) (r : Project) (d : Declared) (s t : Store)
    → IsValid s
    → In r s.projects
    → key_of r ≡ d.key
    → ((x : Project) → key_of (f x) ≡ key_of x)
    → AsDeclared d (f r)
    → update_projects (has_id r.id) f s ≡ ok (tt, t)
    → Done d s t
updated-Done f r d s t v m k same as_declared h =
    let (result, _) = update_projects-ok (has_id r.id) f s t h in
    let hit = has_id_self r in
    let is_r : (x : Project) → In x s.projects → has_id r.id x ≡ true → x ≡ r = λ x n t.
      Distinct-unique (λ (y : Project). y.id) s.projects v.ids x r n m (has_id_iff-to r.id x t) in
    subst (Done d s) (sym result) (
      (f r, In-update_rows (has_id r.id) f r s.projects m hit, as_declared),
      record {
        stays = λ q n i. elim (Bool-cases (has_id r.id q)) [
          | inl t ↦ absurd (n (ap key_of (is_r q i t) ∙ k))
          | inr t ↦ In-update_rows_other (has_id r.id) f q s.projects i t
        ];
        stood = λ q n i. elim (In_of_update_rows (has_id r.id) f q s.projects i) [
          | inl (a, j, t, e) ↦ absurd (n (ap key_of e ∙ same a ∙ ap key_of (is_r a j t) ∙ k))
          | inr (j, t) ↦ j
        ];
      },
    )

-- `by_key.get` finds a stored row at the key.
pub by_key-some :
    (stored : List Project) (key : Text) {r : Project}
    → by_key stored key ≡ some r
    → In r stored × (key_of r ≡ key)
unfolding by_key
by_key-some stored key {r} h =
    let (m, e) = In_of_find_last (λ s. text_eq (to_ascii_lowercase s.path) key) stored h in
    (m, (text_eq_iff (key_of r) key).0 e)

-- The effect of a chain's end.
pub pure_store :
    {A : Type 0} (a : A) (c : Conn) {b : A} {d : Conn}
    → ◌≡◌ {A = Result Status A × Conn} (pure a c) (ok b, d)
    → c.store ≡ d.store
pure_store a c h = ap (λ p. p.1.store) h

insert-Done :
    (o : Outside) (actor : Text) (d : Declared) (c : Conn) {id : Text} {c' : Conn}
    → insert o actor d c ≡ (ok id, c')
    → d.key ≡ to_ascii_lowercase d.path
    → Done d c.store c'.store
unfolding insert
insert-Done o actor d c h k =
    let id_of : Text → Text = λ uuid. codes "yadgar:project:" ++ uuid in
    let run : Text → ℕ → Store → Result EngineError (Unit {0} × Store) =
      λ uuid now. insert_project (fresh (id_of uuid) d actor now) in
    let (uuid, c₁, e₁, h₁) =
      >>=-returns (draw_uuid o) (λ uuid. execute o (run uuid) >> pure (id_of uuid)) c h in
    let (_, same) = draw_uuid-returns o c e₁ in
    let (_, c₂, e₂, h₂) = >>=-returns (execute o (run uuid)) (λ _. pure (id_of uuid)) c₁ h₁ in
    let effect = execute-returns o (run uuid) c₁ e₂ in
    let done =
      inserted-Done (fresh (id_of uuid) d actor (o.now c₁.step)) d c₁.store c₂.store effect
        (record {
          key = sym k;
          org = refl;
          status = refl;
          display_name = refl;
          source_repo = refl;
        }) in
    subst (λ t. Done d c.store t) (pure_store (id_of uuid) c₂ h₂)
      (subst (λ (x : Conn). Done d x.store c₂.store) same done)

overwrite-Done :
    (o : Outside) (actor : Text) (d : Declared) (r : Project) (c : Conn) {c' : Conn}
    → overwrite o actor d r c ≡ (ok tt, c')
    → IsValid c.store
    → In r c.store.projects
    → key_of r ≡ d.key
    → is_org r ≡ true
    → Done d c.store c'.store
unfolding overwrite
overwrite-Done o actor d r c {c'} h v m k org =
    updated-Done (overwritten d actor (o.now c.step)) r d c.store c'.store v m k (λ x. refl)
      (record { key = k; org = org; status = refl; display_name = refl; source_repo = refl })
      (execute-returns o (λ now. update_projects (has_id r.id) (overwritten d actor now)) c h)

text_is-some : (o : Option Text) (t : Text) → text_is o t ≡ true → o ≡ some t
text_is-some none t h = cc
text_is-some (some s) t h = ap some ((text_eq_iff s t).0 h)

-- A row that neither differs nor is archived is as declared.
unchanged-AsDeclared :
    (d : Declared) (r : Project)
    → (not (differs d r) && not (reactivating r)) ≡ true
    → key_of r ≡ d.key
    → is_org r ≡ true
    → AsDeclared d r
unfolding differs reactivating
unchanged-AsDeclared d r h k org = record {
  key = k;
  org = org;
  status = (==_iff r.status active).0 (ground arith);
  display_name = (text_eq_iff r.display_name d.display_name).0 (ground arith);
  source_repo = text_is-some r.source_repo d.source_repo (ground arith);
}

-- The row that a lookup found is there, at the key, and organisation's.
abbrev pub FoundIn : Store → Declared → Option Project → Type 0
FoundIn s d none = Unit
FoundIn s d (some r) = In r s.projects × (key_of r ≡ d.key) × (is_org r ≡ true)

-- A declared row that was written, or left as it was, is stored as declared, and no row at another
-- key has changed.
pub write_one-Done :
    (o : Outside) (actor : Text) (d : Declared) (found : Option Project)
    (response : SyncProjectsResponse) (c : Conn) {x : Text × SyncProjectsResponse} {c' : Conn}
    → write_one o actor d found response c ≡ (ok x, c')
    → IsValid c.store
    → d.key ≡ to_ascii_lowercase d.path
    → FoundIn c.store d found
    → Done d c.store c'.store
unfolding write_one
write_one-Done o actor d none response c h v k f =
    let (id, c₁, e₁, h₁) =
      >>=-returns (insert o actor d) (λ id. pure (id, count_inserted response)) c h in
    subst (λ t. Done d c.store t) (pure_store (id, count_inserted response) c₁ h₁)
      (insert-Done o actor d c e₁ k)
write_one-Done o actor d (some r) response c {c' = c'} h v k (m, at, org) =
    elim (Bool-cases (not (differs d r) && not (reactivating r))) [
      | inl same ↦
          subst (λ t. Done d c.store t)
            (pure_store (r.id, count_unchanged response) c (rw same at h))
            ((r, m, unchanged-AsDeclared d r same at org), Frame-refl d.key c.store)
      | inr other ↦
          let counted : Text × SyncProjectsResponse =
            (r.id, count_overwritten (reactivating r) response) in
          let (_, c₁, e₁, h₁) =
            >>=-returns (overwrite o actor d r) (λ _. pure counted) c (rw other at h) in
          subst (λ t. Done d c.store t) (pure_store counted c₁ h₁)
            (overwrite-Done o actor d r c e₁ v m at org)
    ]
