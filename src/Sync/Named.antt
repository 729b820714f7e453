-- ===== src/Sync/Named.antt =====
-- The ids that the loop of `apply` (src/write/sync.rs) maps the declared keys to.
use project_db.Base.{
  ℕ, Text, codes, text_eq, text_eq_iff, to_ascii_lowercase, ◌≡◌, refl, sym, ap, ◌∙◌, subst, inl,
  inr, not, ◌&&◌, Bool-cases, Option, none, some, List, [], ◌∷◌, ◌++◌, In, In-append_right,
  In_of_find_last,
}
use project_db.Status.{Status, Result, ok}
use project_db.Sql.{EngineError}
use project_db.Store.{Store, Project, insert_project}
use project_db.Store.Rows.{insert_project-Inserted}
use project_db.Tx.{Outside, Conn, execute, draw_uuid, pure, ◌>>◌}
use project_db.Tx.Laws.{>>=-returns, execute-returns}
use project_db.Contract.{SyncProjectsResponse}
use project_db.Declared.{Declared}
use project_db.Grants.{id_of}
use project_db.Sync.Apply.{
  insert, overwrite, write_one, write_rows, by_key, differs, reactivating, fresh,
}
use project_db.Sync.Keeps.{write_one-Keeps, write_rows-Keeps}
use project_db.Sync.Invariant.{Survives, Survives-rows, SameIdentity-refl}
use project_db.Sync.Steps.{key_of, by_key-some}

-- A row with this id is stored at this folded path.
abbrev pub Holds : Text → Text → Store → Type 0
Holds key id t = (q : Project) × In q t.projects × (key_of q ≡ key) × (q.id ≡ id)

Survives-Holds : (r : Project) (t : Store) → Survives r t → Holds (key_of r) r.id t
Survives-Holds r t (q, m, same) = (q, m, ap to_ascii_lowercase same.path, same.id)

pure-value :
    {A : Type 0} {a b : A} {c d : Conn}
    → ◌≡◌ {A = Result Status A × Conn} (ok a, c) (ok b, d)
    → (b ≡ a) × (d ≡ c)
pure-value h = (cc (ap (λ p. p.0) h), ap (λ p. p.1) (sym h))

module _ (o : Outside) (actor : Text) where
  insert-Holds :
      (d : Declared) (c : Conn) {id : Text} {c' : Conn}
      → insert o actor d c ≡ (ok id, c')
      → d.key ≡ to_ascii_lowercase d.path
      → Holds d.key id c'.store
  unfolding insert
  insert-Holds d c {id} {c'} h folded =
      let named : Text → Text = λ uuid. codes "yadgar:project:" ++ uuid in
      let run : Text → ℕ → Store → Result EngineError (Unit {0} × Store) =
        λ uuid now. insert_project (fresh (named uuid) d actor now) in
      let (uuid, c₁, e₁, h₁) =
        >>=-returns (draw_uuid o) (λ uuid. execute o (run uuid) >> pure (named uuid)) c h in
      let (_, c₂, e₂, h₂) = >>=-returns (execute o (run uuid)) (λ _. pure (named uuid)) c₁ h₁ in
      let row = fresh (named uuid) d actor (o.now c₁.step) in
      let i = insert_project-Inserted row c₁.store c₂.store (execute-returns o (run uuid) c₁ e₂) in
      let (is, at) = pure-value h₂ in
      (
        row,
        subst (λ (x : Store). In row x.projects) (sym (ap (λ (x : Conn). x.store) at ∙ i.result))
            (In-append_right row c₁.store.projects (row ∷ []) (inl refl)),
        sym folded,
        sym is,
      )

  write_one-id :
      (d : Declared) (r : Project) (response : SyncProjectsResponse) (c : Conn)
      {x : Text × SyncProjectsResponse} {c' : Conn}
      → write_one o actor d (some r) response c ≡ (ok x, c')
      → x.0 ≡ r.id
  unfolding write_one
  write_one-id d r response c h = elim (Bool-cases (not (differs d r) && not (reactivating r))) [
    | inl same ↦ ap (λ (y : Text × SyncProjectsResponse). y.0) (pure-value (rw same at h)).0
    | inr other ↦
        let (_, c₁, _, h₁) = >>=-returns (overwrite o actor d r) _ c (rw other at h) in
        ap (λ (y : Text × SyncProjectsResponse). y.0) (pure-value h₁).0
  ]

  write_one-Holds :
      (d : Declared) (found : Option Project) (response : SyncProjectsResponse) (c : Conn)
      {x : Text × SyncProjectsResponse} {c' : Conn}
      → write_one o actor d found response c ≡ (ok x, c')
      → d.key ≡ to_ascii_lowercase d.path
      → ((r : Project) → found ≡ some r → Survives r c.store × (key_of r ≡ d.key))
      → Holds d.key x.0 c'.store
  unfolding write_one
  write_one-Holds d none response c {x} h folded there =
      let (id, c₁, e₁, h₁) = >>=-returns (insert o actor d) _ c h in
      let (is, at) = pure-value h₁ in
      subst (λ (y : Conn). Holds d.key x.0 y.store) (sym at)
        (subst (λ i. Holds d.key i c₁.store)
          (sym (ap (λ (y : Text × SyncProjectsResponse). y.0) is)) (insert-Holds d c e₁ folded))
  write_one-Holds d (some r) response c {x} {c'} h folded there =
      let (there_now, at) = there r refl in
      let survives =
        (write_one-Keeps (Survives-rows r) o actor d (some r) response).keep c there_now in
      subst (λ k. Holds k x.0 c'.store) at
        (subst (λ i. Holds (key_of r) i c'.store) (sym (write_one-id d r response c h))
          (Survives-Holds r c'.store (subst (Survives r) (ap (λ p. p.1.store) h) survives)))

  -- Every id that the loop maps a key to is the id of the row stored at that key.
  write_rows-Holds :
      (stored : List Project) (ds : List Declared) (response : SyncProjectsResponse) (c : Conn)
      {x : List (Text × Text) × SyncProjectsResponse} {c' : Conn}
      → write_rows o actor stored ds response c ≡ (ok x, c')
      → ((d : Declared) → In d ds → d.key ≡ to_ascii_lowercase d.path)
      → ((r : Project) → In r stored → Survives r c.store)
      → (e : Text × Text) → In e x.0
      → Holds e.0 e.1 c'.store
  unfolding write_rows
  write_rows-Holds stored [] response c h folded there e m = absurd (
      subst (In e) (ap (λ (y : List (Text × Text) × SyncProjectsResponse). y.0) (pure-value h).0) m)
  write_rows-Holds stored (d ∷ ds) response c {x} {c'} h folded there e m =
      let found = by_key stored d.key in
      let (one, c₁, e₁, h₁) = >>=-returns (write_one o actor d found response) _ c h in
      let (more, c₂, e₂, h₂) = >>=-returns (write_rows o actor stored ds one.1) _ c₁ h₁ in
      let (is, at) = pure-value h₂ in
      let after : (r : Project) → Survives r c.store → Survives r c₁.store = λ r k.
        subst (Survives r) (ap (λ p. p.1.store) e₁)
          ((write_one-Keeps (Survives-rows r) o actor d found response).keep c k) in
      let here : Holds d.key one.0 c₁.store =
        write_one-Holds d found response c e₁ (folded d (inl refl))
          (λ r f. let (n, k) = by_key-some stored d.key f in (there r n, k)) in
      let later : (key id : Text) → Holds key id c₁.store → Holds key id c₂.store =
        λ key id (q, n, k, i).
          let (q', n', same) = subst (Survives q) (ap (λ p. p.1.store) e₂) (
            (write_rows-Keeps (Survives-rows q) o actor stored ds one.1).keep c₁
              (q, n, SameIdentity-refl q)) in
          (q', n', ap to_ascii_lowercase same.path ∙ k, same.id ∙ i) in
      let rest =
        write_rows-Holds stored ds one.1 c₁ e₂ (λ y n. folded y (inr n))
          (λ r n. after r (there r n)) in
      subst (λ (y : Conn). Holds e.0 e.1 y.store) (sym at)
        (elim (subst (In e) (ap (λ (y : List (Text × Text) × SyncProjectsResponse). y.0) is) m) [
          | inl first ↦
              subst (λ (y : Text × Text). Holds y.0 y.1 c₂.store) (sym first)
                (later d.key one.0 here)
          | inr n ↦ rest e n
        ])

  pub id_of-Holds :
      (stored : List Project) (ds : List Declared) (response : SyncProjectsResponse) (c : Conn)
      {x : List (Text × Text) × SyncProjectsResponse} {c' : Conn}
      → write_rows o actor stored ds response c ≡ (ok x, c')
      → ((d : Declared) → In d ds → d.key ≡ to_ascii_lowercase d.path)
      → ((r : Project) → In r stored → Survives r c.store)
      → (key : Text) {k id : Text} → id_of x.0 key ≡ some (k, id)
      → Holds key id c'.store
  unfolding id_of
  id_of-Holds stored ds response c {x} {c'} h folded there key {k} {id} e =
      let (m, same) = In_of_find_last (λ y. text_eq y.0 key) x.0 e in
      subst (λ y. Holds y id c'.store) ((text_eq_iff k key).0 same)
        (write_rows-Holds stored ds response c h folded there (k, id) m)
