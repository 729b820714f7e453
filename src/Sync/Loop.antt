-- ===== src/Sync/Loop.antt =====
-- The loop over the declared rows of `apply`, and the archive after it (src/write/sync.rs).
use project_db.Base.{
  Text, to_ascii_lowercase, ◌≡◌, ◌≢◌, refl, sym, ap, ◌∙◌, subst, inl, inr, Bool, true, false,
  Option-cases, List, [], ◌∷◌, In, All-In,
}
use project_db.Base.Distinct.{Distinct}
use project_db.Status.{ok}
use project_db.Store.{Store, Project, is_org, update_projects, update_rows}
use project_db.Store.Rows.{update_projects-ok}
use project_db.Store.Valid.{IsValid}
use project_db.Tx.{Outside, Conn, pure, ◌>>=◌}
use project_db.Tx.Laws.{>>=-returns, execute-returns}
use project_db.Contract.{SyncProjectsResponse}
use project_db.Declared.{Declared}
use project_db.Sync.Apply.{write_one, write_rows, by_key, archive, archived_row, is_listed}
use project_db.Sync.Keeps.{write_one-Keeps}
use project_db.Sync.Invariant.{IsValid-rows}
use project_db.Sync.Steps.{key_of, Frame, Met, FoundIn, by_key-some, write_one-Done, pure_store}

-- What the loop is given: rows with folded keys that differ, and the stored rows at those keys,
-- still there and organisation's.
pub record Ready (stored : List Project) (ds : List Declared) (s : Store) : Type 0 where
  pub valid : IsValid s
  pub folded : (d : Declared) → In d ds → d.key ≡ to_ascii_lowercase d.path
  pub keys : Distinct (λ (d : Declared). d.key) ds
  pub there :
      (r : Project) → In r stored → (d : Declared) → In d ds → key_of r ≡ d.key → In r s.projects
  pub org : (r : Project) → In r stored → is_org r ≡ true

-- What it makes of the tables.
pub record Written (ds : List Declared) (s t : Store) : Type 0 where
  pub valid : IsValid t
  pub met : (d : Declared) → In d ds → Met d t
  pub stays :
      (q : Project)
      → ((d : Declared) → In d ds → key_of q ≢ d.key)
      → In q s.projects
      → In q t.projects
  pub stood :
      (q : Project)
      → ((d : Declared) → In d ds → key_of q ≢ d.key)
      → In q t.projects
      → In q s.projects

found_in :
    (stored : List Project) (d : Declared) (ds : List Declared) (s : Store)
    → Ready stored (d ∷ ds) s
    → FoundIn s d (by_key stored d.key)
found_in stored d ds s ready = elim (Option-cases (by_key stored d.key)) [
  | inl e ↦ rw (e, FoundIn) tt
  | inr (r, e) ↦
      let (m, at) = by_key-some stored d.key e in
      rw (e, FoundIn) (ready.there r m d (inl refl) at, at, ready.org r m)
]

-- After one row the loop is ready for the others.
Ready-rest :
    (stored : List Project) (d : Declared) (ds : List Declared) {s t : Store}
    → Ready stored (d ∷ ds) s
    → Frame d.key s t
    → IsValid t
    → Ready stored ds t
Ready-rest stored d ds ready frame valid = record {
  valid = valid;
  folded = λ e m. ready.folded e (inr m);
  keys = ready.keys.1;
  there = λ r m e n k.
      frame.stays r
        (λ at. All-In (λ (x : Declared). d.key ≢ x.key) ds ready.keys.0 e n (sym at ∙ k))
        (ready.there r m e (inr n) k);
  org = ready.org;
}

Written-step :
    (d : Declared) (ds : List Declared) {s t u : Store}
    → Distinct (λ (x : Declared). x.key) (d ∷ ds)
    → Met d t
    → Frame d.key s t
    → Written ds t u
    → Written (d ∷ ds) s u
Written-step d ds {u = u} keys (q, m, as_declared) frame rest = record {
  valid = rest.valid;
  met = λ e n. elim n [
    | inl same ↦
        subst (λ x. Met x u) (sym same)
          (
            q,
            rest.stays q
                (λ x i k.
                  All-In (λ (y : Declared). d.key ≢ y.key) ds keys.0 x i (sym as_declared.key ∙ k))
                m,
            as_declared,
          )
    | inr k ↦ rest.met e k
  ];
  stays = λ r n i. rest.stays r (λ x j. n x (inr j)) (frame.stays r (n d (inl refl)) i);
  stood = λ r n i. frame.stood r (n d (inl refl)) (rest.stood r (λ x j. n x (inr j)) i);
}

pub write_rows-Written :
    (o : Outside) (actor : Text) (stored : List Project) (ds : List Declared)
    (response : SyncProjectsResponse) (c : Conn) {x : List (Text × Text) × SyncProjectsResponse}
    {c' : Conn}
    → write_rows o actor stored ds response c ≡ (ok x, c')
    → Ready stored ds c.store
    → Written ds c.store c'.store
unfolding write_rows
write_rows-Written o actor stored [] response c h ready =
    subst (Written [] c.store) (pure_store ([], response) c h) (record {
      valid = ready.valid;
      met = λ d m. absurd m;
      stays = λ q n m. m;
      stood = λ q n m. m;
    })
write_rows-Written o actor stored (d ∷ ds) response c {c' = c'} h ready =
    let found = by_key stored d.key in
    let counted : Text × SyncProjectsResponse → SyncProjectsResponse = λ one. one.1 in
    let (one, c₁, e₁, h₁) =
      >>=-returns (write_one o actor d found response)
        (λ one. write_rows o actor stored ds (counted one) >>= λ more.
          pure ((d.key, one.0) ∷ more.0, more.1))
        c h in
    let (more, c₂, e₂, h₂) =
      >>=-returns (write_rows o actor stored ds (counted one))
        (λ more. pure ((d.key, one.0) ∷ more.0, more.1)) c₁ h₁ in
    let (met, frame) =
      write_one-Done o actor d found response c e₁ ready.valid (ready.folded d (inl refl))
        (found_in stored d ds c.store ready) in
    let valid =
      subst IsValid (ap (λ p. p.1.store) e₁)
        ((write_one-Keeps IsValid-rows o actor d found response).keep c ready.valid) in
    let rest =
      write_rows-Written o actor stored ds (counted one) c₁ e₂
        (Ready-rest stored d ds ready frame valid) in
    subst (Written (d ∷ ds) c.store) (pure_store ((d.key, one.0) ∷ more.0, more.1) c₂ h₂)
      (Written-step d ds ready.keys met frame rest)

update_rows-none :
    {A : Type 0} (p : A → Bool) (f : A → A) (xs : List A)
    → ((x : A) → p x ≡ false)
    → update_rows p f xs ≡ xs
update_rows-none p f [] h = refl
update_rows-none p f (x ∷ xs) h = rw (h x, update_rows-none p f xs h)

-- The archive rewrites the listed rows and no others.
pub archive-update_rows :
    (o : Outside) (actor : Text) (ids : List Text) (c : Conn) {c' : Conn}
    → archive o actor ids c ≡ (ok tt, c')
    → c'.store.projects
      ≡ update_rows (is_listed ids) (archived_row actor (o.now c.step)) c.store.projects
unfolding archive is_listed
archive-update_rows o actor [] c h =
    ap (λ (x : Store). x.projects) (sym (pure_store tt c h))
    ∙ sym (
        update_rows-none (is_listed []) (archived_row actor (o.now c.step)) c.store.projects
          (λ x. refl))
archive-update_rows o actor (i ∷ ids) c {c'} h =
    let effect =
      execute-returns o (λ now. update_projects (is_listed (i ∷ ids)) (archived_row actor now)) c
        h in
    ap (λ (x : Store). x.projects)
      (update_projects-ok (is_listed (i ∷ ids)) (archived_row actor (o.now c.step)) c.store c'.store
        effect).0
