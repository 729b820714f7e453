-- ===== src/Store/Rows.antt =====
-- What the statements of the store do to the rows of a table.
use project_db.Base.{
  ℕ, Text, text_eq_iff, ◌≡◌, ◌≢◌, refl, sym, ap, ◌∙◌, ◌⊎◌, inl, inr, Bool, true, false, ◌||◌, List,
  [], ◌∷◌, ◌++◌, In, any, all, any_of_In, arith, Bool-cases, if◌then◌else◌, to_ascii_lowercase,
  In-All, All-In,
}
use project_db.Base.Distinct.{Distinct}
use project_db.Status.{Result, ok}
use project_db.Engine.Fold.{ci_eq_iff}
use project_db.Sql.{EngineError}
use mathlib.Core.Bool.{false≢true}
use project_db.Store.{
  delete_grant, update_grant, insert_grant, Store, Project, class_ok, has_id, at_path,
  insert_project, update_projects, update_rows,
}

-- Where the rows of an updated table come from.
module _ {A : Type 0} (p : A → Bool) (f : A → A) where
  pub In-update_rows : (a : A) (xs : List A) → In a xs → p a ≡ true → In (f a) (update_rows p f xs)
  In-update_rows a [] m h = absurd m
  In-update_rows a (x ∷ xs) (inl e) h = inl (rw (ap p (sym e) ∙ h) (ap f e))
  In-update_rows a (x ∷ xs) (inr m) h = inr (In-update_rows a xs m h)

  pub In-update_rows_other :
      (a : A) (xs : List A) → In a xs → p a ≡ false → In a (update_rows p f xs)
  In-update_rows_other a [] m h = absurd m
  In-update_rows_other a (x ∷ xs) (inl e) h = inl (rw (ap p (sym e) ∙ h) e)
  In-update_rows_other a (x ∷ xs) (inr m) h = inr (In-update_rows_other a xs m h)

  pub In_of_update_rows :
      (b : A) (xs : List A)
      → In b (update_rows p f xs)
      → ((a : A) × In a xs × (p a ≡ true) × (b ≡ f a)) ⊎ (In b xs × (p b ≡ false))
  In_of_update_rows b [] m = absurd m
  In_of_update_rows b (x ∷ xs) (inl e) = elim (Bool-cases (p x)) [
    | inl t ↦ inl (x, inl refl, t, rw t at e)
    | inr n ↦ let same : b ≡ x = rw n at e in inr (inl same, ap p same ∙ n)
  ]
  In_of_update_rows b (x ∷ xs) (inr m) = elim (In_of_update_rows b xs m) [
    | inl (a, k, t, e) ↦ inl (a, inr k, t, e)
    | inr (k, n) ↦ inr (inr k, n)
  ]

  pub Distinct-update_rows :
      {K : Type 0} (key : A → K)
      → ((a : A) → key (f a) ≡ key a)
      → (xs : List A) → Distinct key xs
      → Distinct key (update_rows p f xs)
  Distinct-update_rows key kept [] h = tt
  Distinct-update_rows {K} key kept (x ∷ xs) h = (
    In-All (λ y. key (if p x then f x else x) ≢ key y) (update_rows p f xs)
        (λ y m e. clash y (In_of_update_rows y xs m) (sym (same x (p x)) ∙ e)),
    Distinct-update_rows key kept xs h.1,
  )
    where
      same : (a : A) (b : Bool) → key (if b then f a else a) ≡ key a
      same a true = kept a
      same a false = refl

      clash :
          (y : A)
          → ((a : A) × In a xs × (p a ≡ true) × (y ≡ f a)) ⊎ (In y xs × (p y ≡ false))
          → key x ≡ key y
          → ⊥
      clash y (inl (a, m, t, e)) k = All-In (λ z. key x ≢ key z) xs h.0 a m (k ∙ ap key e ∙ kept a)
      clash y (inr (m, n)) k = All-In (λ z. key x ≢ key z) xs h.0 y m k

pub has_id_iff-to : (i : Text) (r : Project) → has_id i r ≡ true → r.id ≡ i
unfolding has_id
has_id_iff-to i r h = (text_eq_iff r.id i).0 h

-- An insert that succeeded appended its row, whose class, id and path the table allowed.
pub record Inserted (r : Project) (s t : Store) : Type 0 where
  pub result : t ≡ record s { projects = s.projects ++ r ∷ [] }
  pub class : class_ok r ≡ true
  pub new_id : (q : Project) → In q s.projects → q.id ≢ r.id
  pub new_path :
      (q : Project) → In q s.projects → to_ascii_lowercase q.path ≢ to_ascii_lowercase r.path

done_eq :
    {a t : Store} → ◌≡◌ {A = Result EngineError (Unit × Store)} (ok (tt, a)) (ok (tt, t)) → t ≡ a
done_eq h = cc

none_of :
    {A : Type 0} (p : A → Bool) (xs : List A)
    → any p xs ≡ false
    → (a : A) → In a xs
    → p a ≡ true
    → ⊥
none_of p xs h a m t = false≢true (sym h ∙ any_of_In p a xs m t)

pub insert_project-Inserted :
    (r : Project) (s t : Store) → insert_project r s ≡ ok (tt, t) → Inserted r s t
unfolding insert_project
insert_project-Inserted r s t h = elim (Bool-cases (class_ok r)) [
  | inr bad ↦ absurd (ground arith)
  | inl good ↦ elim (Bool-cases (any (has_id r.id) s.projects || any (at_path r.path) s.projects)) [
    | inl taken ↦ absurd (ground arith)
    | inr free ↦ record {
      result = done_eq (rw (good, free) at h);
      class = good;
      new_id = λ q m e.
          none_of (has_id r.id) s.projects (ground arith) q m ((text_eq_iff q.id r.id).1 e);
      new_path = λ q m e.
          none_of (at_path r.path) s.projects (ground arith) q m ((ci_eq_iff q.path r.path).1 e);
    }
  ]
]

-- An update that succeeded rewrote the rows that it selects, and every row meets the constraints.
pub update_projects-ok :
    (p : Project → Bool) (f : Project → Project) (s t : Store)
    → update_projects p f s ≡ ok (tt, t)
    → (t ≡ record s { projects = update_rows p f s.projects })
      × (all class_ok (update_rows p f s.projects) ≡ true)
unfolding update_projects
update_projects-ok p f s t h = elim (Bool-cases (all class_ok (update_rows p f s.projects))) [
  | inl good ↦ (done_eq (rw good at h), good)
  | inr bad ↦ absurd (ground arith)
]

-- The statements on grants leave the projects alone.
pub delete_grant-projects :
    (project team : Text) (s t : Store)
    → delete_grant project team s ≡ ok (tt, t)
    → t.projects ≡ s.projects
unfolding delete_grant
delete_grant-projects project team s t h = ap (λ (x : Store). x.projects) (done_eq h)

pub update_grant-projects :
    (project team : Text) (l : ℕ) (s t : Store)
    → update_grant project team l s ≡ ok (tt, t)
    → t.projects ≡ s.projects
unfolding update_grant
update_grant-projects project team l s t h = ground arith

pub insert_grant-projects :
    (project team : Text) (l : ℕ) (s t : Store)
    → insert_grant project team l s ≡ ok (tt, t)
    → t.projects ≡ s.projects
unfolding insert_grant
insert_grant-projects project team l s t h = ground arith
