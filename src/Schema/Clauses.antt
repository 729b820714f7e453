-- ===== src/Schema/Clauses.antt =====
-- The clauses of `ALTER TABLE` in src/schema.rs, each on a table that it has altered.
use project_db.Base.{
  Text, ◌≡◌, refl, sym, ap, ◌∙◌, subst, inl, inr, Bool, true, Bool-cases, List, [], ◌∷◌, any,
}
use project_db.Status.{ok, ◌>>=◌, >>=-eq-ok}
use project_db.Store.{update_rows}
use project_db.Schema.{
  Column, Check, Table, Contents, is_column, is_check, modified, add_all, widened, constrained,
}
use project_db.Schema.Alter.{ok_eq, not_ok, Named, Idempotent}
use project_db.Schema.Columns.{
  self_named, any-update_rows, update_rows-twice, any-append_left, any-append_last, add_all-again,
}

module _ (x : Contents) (n : Text) (c : Column) where
  -- MODIFY gave the column its definition.
  abbrev Set : Table → Table → Type 0
  Set t u =
      (any (is_column c.name) t.columns ≡ true)
      × (x.distinct n c ≡ true)
      × (u ≡ record t { columns = update_rows (is_column c.name) (λ old. c) t.columns })

  modified-Set : (t u : Table) → modified x n c t ≡ ok u → Set t u
  unfolding modified
  modified-Set t u h = elim (Bool-cases (any (is_column c.name) t.columns)) [
    | inr gone ↦ absurd (not_ok (rw gone at h))
    | inl there ↦ elim (Bool-cases (x.distinct n c)) [
      | inr clash ↦ absurd (not_ok (rw (there, clash) at h))
      | inl apart ↦ (there, apart, sym (ok_eq (rw (there, apart) at h)))
    ]
  ]

  pub modified-Named : Named (modified x n c)
  modified-Named t u h = ap (λ (y : Table). y.name) (modified-Set t u h).2

  pub modified-Idempotent : Idempotent (modified x n c)
  unfolding modified
  modified-Idempotent t u h =
      let (there, apart, is) = modified-Set t u h in
      let p = is_column c.name in
      let own = self_named c.name in
      subst (λ v. modified x n c v ≡ ok v) (sym is)
        (rw (any-update_rows p c own t.columns, there, apart, update_rows-twice p c own t.columns))

module _ (more : List (Column × Text)) where
  widened-columns :
      (t u : Table)
      → widened more t ≡ ok u
      → (add_all more t.columns ≡ ok u.columns) × (u.name ≡ t.name)
  unfolding widened
  widened-columns t u h =
      let (cs, e, k) =
        >>=-eq-ok (add_all more t.columns) (λ cs. ok (record t { columns = cs })) h in
      (e ∙ ap (λ (y : Table). ok y.columns) (ok_eq k), ap (λ (y : Table). y.name) (sym (ok_eq k)))

  widened-quiet : (t : Table) → add_all more t.columns ≡ ok t.columns → widened more t ≡ ok t
  unfolding widened
  widened-quiet t h = ap (λ r. r >>= (λ cs. ok (record t { columns = cs }))) h

  pub widened-Named : Named (widened more)
  widened-Named t u h = (widened-columns t u h).1

  pub widened-Idempotent : Idempotent (widened more)
  widened-Idempotent t u h =
      widened-quiet u (add_all-again more t.columns u.columns (widened-columns t u h).0)

module _ (x : Contents) (n : Text) (c : Check) where
  -- The constraint is there, and the columns are as they were.
  abbrev Bound : Table → Table → Type 0
  Bound t u =
      (any (is_check c.name) u.checks ≡ true)
      × (u.name ≡ t.name)
      × (u.columns ≡ t.columns)
      × ((p : Check → Bool) → any p t.checks ≡ true → any p u.checks ≡ true)

  constrained-Bound : (t u : Table) → constrained x n c t ≡ ok u → Bound t u
  unfolding constrained
  constrained-Bound t u h = elim (Bool-cases (any (is_check c.name) t.checks)) [
    | inl there ↦ subst (Bound t) (ok_eq (rw there at h)) (there, refl, refl, λ p k. k)
    | inr new ↦ elim (Bool-cases (x.meets n c)) [
      | inr bad ↦ absurd (not_ok (rw (new, bad) at h))
      | inl good ↦ subst (Bound t) (ok_eq (rw (new, good) at h)) (
        any-append_last (is_check c.name) t.checks c (self_named c.name),
        refl,
        refl,
        λ p k. any-append_left p t.checks (c ∷ []) k,
      )
    ]
  ]

  constrained-quiet :
      (t : Table) → any (is_check c.name) t.checks ≡ true → constrained x n c t ≡ ok t
  unfolding constrained
  constrained-quiet t h = rw h

  pub constrained-Named : Named (constrained x n c)
  constrained-Named t u h = (constrained-Bound t u h).1

  pub constrained-Idempotent : Idempotent (constrained x n c)
  constrained-Idempotent t u h = constrained-quiet u (constrained-Bound t u h).0

  -- A constraint added leaves what other clauses have done.
  pub widened-constrained :
      (more : List (Column × Text)) (t u : Table)
      → widened more t ≡ ok t
      → constrained x n c t ≡ ok u
      → widened more u ≡ ok u
  widened-constrained more t u h k =
      let same = (constrained-Bound t u k).2 in
      widened-quiet more u
        (subst (λ cs. add_all more cs ≡ ok cs) (sym same) (widened-columns more t t h).0)

pub constrained-constrained :
    (x : Contents) (n : Text) (b c : Check) (t u : Table)
    → constrained x n b t ≡ ok t
    → constrained x n c t ≡ ok u
    → constrained x n b u ≡ ok u
constrained-constrained x n b c t u h k =
    let there = (constrained-Bound x n b t t h).0 in
    constrained-quiet x n b u ((constrained-Bound x n c t u k).3 (is_check b.name) there)
