-- ===== src/Grants/Changes.antt =====
-- What the deletes and the updates of `write` (src/write/grants.rs) make of the stored grants.
use project_db.Base.{
  ℕ, Text, ◌≡◌, refl, sym, ap, ◌∙◌, subst, ◌⊎◌, inl, inr, not-true, not-false, opposed, Bool-cases,
  List, [], ◌∷◌, In, In-keep, In_of_keep,
}
use project_db.Status.{Status, Result, ok}
use project_db.Store.{Grant, grant_of, delete_grant, update_grant}
use project_db.Store.Rows.{In-update_rows, In-update_rows_other, In_of_update_rows}
use project_db.Store.Granted.{
  pair, grant_of-pair, pair-grant_of, delete_grant-grants, update_grant-grants,
}
use project_db.Tx.{Outside, Conn, execute}
use project_db.Tx.Laws.{>>=-returns, execute-returns}
use project_db.Grants.{write_deletes, write_updates}

pub pure_grants :
    {A : Type 0} {a b : A} {c d : Conn}
    → ◌≡◌ {A = Result Status A × Conn} (ok a, c) (ok b, d)
    → d.store.grants ≡ c.store.grants
pure_grants h = ap (λ p. p.1.store.grants) (sym h)

module _ (o : Outside) where
  -- The deletes leave the grants at every other key.
  pub write_deletes-In :
      (ds : List (Text × Text)) (c : Conn) {d : Conn}
      → write_deletes o ds c ≡ (ok tt, d)
      → (g : Grant)
      → (In g d.store.grants → In g c.store.grants × ¬ (In (pair g) ds))
        × (In g c.store.grants → ¬ (In (pair g) ds) → In g d.store.grants)
  unfolding write_deletes
  write_deletes-In [] c h g =
      let same = pure_grants h in
      (λ m. (subst (In g) same m, λ n. n), λ m _. subst (In g) (sym same) m)
  write_deletes-In ((p, t) ∷ ds) c {d} h g =
      let (_, c₁, e₁, h₁) = >>=-returns (execute o (λ _. delete_grant p t)) _ c h in
      let same =
        delete_grant-grants p t c.store c₁.store (execute-returns o (λ _. delete_grant p t) c e₁) in
      let rest = write_deletes-In ds c₁ h₁ g in
      (
        λ m.
            let (n, never) = rest.0 m in
            let (k, b) = In_of_keep _ g c.store.grants (subst (In g) same n) in
            (
              k,
              λ x. elim x [
                | inl e ↦ opposed (pair-grant_of p t g e) (not-true b)
                | inr y ↦ never y
              ],
            ),
        λ m never.
            rest.1
              (subst (In g) (sym same) (
                In-keep _ g c.store.grants m (elim (Bool-cases (grant_of p t g)) [
                  | inl hit ↦ absurd (never (inl (grant_of-pair p t g hit)))
                  | inr miss ↦ not-false miss
                ])))
              (λ y. never (inr y)),
      )

-- The level that the updates leave a grant at: one of those that they set on its key, or, when they
-- set none, its own.
abbrev pub Leaves : List (Text × Text × ℕ) → Grant → ℕ → Type 0
Leaves us g l =
    In (g.project_id, g.team_id, l) us
    ⊎ ((l ≡ g.level) × ((k : ℕ) → ¬ (In (g.project_id, g.team_id, k) us)))

triple_pair :
    {a p b t : Text} {k l : ℕ}
    → ◌≡◌ {A = Text × Text × ℕ} (a, b, k) (p, t, l)
    → ◌≡◌ {A = Text × Text} (a, b) (p, t)
triple_pair h = ap {B = Text × Text} (λ x. (x.0, x.1)) h

pair_triple :
    {a p b t : Text} {l : ℕ}
    → ◌≡◌ {A = Text × Text} (a, b) (p, t)
    → ◌≡◌ {A = Text × Text × ℕ} (a, b, l) (p, t, l)
pair_triple {l = l} h = ap {B = Text × Text × ℕ} (λ x. (x.0, x.1, l)) h

abbrev pub set_level : ℕ → Grant → Grant
set_level l g = record g { level = l }

-- An updated grant, then the other updates.
Leaves-hit :
    (p t : Text) (l : ℕ) (us : List (Text × Text × ℕ)) (g : Grant) {k : ℕ}
    → pair g ≡ (p, t)
    → Leaves us (set_level l g) k
    → Leaves ((p, t, l) ∷ us) g k
Leaves-hit p t l us g e (inl m) = inl (inr m)
Leaves-hit p t l us g {k} e (inr (same, free)) = inl (
    inl (
      subst (λ x. ◌≡◌ {A = Text × Text × ℕ} (g.project_id, g.team_id, x) (p, t, l)) (sym same)
        (pair_triple e)))

Leaves-miss :
    (p t : Text) (l : ℕ) (us : List (Text × Text × ℕ)) (g : Grant) {k : ℕ}
    → ¬ (pair g ≡ (p, t))
    → Leaves us g k
    → Leaves ((p, t, l) ∷ us) g k
Leaves-miss p t l us g e (inl m) = inl (inr m)
Leaves-miss p t l us g e (inr (same, free)) =
    inr (same, λ k m. elim m [ inl h ↦ e (triple_pair h) | inr n ↦ free k n ])

module _ (o : Outside) where
  pub write_updates-In :
      (us : List (Text × Text × ℕ)) (c : Conn) {d : Conn}
      → write_updates o us c ≡ (ok tt, d)
      → ((h : Grant)
          → In h d.store.grants
          → (g : Grant) × In g c.store.grants × (pair g ≡ pair h) × Leaves us g h.level)
        × ((g : Grant)
            → In g c.store.grants
            → (l : ℕ) × In (set_level l g) d.store.grants × Leaves us g l)
  unfolding write_updates
  write_updates-In [] c h =
      let same = pure_grants h in
      (
        λ g m. (g, subst (In g) same m, refl, inr (refl, λ k n. n)),
        λ g m. (g.level, subst (In g) (sym same) m, inr (refl, λ k n. n)),
      )
  write_updates-In ((p, t, l) ∷ us) c {d} h =
      let (_, c₁, e₁, h₁) = >>=-returns (execute o (λ _. update_grant p t l)) _ c h in
      let same =
        update_grant-grants p t l c.store c₁.store
          (execute-returns o (λ _. update_grant p t l) c e₁) in
      let rest = write_updates-In us c₁ h₁ in
      (
        λ g m.
            let (g₁, n, e, leaves) = rest.0 g m in
            elim (In_of_update_rows (grant_of p t) (set_level l) g₁ c.store.grants
              (subst (In g₁) same n)) [
                | inl (a, k, hit, is) ↦ (
                  a,
                  k,
                  ap pair (sym is) ∙ e,
                  Leaves-hit p t l us a (grant_of-pair p t a hit)
                      (subst (λ x. Leaves us x g.level) is leaves),
                )
                | inr (k, miss) ↦ (
                  g₁,
                  k,
                  e,
                  Leaves-miss p t l us g₁ (λ x. opposed (pair-grant_of p t g₁ x) miss) leaves,
                )
              ],
        λ g m. elim (Bool-cases (grant_of p t g)) [
          | inl hit ↦
              let (k, n, leaves) = rest.1 (set_level l g) (
                subst (In (set_level l g)) (sym same)
                  (In-update_rows (grant_of p t) (set_level l) g c.store.grants m hit)) in
              (k, n, Leaves-hit p t l us g (grant_of-pair p t g hit) leaves)
          | inr miss ↦
              let (k, n, leaves) = rest.1 g (
                subst (In g) (sym same)
                  (In-update_rows_other (grant_of p t) (set_level l) g c.store.grants m miss)) in
              (k, n, Leaves-miss p t l us g (λ x. opposed (pair-grant_of p t g x) miss) leaves)
        ],
      )
