-- ===== src/Grants/Written.antt =====
-- What the loops of `write` (src/write/grants.rs) make of the stored grants.
use project_db.Base.{
  ℕ, Text, ◌≡◌, refl, sym, ap, subst, ◌⊎◌, inl, inr, some, Option-cases, List, [], ◌∷◌, In,
  In-append_left, In-append_right, In-append_cases,
}
use project_db.Status.{ok}
use project_db.Store.{Grant, insert_grant}
use project_db.Store.Granted.{pair, grant, insert_grant-Added}
use project_db.Tx.{Outside, Conn, execute}
use project_db.Tx.Laws.{>>=-returns, execute-returns}
use project_db.Grants.{GrantPlan, id_of, write_deletes, write_updates, write_inserts, write}
use project_db.Grants.Changes.{Leaves, pure_grants, write_deletes-In, write_updates-In}

module _ (o : Outside) where
  -- The inserts add a grant for each of their entries, on the row that the ids name, and no other.
  pub write_inserts-In :
      (ids : List (Text × Text)) (is : List (Text × Text × ℕ)) (c : Conn) {d : Conn}
      → write_inserts o ids is c ≡ (ok tt, d)
      → ((g : Grant)
          → In g d.store.grants
          → In g c.store.grants
            ⊎ ((key : Text) × (k : Text) × In (key, g.team_id, g.level) is
                × (id_of ids key ≡ some (k, g.project_id))))
        × ((g : Grant) → In g c.store.grants → In g d.store.grants)
        × ((key team : Text) (l : ℕ)
            → In (key, team, l) is
            → (k : Text) × (p : Text) × (id_of ids key ≡ some (k, p))
              × In (grant p team l) d.store.grants)
  unfolding write_inserts
  write_inserts-In ids [] c h =
      let same = pure_grants h in
      (λ g m. inl (subst (In g) same m), λ g m. subst (In g) (sym same) m, λ key t l m. absurd m)
  write_inserts-In ids ((key, t, l) ∷ is) c {d} h = elim (Option-cases (id_of ids key)) [
    | inl e ↦ cc (ap (λ p. p.0) (rw (e, write_inserts) at h))
    | inr ((k, p), e) ↦
        let (_, c₁, e₁, h₁) =
          >>=-returns (execute o (λ _. insert_grant p t l)) _ c (rw (e, write_inserts) at h) in
        let same =
          (insert_grant-Added p t l c.store c₁.store
            (execute-returns o (λ _. insert_grant p t l) c e₁)).result in
        let rest = write_inserts-In ids is c₁ h₁ in
        let new : In (grant p t l) c₁.store.grants =
          subst (In (grant p t l)) (sym same)
            (In-append_right (grant p t l) c.store.grants (grant p t l ∷ []) (inl refl)) in
        (
          λ g m. elim (rest.0 g m) [
            | inr (key', k', n, f) ↦ inr (key', k', inr n, f)
            | inl n ↦ elim (In-append_cases g c.store.grants _ (subst (In g) same n)) [
              | inl a ↦ inl a
              | inr (inr x) ↦ absurd x
              | inr (inl is_new) ↦ inr (
                  subst
                    (λ (x : Grant).
                      (key' : Text) × (k' : Text) × In (key', x.team_id, x.level) ((key, t, l) ∷ is)
                      × (id_of ids key' ≡ some (k', x.project_id)))
                    (sym is_new) (key, k, inl refl, e))
            ]
          ],
          λ g m. rest.1 g (subst (In g) (sym same) (In-append_left g c.store.grants _ m)),
          λ key' t' l' m. elim m [
            | inr n ↦ rest.2 key' t' l' n
            | inl is_new ↦
                subst
                  (λ (x : Text × Text × ℕ).
                    (k' : Text) × (p' : Text) × (id_of ids x.0 ≡ some (k', p'))
                    × In (grant p' x.1 x.2) d.store.grants)
                  (sym is_new) (k, p, e, rest.1 (grant p t l) new)
          ],
        )
  ]

-- What `write` makes of the grants `before`, by the plan's writes and the ids of the rows.
pub record Rewritten (p : GrantPlan) (ids : List (Text × Text)) (before after : List Grant)
    : Type 0 where
  -- A grant that is there was inserted, or stood, was not deleted, and has the level that the
  -- updates leave it at.
  pub only :
      (g : Grant)
      → In g after
      → ((key : Text) × (k : Text) × In (key, g.team_id, g.level) p.inserts
          × (id_of ids key ≡ some (k, g.project_id)))
        ⊎ ((h : Grant) × In h before
            × (pair h ≡ pair g)
            × ¬ (In (pair h) p.deletes)
            × Leaves p.updates h g.level)
  pub stays :
      (g : Grant)
      → In g before
      → ¬ (In (pair g) p.deletes)
      → (l : ℕ) × In (grant g.project_id g.team_id l) after × Leaves p.updates g l
  pub inserted :
      (key team : Text) (l : ℕ)
      → In (key, team, l) p.inserts
      → (k : Text) × (id : Text) × (id_of ids key ≡ some (k, id)) × In (grant id team l) after

pub write-Rewritten :
    (o : Outside) (p : GrantPlan) (ids : List (Text × Text)) (c : Conn) {d : Conn}
    → write o p ids c ≡ (ok tt, d)
    → Rewritten p ids c.store.grants d.store.grants
unfolding write
write-Rewritten o p ids c h =
    let (_, c₁, e₁, h₁) = >>=-returns (write_deletes o p.deletes) _ c h in
    let (_, c₂, e₂, h₂) = >>=-returns (write_updates o p.updates) _ c₁ h₁ in
    let gone = write_deletes-In o p.deletes c e₁ in
    let updated = write_updates-In o p.updates c₁ e₂ in
    let added = write_inserts-In o ids p.inserts c₂ h₂ in
    record {
      only = λ g m. elim (added.0 g m) [
        | inr new ↦ inl new
        | inl n ↦
            let (a, k, e, leaves) = updated.0 g n in
            let (there, kept) = (gone a).0 k in inr (a, there, e, kept, leaves)
      ];
      stays = λ g m kept.
          let (l, n, leaves) = updated.1 g ((gone g).1 m kept) in
          (l, added.1 (grant g.project_id g.team_id l) n, leaves);
      inserted = added.2;
    }
