-- ===== src/Sync/Revoked.antt =====
-- The stored grants that a sync keeps, and at which levels: the plan of src/write/grants.rs over the
-- tables that `apply` of src/write/sync.rs reads.
use project_db.Base.{
  ℕ, Text, to_ascii_lowercase, ◌≡◌, refl, sym, ap, ◌∙◌, subst, inl, inr, true, opposed, Bool-cases,
  Option-cases, List, In, ◌==◌, ==_iff,
}
use project_db.Base.Distinct.{Distinct-unique}
use project_db.Declared.{Declared}
use project_db.Store.{Store, Project, Grant, is_org}
use project_db.Store.Valid.{IsValid}
use project_db.Grants.{StoredGrant, wants, plan, stored_of}
use project_db.Grants.Planned.{fate, plan_stored-deletes}
use project_db.Grants.Levels.{Declares, wanted-Declares, Declares-wanted, plan_stored-updates}
use project_db.Grants.Joined.{stored_of-Join, joined}
use project_db.Store.Granted.{pair}
use project_db.Grants.Changes.{Leaves}
use project_db.Sync.Steps.{key_of}

module _ (s : Store) (v : IsValid s) where
  -- The join gives a grant's key the one path of its row.
  stored-path :
      (x : StoredGrant)
      → In x (stored_of s)
      → (r : Project) → In r s.projects
      → r.id ≡ x.project_id
      → to_ascii_lowercase x.path ≡ key_of r
  stored-path x m r n e =
      let (g, _, p, k, _, id, is) = (stored_of-Join s x).0 m in
      let same =
        Distinct-unique (λ (y : Project). y.id) s.projects v.ids p r k n
          (id ∙ sym (e ∙ ap (λ (y : StoredGrant). y.project_id) is)) in
      ap (λ (y : StoredGrant). to_ascii_lowercase y.path) is ∙ ap key_of same

  module _ (ds : List Declared) (h : Grant) (r : Project) (m : In h s.grants) (n : In r s.projects)
      (org : is_org r ≡ true) (id : r.id ≡ h.project_id) where
    stored : In (joined h r) (stored_of s)
    stored = (stored_of-Join s (joined h r)).1 (h, m, r, n, org, id, refl)

    -- No grant is deleted that the declaration gives.
    pub deleted-Undeclared :
        (l : ℕ)
        → In (pair h) (plan ds (stored_of s)).deletes
        → ¬ (Declares ds (key_of r) h.team_id l)
    unfolding plan
    deleted-Undeclared l gone d =
        let (x, k, unwanted, is) = (plan_stored-deletes (wants ds) (stored_of s) (pair h)).0 gone in
        let path = stored-path x k r n (id ∙ ap (λ (y : Text × Text). y.0) is) in
        let team = ap (λ (y : Text × Text). y.1) is in
        Declares-wanted ds (to_ascii_lowercase x.path) x.team_id l
          (subst (λ y. Declares ds y x.team_id l) (sym path)
            (subst (λ y. Declares ds (key_of r) y l) team d))
          unwanted

    -- An update sets the level that the declaration gives.
    updated-Declares :
        (l : ℕ)
        → In (h.project_id, h.team_id, l) (plan ds (stored_of s)).updates
        → Declares ds (key_of r) h.team_id l
    unfolding plan
    updated-Declares l at =
        let (x, k, _, _, e, _, is) =
          (plan_stored-updates (wants ds) (stored_of s) (h.project_id, h.team_id, l)).0 at in
        let path = stored-path x k r n (id ∙ ap (λ (y : Text × Text × ℕ). y.0) is) in
        let team = ap (λ (y : Text × Text × ℕ). y.1) is in
        subst (λ y. Declares ds (key_of r) y l) (sym team)
          (subst (λ y. Declares ds y x.team_id l) path
            (wanted-Declares ds (to_ascii_lowercase x.path) x.team_id e))

    -- A grant that is neither deleted nor updated has the level that the declaration gives.
    untouched-Declares :
        ¬ (In (pair h) (plan ds (stored_of s)).deletes)
        → ((k : ℕ) → ¬ (In (h.project_id, h.team_id, k) (plan ds (stored_of s)).updates))
        → Declares ds (key_of r) h.team_id h.level
    unfolding plan
    untouched-Declares kept same = elim (Option-cases (fate (wants ds) (joined h r))) [
      | inl e ↦ absurd (
          kept (
            (plan_stored-deletes (wants ds) (stored_of s) (pair h)).1
              (joined h r, stored, e, refl)))
      | inr ((k, t, l), e) ↦ elim (Bool-cases (l == h.level)) [
        | inl is ↦
            subst (Declares ds (key_of r) h.team_id) ((==_iff l h.level).0 is)
              (wanted-Declares ds (key_of r) h.team_id e)
        | inr other ↦ absurd (
            same l (
              (plan_stored-updates (wants ds) (stored_of s) (h.project_id, h.team_id, l)).1
                (joined h r, stored, k, t, e, λ is. opposed ((==_iff l h.level).1 is) other, refl)))
      ]
    ]

    -- A grant that is not deleted is left at the level that the declaration gives.
    pub left-Declares :
        (l : ℕ)
        → ¬ (In (pair h) (plan ds (stored_of s)).deletes)
        → Leaves (plan ds (stored_of s)).updates h l
        → Declares ds (key_of r) h.team_id l
    left-Declares l kept (inl at) = updated-Declares l at
    left-Declares l kept (inr (is, free)) =
        subst (Declares ds (key_of r) h.team_id) (sym is) (untouched-Declares kept free)
