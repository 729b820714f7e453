-- ===== src/Grants/Joined.antt =====
-- The stored grants that `apply` of src/write/sync.rs reads: the join of src/write/grants.rs.
use project_db.Base.{
  text_eq_iff, ◌≡◌, refl, sym, ap, ◌∙◌, subst, inl, inr, ◌⊎◌, true, ◌&&◌, Bool-cases, List, [], ◌∷◌,
  In, In-append_left, In-append_right, In-append_cases, and-left, and-right, both_true,
}
use project_db.Store.{Store, Project, Grant, is_org, has_id}
use project_db.Store.Rows.{has_id_iff-to}
use project_db.Grants.{StoredGrant, joined_with, join_grants, stored_of}

-- The join of a grant and its organisation's row.
abbrev pub joined : Grant → Project → StoredGrant
joined g p = record {
  project_id = g.project_id;
  path = p.path;
  team_id = g.team_id;
  level = g.level;
}

-- The stored grants are the joins of the grants and the organisation's rows that they are on.
abbrev pub Join : List Grant → List Project → StoredGrant → Type 0
Join gs ps x =
    (g : Grant) × In g gs
    × (p : Project) × In p ps
    × (is_org p ≡ true)
    × (p.id ≡ g.project_id)
    × (x ≡ joined g p)

joined_with-Join :
    (g : Grant) (ps : List Project) (x : StoredGrant)
    → In x (joined_with g ps)
    → (p : Project) × In p ps × (is_org p ≡ true) × (p.id ≡ g.project_id) × (x ≡ joined g p)
joined_with-Join g [] x m = absurd m
joined_with-Join g (p ∷ ps) x m = elim (Bool-cases (is_org p && has_id g.project_id p)) [
  | inr other ↦
      let (q, n, org, e, is) = joined_with-Join g ps x (rw other at m) in (q, inr n, org, e, is)
  | inl here ↦
      let m' : (x ≡ joined g p) ⊎ In x (joined_with g ps) = rw here at m in
      elim m' [
        | inr n ↦ let (q, k, org, e, is) = joined_with-Join g ps x n in (q, inr k, org, e, is)
        | inl e ↦ (
          p,
          inl refl,
          and-left (is_org p) (has_id g.project_id p) here,
          has_id_iff-to g.project_id p (and-right (is_org p) (has_id g.project_id p) here),
          e,
        )
      ]
]

In-joined_with :
    (g : Grant) (ps : List Project) (p : Project)
    → In p ps
    → is_org p ≡ true
    → p.id ≡ g.project_id
    → In (joined g p) (joined_with g ps)
unfolding has_id
In-joined_with g [] p m org e = absurd m
In-joined_with g (q ∷ ps) p (inl same) org e =
    rw
      (ap (λ (x : Project). is_org x && has_id g.project_id x) (sym same)
        ∙ both_true (is_org p) (has_id g.project_id p) org ((text_eq_iff p.id g.project_id).1 e))
      (inl (ap (joined g) same))
In-joined_with g (q ∷ ps) p (inr m) org e = elim (Bool-cases (is_org q && has_id g.project_id q)) [
  | inl here ↦ rw here (inr (In-joined_with g ps p m org e))
  | inr other ↦ rw other (In-joined_with g ps p m org e)
]

join_grants-Join :
    (gs : List Grant) (ps : List Project) (x : StoredGrant)
    → (In x (join_grants gs ps) → Join gs ps x) × (Join gs ps x → In x (join_grants gs ps))
join_grants-Join [] ps x = (λ m. absurd m, λ j. absurd j.1)
join_grants-Join (g ∷ gs) ps x =
    let rest = join_grants-Join gs ps x in
    (
      λ m. elim (In-append_cases x (joined_with g ps) (join_grants gs ps) m) [
        | inl n ↦
            let (p, k, org, e, is) = joined_with-Join g ps x n in (g, inl refl, p, k, org, e, is)
        | inr n ↦ let (h, k, p, i, org, e, is) = rest.0 n in (h, inr k, p, i, org, e, is)
      ],
      λ j.
          let (h, k, p, i, org, e, is) = j in
          elim k [
            | inl same ↦ In-append_left x (joined_with g ps) (join_grants gs ps) (
                subst (λ y. In y (joined_with g ps)) (ap (λ y. joined y p) (sym same) ∙ sym is)
                  (In-joined_with g ps p i org (e ∙ ap (λ (y : Grant). y.project_id) same)))
            | inr n ↦
                In-append_right x (joined_with g ps) (join_grants gs ps)
                  (rest.1 (h, n, p, i, org, e, is))
          ],
    )

pub stored_of-Join :
    (s : Store) (x : StoredGrant)
    → (In x (stored_of s) → Join s.grants s.projects x)
      × (Join s.grants s.projects x → In x (stored_of s))
unfolding stored_of
stored_of-Join s x = join_grants-Join s.grants s.projects x
