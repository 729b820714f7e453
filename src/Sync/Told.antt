-- ===== src/Sync/Told.antt =====
-- What a sync has taken away, read off the tables before and after it, against what
-- src/write/sync.rs and src/write/grants.rs count of it.
use project_db.Base.{
  ℕ, suc, Text, text_eq_iff, to_ascii_lowercase, ◌≡◌, refl, sym, ap, ◌∙◌, subst, inl, inr, Bool,
  true, false, not, ◌&&◌, Bool-cases, opposed, not-true, not-false, Option, none, some,
  Option-cases, List, [], ◌∷◌, length, length-map, keep, keep-cong, keep-keep, any, In, any_of_In,
  In_of_any, and-left, and-right, both_true, ◌==◌, ==_iff, if◌then◌else◌,
}
use project_db.Base.Distinct.{Distinct-unique}
use project_db.Store.{Store, Project, active, is_org, has_id, is_some, grant_of}
use project_db.Store.Rows.{has_id_iff-to}
use project_db.Store.Valid.{IsValid}
use project_db.Store.Granted.{grant, grant_of-pair, pair-grant_of}
use project_db.Declared.{Declared}
use project_db.Grants.{StoredGrant, GrantPlan, wants, classify, plan_stored, plan, stored_of}
use project_db.Grants.Planned.{fate}
use project_db.Grants.Levels.{Declares, wanted-Declares, Declares-wanted}
use project_db.Grants.Joined.{stored_of-Join}
use project_db.Sync.Apply.{stored_rows, to_archive, is_named, is_active}
use project_db.Sync.Steps.{key_of}
use project_db.Sync.Converge.{Converged, named, not_named}
use project_db.Sync.Granted.{Granted}
use project_db.Sync.Invariant.{Survives}

abbrev pub is_live : Project → Bool
is_live p = is_org p && is_active p

-- An active organisation's row that the tables hold, and hold no longer as active.
abbrev pub is_put_away : Store → Project → Bool
is_put_away t p = is_live p && any (λ q. has_id p.id q && not (is_active q)) t.projects

-- A grant whose row and team the tables hold no grant for.
abbrev pub is_gone : Store → StoredGrant → Bool
is_gone t g = not (any (grant_of g.project_id g.team_id) t.grants)

same_bool : (x y : Bool) → (x ≡ true → y ≡ true) → (y ≡ true → x ≡ true) → x ≡ y
same_bool true y f g = sym (f refl)
same_bool false true f g = g refl
same_bool false false f g = refl

same_under : (a x y : Bool) → (a ≡ true → x ≡ y) → (a && x) ≡ (a && y)
same_under true x y h = h refl
same_under false x y h = refl

module _ (ds : List Declared) (s t : Store) (w : IsValid t) (converged : Converged ds t)
    (survive : (r : Project) → In r s.projects → Survives r t) where
  -- A live row is put away exactly when the declaration does not name it.
  put_away-unnamed :
      (p : Project)
      → In p s.projects
      → is_live p ≡ true
      → any (λ q. has_id p.id q && not (is_active q)) t.projects ≡ not (is_named ds p)
  unfolding has_id
  put_away-unnamed p m live =
      let (q, n, same) = survive p m in
      let only : (x : Project) → In x t.projects → has_id p.id x ≡ true → x ≡ q = λ x k e.
        Distinct-unique (λ (y : Project). y.id) t.projects w.ids x q k n
          (has_id_iff-to p.id x e ∙ sym same.id) in
      let key : key_of q ≡ key_of p = ap to_ascii_lowercase same.path in
      let org : is_org q ≡ true =
        ap (λ o. not (is_some o)) same.owner ∙ and-left (is_org p) (is_active p) live in
      same_bool _ _
        (λ hit.
          let (x, k, e) = In_of_any (λ q. has_id p.id q && not (is_active q)) t.projects hit in
          let is_q = only x k (and-left (has_id p.id x) (not (is_active x)) e) in
          let resting =
            ap (λ (y : Project). not (is_active y)) (sym is_q)
            ∙ and-right (has_id p.id x) (not (is_active x)) e in
          elim (Bool-cases (is_named ds p)) [
            | inr unnamed ↦ not-false unnamed
            | inl by_name ↦
                let (d, i, at) = named ds p by_name in
                let (r, j, met) = converged.met d i in
                let is_r =
                  Distinct-unique (λ (y : Project). to_ascii_lowercase y.path) t.projects w.paths q
                    r n j (key ∙ at ∙ sym met.key) in
                absurd (
                  opposed
                    ((==_iff q.status active).1 (ap (λ (y : Project). y.status) is_r ∙ met.status))
                    (not-true resting))
          ])
        (λ unnamed. elim (Bool-cases (is_active q)) [
          | inl on ↦
              let (d, i, at) = converged.only q n org ((==_iff q.status active).0 on) in
              absurd (not_named ds p (not-true unnamed) d i (sym key ∙ at))
          | inr off ↦
              any_of_In (λ q. has_id p.id q && not (is_active q)) q t.projects n
                (both_true (has_id p.id q) (not (is_active q)) ((text_eq_iff q.id p.id).1 same.id)
                  (not-false off))
        ])

  -- The archive's list counts the rows that are put away.
  pub to_archive-length :
      length (to_archive ds (stored_rows s)) ≡ length (keep (is_put_away t) s.projects)
  unfolding to_archive stored_rows
  to_archive-length =
      length-map (λ (r : Project). r.id)
        (keep (λ r. is_active r && not (is_named ds r)) (keep is_org s.projects))
      ∙ ap length (
          keep-keep (λ r. is_active r && not (is_named ds r)) is_org s.projects
          ∙ keep-cong (λ r. is_org r && (is_active r && not (is_named ds r))) (is_put_away t)
              s.projects
              (λ p m.
                regrouped (is_org p) (is_active p) (not (is_named ds p))
                ∙ same_under (is_live p) (not (is_named ds p)) _
                    (λ l. sym (put_away-unnamed p m l))))
    where
      regrouped : (a b c : Bool) → (a && (b && c)) ≡ ((a && b) && c)
      regrouped true b c = refl
      regrouped false b c = refl

  module _ (granted : Granted ds t) where
    -- A grant is gone exactly when the declaration wants nothing of its pair.
    gone-unwanted :
        (x : StoredGrant) → In x (stored_of s) → not (is_some (fate (wants ds) x)) ≡ is_gone t x
    gone-unwanted x m =
        let (g, _, p, k, org, id, is) = (stored_of-Join s x).0 m in
        let (q, n, same) = survive p k in
        let on_q : q.id ≡ x.project_id =
          same.id ∙ id ∙ ap (λ (y : StoredGrant). y.project_id) (sym is) in
        let key : key_of q ≡ to_ascii_lowercase x.path =
          ap to_ascii_lowercase same.path
          ∙ ap (λ (y : StoredGrant). to_ascii_lowercase y.path) (sym is) in
        let q_org : is_org q ≡ true = ap (λ o. not (is_some o)) same.owner ∙ org in
        elim (Option-cases (fate (wants ds) x)) [
          | inl none_wanted ↦
              ap (λ o. not (is_some o)) none_wanted
              ∙ sym (not-false (no_grant x q n q_org on_q key none_wanted))
          | inr ((k', t', l), e) ↦
              let d : Declares ds (key_of q) x.team_id l =
                subst (λ y. Declares ds y x.team_id l) (sym key)
                  (wanted-Declares ds (to_ascii_lowercase x.path) x.team_id e) in
              let at : In (grant q.id x.team_id l) t.grants = (granted q n q_org x.team_id l).1 d in
              ap (λ o. not (is_some o)) e
              ∙ ap not (
                  sym (
                    any_of_In (grant_of x.project_id x.team_id) (grant q.id x.team_id l) t.grants at
                      (pair-grant_of x.project_id x.team_id (grant q.id x.team_id l)
                        (ap {B = Text × Text} (λ y. (y, x.team_id)) on_q))))
        ]
      where
        no_grant :
            (x : StoredGrant) (q : Project)
            → In q t.projects
            → is_org q ≡ true
            → q.id ≡ x.project_id
            → key_of q ≡ to_ascii_lowercase x.path
            → fate (wants ds) x ≡ none
            → any (grant_of x.project_id x.team_id) t.grants ≡ false
        no_grant x q n q_org on_q key none_wanted =
            elim (Bool-cases (any (grant_of x.project_id x.team_id) t.grants)) [
              | inr absent ↦ absent
              | inl hit ↦
                  let (g, i, e) = In_of_any (grant_of x.project_id x.team_id) t.grants hit in
                  let of_pair = grant_of-pair x.project_id x.team_id g e in
                  let at : In (grant q.id x.team_id g.level) t.grants =
                    subst (λ (y : Text × Text). In (grant y.0 y.1 g.level) t.grants)
                      (of_pair ∙ ap {B = Text × Text} (λ y. (y, x.team_id)) (sym on_q)) i in
                  absurd (
                    Declares-wanted ds (to_ascii_lowercase x.path) x.team_id g.level
                      (subst (λ y. Declares ds y x.team_id g.level) key
                        ((granted q n q_org x.team_id g.level).0 at))
                      none_wanted)
            ]

-- The plan's deletes count the stored grants of whose pair nothing is wanted.
classify-deletes_length :
    (o : Option (Text × Text × ℕ)) (g : StoredGrant) (p : GrantPlan)
    → length (classify o g p).deletes
      ≡ length (if not (is_some o) then (g.project_id, g.team_id) ∷ p.deletes else p.deletes)
classify-deletes_length none g p = refl
classify-deletes_length (some (k, t, level)) g p = elim (Bool-cases (level == g.level)) [
  | inl same ↦ rw same
  | inr other ↦ rw other
]

plan_stored-length :
    (ws : List (Text × Text × ℕ)) (gs : List StoredGrant)
    → length (plan_stored ws gs).deletes ≡ length (keep (λ g. not (is_some (fate ws g))) gs)
unfolding plan_stored
plan_stored-length ws [] = refl
plan_stored-length ws (g ∷ gs) =
    classify-deletes_length (fate ws g) g (plan_stored ws gs)
    ∙ one (fate ws g) (plan_stored-length ws gs)
  where
    one :
        (o : Option (Text × Text × ℕ))
        → length (plan_stored ws gs).deletes ≡ length (keep (λ g. not (is_some (fate ws g))) gs)
        → length (
            if not (is_some o)
            then (g.project_id, g.team_id) ∷ (plan_stored ws gs).deletes
            else (plan_stored ws gs).deletes)
          ≡ length (
              if not (is_some o)
              then g ∷ keep (λ g. not (is_some (fate ws g))) gs
              else keep (λ g. not (is_some (fate ws g))) gs)
    one none h = ap suc h
    one (some x) h = h

module _ (ds : List Declared) (s t : Store) (w : IsValid t) (converged : Converged ds t)
    (survive : (r : Project) → In r s.projects → Survives r t) (granted : Granted ds t) where
  -- The plan's deletes count the grants that are gone.
  pub deletes-length :
      length (plan ds (stored_of s)).deletes ≡ length (keep (is_gone t) (stored_of s))
  unfolding plan
  deletes-length =
      plan_stored-length (wants ds) (stored_of s)
      ∙ ap length (
          keep-cong (λ g. not (is_some (fate (wants ds) g))) (is_gone t) (stored_of s)
            (gone-unwanted ds s t w converged survive granted))
