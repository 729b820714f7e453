-- ===== src/Store/Granted.antt =====
-- What the statements on `project_grant` (src/schema.rs, src/write/grants.rs) do to its rows.
use project_db.Base.{
  ℕ, Text, text_eq, text_eq_iff, ◌≡◌, refl, sym, ap, ◌∙◌, subst, inl, inr, Bool, true, false, not,
  and-left, and-right, both_true, opposed, Bool-cases, List, [], ◌∷◌, ◌++◌, In, In_of_any,
  any_of_In, In_of_keep, In-append_left, In-append_cases, any, keep, All-In, In-All,
}
use project_db.Base.Distinct.{Distinct, Distinct-snoc}
use project_db.Status.{Result, ok}
use project_db.Sql.{EngineError}
use project_db.Store.{
  Store, Project, Grant, grant_of, delete_grant, update_grant, insert_grant, insert_project,
  update_projects, level_ok, has_id, update_rows,
}
use project_db.Store.Rows.{
  In-update_rows, In-update_rows_other, In_of_update_rows, Distinct-update_rows, has_id_iff-to,
  insert_project-Inserted, update_projects-ok, delete_grant-projects, update_grant-projects,
  insert_grant-projects,
}

abbrev pub pair : Grant → Text × Text
pair g = (g.project_id, g.team_id)

abbrev pub grant : Text → Text → ℕ → Grant
grant project team level = record { project_id = project; team_id = team; level = level }

pub grant_of-pair : (p t : Text) (g : Grant) → grant_of p t g ≡ true → pair g ≡ (p, t)
grant_of-pair p t g h =
    let a : g.project_id ≡ p =
      (text_eq_iff g.project_id p).0 (and-left (text_eq g.project_id p) (text_eq g.team_id t) h) in
    let b : g.team_id ≡ t =
      (text_eq_iff g.team_id t).0 (and-right (text_eq g.project_id p) (text_eq g.team_id t) h) in
    ap {B = Text × Text} (λ x. (x, g.team_id)) a ∙ ap {B = Text × Text} (λ x. (p, x)) b

pub pair-grant_of : (p t : Text) (g : Grant) → pair g ≡ (p, t) → grant_of p t g ≡ true
pair-grant_of p t g h =
    both_true _ _ ((text_eq_iff g.project_id p).1 (ap (λ x. x.0) h))
      ((text_eq_iff g.team_id t).1 (ap (λ x. x.1) h))

done_eq :
    {a t : Store} → ◌≡◌ {A = Result EngineError (Unit × Store)} (ok (tt, a)) (ok (tt, t)) → t ≡ a
done_eq h = cc

pub delete_grant-grants :
    (p t : Text) (s s' : Store)
    → delete_grant p t s ≡ ok (tt, s')
    → s'.grants ≡ keep (λ g. not (grant_of p t g)) s.grants
unfolding delete_grant
delete_grant-grants p t s s' h = ap (λ (x : Store). x.grants) (done_eq h)

pub update_grant-grants :
    (p t : Text) (l : ℕ) (s s' : Store)
    → update_grant p t l s ≡ ok (tt, s')
    → s'.grants ≡ update_rows (grant_of p t) (λ g. record g { level = l }) s.grants
unfolding update_grant
update_grant-grants p t l s s' h = elim (Bool-cases (level_ok l)) [
  | inl good ↦ ap (λ (x : Store). x.grants) (done_eq (rw good at h))
  | inr bad ↦ cc (rw bad at h)
]

-- An insert that succeeded added its grant, on a stored row, under a new key.
pub record Added (p t : Text) (l : ℕ) (s s' : Store) : Type 0 where
  pub result : s'.grants ≡ s.grants ++ grant p t l ∷ []
  pub there : any (has_id p) s.projects ≡ true
  pub free : any (grant_of p t) s.grants ≡ false

pub insert_grant-Added :
    (p t : Text) (l : ℕ) (s s' : Store) → insert_grant p t l s ≡ ok (tt, s') → Added p t l s s'
unfolding insert_grant
insert_grant-Added p t l s s' h = elim (Bool-cases (level_ok l)) [
  | inr bad ↦ cc (rw bad at h)
  | inl good ↦ elim (Bool-cases (any (has_id p) s.projects)) [
    | inr gone ↦ cc (rw (good, gone) at h)
    | inl there ↦ elim (Bool-cases (any (grant_of p t) s.grants)) [
      | inl taken ↦ cc (rw (good, there, taken) at h)
      | inr free ↦ record {
        result = ap (λ (x : Store). x.grants) (done_eq (rw (good, there, free) at h));
        there = there;
        free = free;
      }
    ]
  ]
]

-- What the foreign key, the primary key and the order of the statements keep: every grant is on a
-- stored row, and a team has at most one grant on a row.
pub record IsGranted (s : Store) : Type 0 where
  pub rows : (g : Grant) → In g s.grants → (r : Project) × In r s.projects × (r.id ≡ g.project_id)
  pub keys : Distinct pair s.grants

-- The rows' ids are still there, and the grants are the same.
pub IsGranted-same_grants :
    {s t : Store}
    → t.grants ≡ s.grants
    → ((r : Project) → In r s.projects → (q : Project) × In q t.projects × (q.id ≡ r.id))
    → IsGranted s
    → IsGranted t
IsGranted-same_grants e stay v = record {
  rows = λ g m.
      let (r, n, id) = v.rows g (subst (In g) e m) in
      let (q, k, same) = stay r n in (q, k, same ∙ id);
  keys = subst (Distinct pair) (sym e) v.keys;
}

pub insert_project-IsGranted :
    (r : Project) {s t : Store} → insert_project r s ≡ ok (tt, t) → IsGranted s → IsGranted t
insert_project-IsGranted r {s} {t} h v =
    let i = insert_project-Inserted r s t h in
    IsGranted-same_grants (ap (λ (x : Store). x.grants) i.result)
      (λ q m. (
        q,
        subst (λ (x : Store). In q x.projects) (sym i.result) (In-append_left q s.projects _ m),
        refl,
      ))
      v

pub update_projects-IsGranted :
    (p : Project → Bool) (f : Project → Project)
    → ((r : Project) → (f r).id ≡ r.id)
    → {s t : Store} → update_projects p f s ≡ ok (tt, t)
    → IsGranted s
    → IsGranted t
update_projects-IsGranted p f same {s} {t} h v =
    let (result, _) = update_projects-ok p f s t h in
    IsGranted-same_grants (ap (λ (x : Store). x.grants) result)
      (λ q m.
        subst (λ (x : Store). (y : Project) × In y x.projects × (y.id ≡ q.id)) (sym result)
          (elim (Bool-cases (p q)) [
            | inl hit ↦ (f q, In-update_rows p f q s.projects m hit, same q)
            | inr miss ↦ (q, In-update_rows_other p f q s.projects m miss, refl)
          ]))
      v

Distinct-keep :
    {A K : Type 0} (key : A → K) (p : A → Bool) (xs : List A)
    → Distinct key xs
    → Distinct key (keep p xs)
Distinct-keep key p [] h = tt
Distinct-keep {A} key p (x ∷ xs) h = elim (Bool-cases (p x)) [
  | inr out ↦ rw out (Distinct-keep key p xs h.1)
  | inl in_it ↦ rw in_it (
    In-All (λ (y : A). ¬ (key x ≡ key y)) (keep p xs)
        (λ y m. All-In (λ (y : A). ¬ (key x ≡ key y)) xs h.0 y (In_of_keep p y xs m).0),
    Distinct-keep key p xs h.1,
  )
]

pub delete_grant-IsGranted :
    (p t : Text) (s s' : Store) → delete_grant p t s ≡ ok (tt, s') → IsGranted s → IsGranted s'
delete_grant-IsGranted p t s s' h v =
    let same = delete_grant-grants p t s s' h in
    record {
      rows = λ g m.
          let n = (In_of_keep _ g s.grants (subst (In g) same m)).0 in
          subst (λ ps. (r : Project) × In r ps × (r.id ≡ g.project_id))
            (sym (delete_grant-projects p t s s' h)) (v.rows g n);
      keys = subst (Distinct pair) (sym same) (Distinct-keep pair _ s.grants v.keys);
    }

pub update_grant-IsGranted :
    (p t : Text) (l : ℕ) (s s' : Store)
    → update_grant p t l s ≡ ok (tt, s')
    → IsGranted s
    → IsGranted s'
update_grant-IsGranted p t l s s' h v =
    let same = update_grant-grants p t l s s' h in
    let set : Grant → Grant = λ g. record g { level = l } in
    record {
      rows = λ g m.
          subst (λ ps. (r : Project) × In r ps × (r.id ≡ g.project_id))
            (sym (update_grant-projects p t l s s' h))
            (elim (In_of_update_rows (grant_of p t) set g s.grants (subst (In g) same m)) [
              | inl (a, k, _, is) ↦
                  let (r, n, id) = v.rows a k in
                  (r, n, id ∙ ap (λ (x : Grant). x.project_id) (sym is))
              | inr (k, _) ↦ v.rows g k
            ]);
      keys =
          subst (Distinct pair) (sym same)
            (Distinct-update_rows (grant_of p t) set pair (λ a. refl) s.grants v.keys);
    }

pub insert_grant-IsGranted :
    (p t : Text) (l : ℕ) (s s' : Store)
    → insert_grant p t l s ≡ ok (tt, s')
    → IsGranted s
    → IsGranted s'
insert_grant-IsGranted p t l s s' h v =
    let a = insert_grant-Added p t l s s' h in
    record {
      rows = λ g m.
          subst (λ ps. (r : Project) × In r ps × (r.id ≡ g.project_id))
            (sym (insert_grant-projects p t l s s' h))
            (elim (In-append_cases g s.grants (grant p t l ∷ []) (subst (In g) a.result m)) [
              | inl n ↦ v.rows g n
              | inr (inr x) ↦ absurd x
              | inr (inl is) ↦
                  let (r, n, hit) = In_of_any (has_id p) s.projects a.there in
                  (r, n, has_id_iff-to p r hit ∙ ap (λ (x : Grant). x.project_id) (sym is))
            ]);
      keys = subst (Distinct pair) (sym a.result) (
          Distinct-snoc pair s.grants (grant p t l) v.keys (λ g m e.
            opposed (any_of_In (grant_of p t) g s.grants m (pair-grant_of p t g e)) a.free));
    }
