-- ===== src/Sync/Declaration.antt =====
-- What `validate` of src/write/sync.rs lets through.
use project_db.Base.{
  ℕ, ◌≤◌, ◌<◌, ◌==◌, ==_iff, slash, grow, String, Text, text_eq, text_eq_iff, length, has_slash,
  split, to_ascii_lowercase, ◌≡◌, ◌≢◌, refl, sym, ap, ◌∙◌, subst, inl, inr, Bool, true, false, ◌||◌,
  not, List, [], ◌∷◌, ◌++◌, map, any, In, All, In-All, All-In, In-append_cases, arith, Bool-cases,
  and-left, and-right, In_of_any,
}
use project_db.Base.Distinct.{Distinct}
use project_db.Status.{Status, Result, ok, >>=-eq-ok, refuse_unless}
use project_db.Path
use project_db.Path.{refuse_reserved_root, is_private_class}
use project_db.Path.Grammar.{IsProjectPath, validate_iff}
use project_db.Path.Ancestors.{IsAbove}
use project_db.Contract.{DeclaredProject, SyncProjectsRequest}
use project_db.Declared.{Declared}
use project_db.Grants
use project_db.Grants.Exact.{IsGrant, validate-IsGrant}
use project_db.Sync.Pairs.{Pairwise, IsRowOf, validate_roots-Pairwise, validate_projects-Pairwise}
use project_db.Sync.Request.{
  row, validate_roots, validate_projects, refuse_duplicates, validate, narrow, is_rooted,
  first_part, max_chars, no_projects,
}

-- A row that may be written: an organisation path with its folded key, a repository, and values
-- that fit their columns, with grants of known levels to distinct teams.
pub record IsDeclared (d : Declared) : Type 0 where
  pub folded : d.key ≡ to_ascii_lowercase d.path
  pub path : IsProjectPath d.path
  pub organisation : is_private_class d.path ≡ false
  pub governed : d.source_repo ≢ []
  pub repo_fits : length d.source_repo ≤ max_chars
  pub name_fits : length d.display_name ≤ max_chars
  pub granted : All IsGrant d.grants
  pub teams : Distinct (λ (g : Text × ℕ). g.0) d.grants

refuse_unless-ok : (b : Bool) (s : Status) → refuse_unless b s ≡ ok tt → b ≡ true
refuse_unless-ok true s h = refl
refuse_unless-ok false s h = cc

narrow-ok :
    (field : String) (path value : Text)
    → narrow field path value ≡ ok tt
    → length value ≤ max_chars
narrow-ok field path value h = ground arith

ok_eq : {A : Type 0} {a b : A} → ◌≡◌ {A = Result Status A} (ok a) (ok b) → a ≡ b
ok_eq h = cc

not-true : {b : Bool} → not b ≡ true → b ≡ false
not-true {b} h = ground arith

not_absurd : {b : Bool} → not b ≡ true → b ≡ true → ⊥
not_absurd {b} h k = ground arith

not_seen : (a b : Bool) → (a || b) ≡ false → a ≡ true → ⊥
not_seen true b h k = cc
not_seen false b h k = cc

or_right : (a b : Bool) → (a || b) ≡ false → b ≡ false
or_right true b h = cc
or_right false b h = h

row-IsDeclared :
    (what : String) (d : DeclaredProject) {r : Declared} → row what d ≡ ok r → IsDeclared r
unfolding row
row-IsDeclared what d {r} h =
    let (_, grammar, h₁) = >>=-eq-ok (Path.validate what d.path) _ h in
    let (_, reserved, h₂) = >>=-eq-ok (refuse_reserved_root what d.path) _ h₁ in
    let (_, org, h₃) = >>=-eq-ok (refuse_unless (not (is_private_class d.path)) _) _ h₂ in
    let (_, repo, h₄) = >>=-eq-ok (refuse_unless (not (text_eq d.source_repo [])) _) _ h₃ in
    let (_, wide, h₅) = >>=-eq-ok (narrow "source_repo" d.path d.source_repo) _ h₄ in
    let (_, name, h₆) = >>=-eq-ok (narrow "display_name" d.path d.display_name) _ h₅ in
    let (grants, teams, h₇) = >>=-eq-ok (Grants.validate d) _ h₆ in
    let (granted, apart) = validate-IsGrant d teams in
    subst IsDeclared (ok_eq h₇) (record {
      folded = refl;
      path = (validate_iff what d.path).0 grammar;
      organisation = not-true (refuse_unless-ok (not (is_private_class d.path)) _ org);
      governed = λ e.
          not_absurd (refuse_unless-ok (not (text_eq d.source_repo [])) _ repo)
            ((text_eq_iff d.source_repo []).1 e);
      repo_fits = narrow-ok "source_repo" d.path d.source_repo wide;
      name_fits = narrow-ok "display_name" d.path d.display_name name;
      granted = granted;
      teams = apart;
    })

validate_roots-IsDeclared :
    (ds : List DeclaredProject) {rs : List Declared} → validate_roots ds ≡ ok rs → All IsDeclared rs
unfolding validate_roots
validate_roots-IsDeclared [] h = subst (All IsDeclared) (ok_eq h) tt
validate_roots-IsDeclared (d ∷ ds) h =
    let (r, one, h₁) = >>=-eq-ok (row "roots[].path" d) _ h in
    let (_, _, h₂) = >>=-eq-ok (refuse_unless (not (has_slash d.path)) _) _ h₁ in
    let (rest, more, h₃) = >>=-eq-ok (validate_roots ds) _ h₂ in
    subst (All IsDeclared) (ok_eq h₃)
      (row-IsDeclared "roots[].path" d one, validate_roots-IsDeclared ds more)

-- Every row of the list is valid and lies under a root.
abbrev Admitted : List Text → Declared → Type 0
Admitted roots r = IsDeclared r × (is_rooted roots r ≡ true)

validate_projects-Admitted :
    (roots : List Text) (ds : List DeclaredProject) {rs : List Declared}
    → validate_projects roots ds ≡ ok rs
    → All (Admitted roots) rs
unfolding validate_projects
validate_projects-Admitted roots [] h = subst (All (Admitted roots)) (ok_eq h) tt
validate_projects-Admitted roots (d ∷ ds) h =
    let (r, one, h₁) = >>=-eq-ok (row "projects[].path" d) _ h in
    let (_, rooted, h₂) = >>=-eq-ok (refuse_unless (is_rooted roots r) _) _ h₁ in
    let (rest, more, h₃) = >>=-eq-ok (validate_projects roots ds) _ h₂ in
    subst (All (Admitted roots)) (ok_eq h₃) (
      (row-IsDeclared "projects[].path" d one, refuse_unless-ok (is_rooted roots r) _ rooted),
      validate_projects-Admitted roots ds more,
    )

-- No row's key is among those seen, and the rows differ in their keys.
refuse_duplicates-Distinct :
    (seen : List Text) (rs : List Declared)
    → refuse_duplicates seen rs ≡ ok tt
    → Distinct (λ (r : Declared). r.key) rs
      × ((r : Declared) → In r rs → any (text_eq r.key) seen ≡ false)
unfolding refuse_duplicates
refuse_duplicates-Distinct seen [] h = (tt, λ r m. absurd m)
refuse_duplicates-Distinct seen (x ∷ rs) h = elim (Bool-cases (any (text_eq x.key) seen)) [
  | inl dup ↦ absurd (ground arith)
  | inr new ↦
      let (apart, unseen) = refuse_duplicates-Distinct (x.key ∷ seen) rs (rw new at h) in
      (
        (
          In-All (λ (y : Declared). x.key ≢ y.key) rs
              (λ y m e.
                not_seen (text_eq y.key x.key) _ (unseen y m)
                  ((text_eq_iff y.key x.key).1 (sym e))),
          apart,
        ),
        λ r m. elim m [
          | inl e ↦ ap (λ (q : Declared). any (text_eq q.key) seen) e ∙ new
          | inr m' ↦ or_right (text_eq r.key x.key) _ (unseen r m')
        ],
      )
]

-- What a request must be to be written: its rows are valid with keys that differ, and each is the
-- row of a root, a single segment, or lies under one.
pub record IsAdmitted (req : SyncProjectsRequest) (rows : List Declared) : Type 0 where
  pub roots : List Declared
  pub projects : List Declared
  pub split : rows ≡ roots ++ projects
  pub of_roots : Pairwise IsRowOf req.roots roots
  pub of_projects : Pairwise IsRowOf req.projects projects
  pub top : (d : Declared) → In d roots → has_slash d.path ≡ false
  pub declared : (d : Declared) → In d rows → IsDeclared d
  pub keys : Distinct (λ (d : Declared). d.key) rows
  pub rooted :
      (d : Declared) → In d projects → (root : Declared) × In root roots × IsAbove root.key d.key

-- A key that has a slash is its first part, a slash, and more.
split-grow : (c : ℕ) (ps : List Text) → 0 < length ps → first_part (grow c ps) ≡ c ∷ first_part ps
split-grow c [] h = absurd (omega arith)
split-grow c (p ∷ ps) h = refl

split-not_empty : (s : Text) → 0 < length (split s)
unfolding split
split-not_empty [] = omega arith
split-not_empty (c ∷ s) = elim (Bool-cases (c == slash)) [
  | inl e ↦ rw e (omega arith)
  | inr e ↦ rw e (grown (split s))
]
  where
    grown : (ps : List Text) → 0 < length (grow c ps)
    grown [] = omega arith
    grown (p ∷ ps) = omega arith

first_part-IsAbove : (s : Text) → has_slash s ≡ true → IsAbove (first_part (split s)) s
unfolding has_slash split
first_part-IsAbove [] h = cc
first_part-IsAbove (c ∷ s) h = elim (Bool-cases (c == slash)) [
  | inl e ↦ rw e (s, ap (λ x. x ∷ s) ((==_iff c slash).0 e))
  | inr e ↦
      let (t, cut) = first_part-IsAbove s (rw e at h) in
      rw (e, split-grow c (split s) (split-not_empty s)) (t, ap (λ x. c ∷ x) cut)
]

is_rooted-root :
    (roots : List Declared) (d : Declared)
    → is_rooted (map (λ r. r.key) roots) d ≡ true
    → (root : Declared) × In root roots × IsAbove root.key d.key
unfolding is_rooted
is_rooted-root roots d h =
    let keys = map (λ (r : Declared). r.key) roots in
    let first = first_part (split d.key) in
    let (k, m, e) = In_of_any (text_eq first) keys (and-right (has_slash d.key) _ h) in
    let (root, there, same) = In_of_map roots k m in
    let above = first_part-IsAbove d.key (and-left (has_slash d.key) _ h) in
    (root, there, subst (λ x. IsAbove x d.key) ((text_eq_iff first k).0 e ∙ same) above)
  where
    In_of_map :
        (rs : List Declared) (k : Text)
        → In k (map (λ r. r.key) rs)
        → (r : Declared) × In r rs × (k ≡ r.key)
    In_of_map [] k m = absurd m
    In_of_map (r ∷ rs) k (inl e) = (r, inl refl, e)
    In_of_map (r ∷ rs) k (inr m) = let (q, n, e) = In_of_map rs k m in (q, inr n, e)

-- What `validate` accepts is a list of rows, one for each root of the request and then one for each
-- of its projects, in order, each with its entry's path, name, repository and grants; each with a
-- legal organisation path, its folded key, a repository, and widths that fit, and with grants of
-- known levels to distinct teams; no two keys are equal, no root has a slash, and every project lies
-- beneath the row of a root of the request by whole segments.
pub validate-IsAdmitted :
    (req : SyncProjectsRequest) {rows : List Declared}
    → validate req ≡ ok rows
    → IsAdmitted req rows
unfolding validate
validate-IsAdmitted req {rows} h = elim (Bool-cases (no_projects req.roots)) [
  | inl none ↦ absurd (ground arith)
  | inr some ↦
      let (roots, a, h₁) = >>=-eq-ok (validate_roots req.roots) _ (rw some at h) in
      let (projects, b, h₂) =
        >>=-eq-ok (validate_projects (map (λ r. r.key) roots) req.projects) _ h₁ in
      let (_, c, h₃) = >>=-eq-ok (refuse_duplicates [] (roots ++ projects)) _ h₂ in
      let (of_roots, tops) = validate_roots-Pairwise req.roots a in
      let rs = validate_roots-IsDeclared req.roots a in
      let ps = validate_projects-Admitted (map (λ r. r.key) roots) req.projects b in
      subst (IsAdmitted req) (ok_eq h₃) (record {
        roots = roots;
        projects = projects;
        split = refl;
        of_roots = of_roots;
        of_projects = validate_projects-Pairwise (map (λ r. r.key) roots) req.projects b;
        top = All-In (λ (r : Declared). has_slash r.path ≡ false) roots tops;
        declared = λ d m. elim (In-append_cases d roots projects m) [
          | inl l ↦ All-In IsDeclared roots rs d l
          | inr r ↦ (All-In (Admitted (map (λ r. r.key) roots)) projects ps d r).0
        ];
        keys = (refuse_duplicates-Distinct [] (roots ++ projects) c).0;
        rooted = λ d m.
            is_rooted-root roots d (All-In (Admitted (map (λ r. r.key) roots)) projects ps d m).1;
      })
]
