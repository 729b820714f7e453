-- ===== src/Sync/Pairs.antt =====
-- The rows that `validate` of src/write/sync.rs makes, against the request's entries.
use project_db.Base.{
  ℕ, String, Text, has_slash, ◌≡◌, refl, ap, subst, inl, inr, Bool, true, false, not, Bool-cases,
  not-true, some, Option-cases, List, [], ◌∷◌, any, text_eq, All, arith,
}
use project_db.Base.Int.{ℤ, pos, negsuc}
use project_db.Status.{Result, ok, err, >>=-eq-ok, refuse_unless}
use project_db.Status
use project_db.Path
use project_db.Path.{refuse_reserved_root, is_private_class}
use project_db.Contract.{DeclaredGrant, DeclaredProject}
use project_db.Declared.{Declared}
use project_db.Grants
use project_db.Grants.{is_team_id, known_level, validate_from}
use project_db.Sync.Request.{row, validate_roots, validate_projects, is_rooted, narrow}

-- Two lists of one length, whose entries are related one by one.
abbrev pub Pairwise : {A B : Type 0} → (A → B → Type 0) → List A → List B → Type 0
Pairwise R [] [] = Unit
Pairwise R [] (y ∷ ys) = ⊥
Pairwise R (x ∷ xs) [] = ⊥
Pairwise R (x ∷ xs) (y ∷ ys) = R x y × Pairwise R xs ys

-- The grant as it was sent: its team, and its level as the wire holds it.
abbrev pub IsGrantOf : DeclaredGrant → Text × ℕ → Type 0
IsGrantOf g (team, level) = (team ≡ g.team_id) × (g.level ≡ pos level)

-- The row has what its entry says.
pub record IsRowOf (d : DeclaredProject) (r : Declared) : Type 0 where
  pub path : r.path ≡ d.path
  pub display_name : r.display_name ≡ d.display_name
  pub source_repo : r.source_repo ≡ d.source_repo
  pub grants : Pairwise IsGrantOf d.grants r.grants

ok_eq : {A : Type 0} {a b : A} → ◌≡◌ {A = Result Status.Status A} (ok a) (ok b) → a ≡ b
ok_eq h = cc

not_ok :
    {A : Type 0} {e : Status.Status} {a : A} → ◌≡◌ {A = Result Status.Status A} (err e) (ok a) → ⊥
not_ok h = cc

refused : (b : Bool) (s : Status.Status) → refuse_unless b s ≡ ok tt → b ≡ true
refused true s h = refl
refused false s h = cc

known_level-pos : (z : ℤ) {l : ℕ} → known_level z ≡ some l → z ≡ pos l
unfolding known_level
known_level-pos (pos k) {l} h = ap pos (ground arith)
known_level-pos (negsuc k) h = cc

validate_from-grants :
    (path : Text) (seen : List Text) (gs : List DeclaredGrant) {out : List (Text × ℕ)}
    → validate_from path seen gs ≡ ok out
    → Pairwise IsGrantOf gs out
unfolding validate_from
validate_from-grants path seen [] h = subst (Pairwise IsGrantOf []) (ok_eq h) tt
validate_from-grants path seen (g ∷ gs) h = elim (Option-cases (known_level g.level)) [
  | inl e ↦ absurd (not_ok (rw (e, validate_from) at h))
  | inr (level, e) ↦ elim (Bool-cases (is_team_id g.team_id)) [
    | inr bad ↦ absurd (not_ok (rw (e, validate_from, bad) at h))
    | inl team ↦ elim (Bool-cases (any (text_eq g.team_id) seen)) [
      | inl twice ↦ absurd (not_ok (rw (e, validate_from, team, twice) at h))
      | inr new ↦
          let (out, more, k) =
            >>=-eq-ok (validate_from path (g.team_id ∷ seen) gs)
              (λ out. ok ((g.team_id, level) ∷ out)) (rw (e, validate_from, team, new) at h) in
          subst (Pairwise IsGrantOf (g ∷ gs)) (ok_eq k) (
            (refl, known_level-pos g.level e),
            validate_from-grants path (g.team_id ∷ seen) gs more,
          )
    ]
  ]
]

row-IsRowOf : (what : String) (d : DeclaredProject) {r : Declared} → row what d ≡ ok r → IsRowOf d r
unfolding row Grants.validate
row-IsRowOf what d {r} h =
    let (_, _, h₁) = >>=-eq-ok (Path.validate what d.path) _ h in
    let (_, _, h₂) = >>=-eq-ok (refuse_reserved_root what d.path) _ h₁ in
    let (_, _, h₃) = >>=-eq-ok (refuse_unless (not (is_private_class d.path)) _) _ h₂ in
    let (_, _, h₄) = >>=-eq-ok (refuse_unless (not (text_eq d.source_repo [])) _) _ h₃ in
    let (_, _, h₅) = >>=-eq-ok (narrow "source_repo" d.path d.source_repo) _ h₄ in
    let (_, _, h₆) = >>=-eq-ok (narrow "display_name" d.path d.display_name) _ h₅ in
    let (grants, teams, h₇) = >>=-eq-ok (Grants.validate d) _ h₆ in
    subst (IsRowOf d) (ok_eq h₇) (record {
      path = refl;
      display_name = refl;
      source_repo = refl;
      grants = validate_from-grants d.path [] d.grants teams;
    })

-- The roots: one row for each, without a slash.
pub validate_roots-Pairwise :
    (ds : List DeclaredProject) {rs : List Declared}
    → validate_roots ds ≡ ok rs
    → Pairwise IsRowOf ds rs × All (λ (r : Declared). has_slash r.path ≡ false) rs
unfolding validate_roots
validate_roots-Pairwise [] h =
    subst (λ rs. Pairwise IsRowOf [] rs × All (λ (r : Declared). has_slash r.path ≡ false) rs)
      (ok_eq h) (tt, tt)
validate_roots-Pairwise (d ∷ ds) h =
    let (r, one, h₁) = >>=-eq-ok (row "roots[].path" d) _ h in
    let (_, top, h₂) = >>=-eq-ok (refuse_unless (not (has_slash d.path)) _) _ h₁ in
    let (rest, more, h₃) = >>=-eq-ok (validate_roots ds) _ h₂ in
    let of = row-IsRowOf "roots[].path" d one in
    let (pairs, tops) = validate_roots-Pairwise ds more in
    let flat = not-true (refused (not (has_slash d.path)) _ top) in
    subst (λ rs. Pairwise IsRowOf (d ∷ ds) rs × All (λ (r : Declared). has_slash r.path ≡ false) rs)
      (ok_eq h₃) ((of, pairs), (rw of.path flat, tops))

-- The projects: one row for each.
pub validate_projects-Pairwise :
    (roots : List Text) (ds : List DeclaredProject) {rs : List Declared}
    → validate_projects roots ds ≡ ok rs
    → Pairwise IsRowOf ds rs
unfolding validate_projects
validate_projects-Pairwise roots [] h = subst (Pairwise IsRowOf []) (ok_eq h) tt
validate_projects-Pairwise roots (d ∷ ds) h =
    let (r, one, h₁) = >>=-eq-ok (row "projects[].path" d) _ h in
    let (_, _, h₂) = >>=-eq-ok (refuse_unless (is_rooted roots r) _) _ h₁ in
    let (rest, more, h₃) = >>=-eq-ok (validate_projects roots ds) _ h₂ in
    subst (Pairwise IsRowOf (d ∷ ds)) (ok_eq h₃)
      (row-IsRowOf "projects[].path" d one, validate_projects-Pairwise roots ds more)
