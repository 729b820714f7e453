-- ===== src/Grants/Exact.antt =====
-- What `validate` of src/write/grants.rs accepts.
use project_db.Base.{
  ℕ, Text, text_eq, text_eq_iff, ◌≡◌, ◌≢◌, sym, ap, ◌∙◌, subst, ◌⊎◌, inl, inr, Bool, true, false,
  some, Option-cases, Bool-cases, List, [], ◌∷◌, In, All, In-All, any, arith, ◌||◌,
}
use project_db.Base.Int.{ℤ, pos, negsuc}
use project_db.Base.Distinct.{Distinct}
use project_db.Status.{Status, Result, ok, err, >>=-eq-ok}
use project_db.Contract.{DeclaredGrant, DeclaredProject}
use project_db.Grants.{is_team_id, known_level, validate_from, validate}

-- A grant that may be written: a team's id, and one of the two levels.
abbrev pub IsGrant : Text × ℕ → Type 0
IsGrant g = (is_team_id g.0 ≡ true) × ((g.1 ≡ 1) ⊎ (g.1 ≡ 2))

known_level-some : (z : ℤ) {l : ℕ} → known_level z ≡ some l → (l ≡ 1) ⊎ (l ≡ 2)
unfolding known_level
known_level-some (pos k) {l} h = ground arith
known_level-some (negsuc k) h = cc

ok_eq : {A : Type 0} {a b : A} → ◌≡◌ {A = Result Status A} (ok a) (ok b) → a ≡ b
ok_eq h = cc

not_ok : {A : Type 0} {e : Status} {a : A} → ◌≡◌ {A = Result Status A} (err e) (ok a) → ⊥
not_ok h = cc

-- The loop's result, with the teams seen before it.
abbrev Valid : List Text → List (Text × ℕ) → Type 0
Valid seen gs =
    All IsGrant gs
    × Distinct (λ (g : Text × ℕ). g.0) gs
    × ((g : Text × ℕ) → In g gs → any (text_eq g.0) seen ≡ false)

or_right : (a b : Bool) → (a || b) ≡ false → b ≡ false
or_right true b h = cc
or_right false b h = h

or_left : (a b : Bool) → (a || b) ≡ false → a ≡ true → ⊥
or_left true b h k = cc
or_left false b h k = cc

Valid-cons :
    (team : Text) (level : ℕ) (seen : List Text) (gs : List (Text × ℕ))
    → IsGrant (team, level)
    → any (text_eq team) seen ≡ false
    → Valid (team ∷ seen) gs
    → Valid seen ((team, level) ∷ gs)
Valid-cons team level seen gs grant new (all, apart, unseen) = (
  (grant, all),
  (
    In-All (λ (g : Text × ℕ). team ≢ g.0) gs
        (λ g m e. or_left (text_eq g.0 team) _ (unseen g m) ((text_eq_iff g.0 team).1 (sym e))),
    apart,
  ),
  λ g m. elim m [
    | inl e ↦ ap (λ (x : Text × ℕ). any (text_eq x.0) seen) e ∙ new
    | inr n ↦ or_right (text_eq g.0 team) _ (unseen g n)
  ],
)

validate_from-Valid :
    (path : Text) (seen : List Text) (gs : List DeclaredGrant) {out : List (Text × ℕ)}
    → validate_from path seen gs ≡ ok out
    → Valid seen out
unfolding validate_from
validate_from-Valid path seen [] h = subst (Valid seen) (ok_eq h) (tt, tt, λ g m. absurd m)
validate_from-Valid path seen (g ∷ gs) h = elim (Option-cases (known_level g.level)) [
  | inl e ↦ absurd (not_ok (rw (e, validate_from) at h))
  | inr (level, e) ↦ elim (Bool-cases (is_team_id g.team_id)) [
    | inr bad ↦ absurd (not_ok (rw (e, validate_from, bad) at h))
    | inl team ↦ elim (Bool-cases (any (text_eq g.team_id) seen)) [
      | inl twice ↦ absurd (not_ok (rw (e, validate_from, team, twice) at h))
      | inr new ↦
          let (out, more, k) =
            >>=-eq-ok (validate_from path (g.team_id ∷ seen) gs)
              (λ out. ok ((g.team_id, level) ∷ out)) (rw (e, validate_from, team, new) at h) in
          subst (Valid seen) (ok_eq k) (
            Valid-cons g.team_id level seen out (team, known_level-some g.level e) new
              (validate_from-Valid path (g.team_id ∷ seen) gs more))
    ]
  ]
]

-- The grants of a row that validation accepts name well-formed teams, each at one of the two levels
-- and each once.
pub validate-IsGrant :
    (d : DeclaredProject) {gs : List (Text × ℕ)}
    → validate d ≡ ok gs
    → All IsGrant gs × Distinct (λ (g : Text × ℕ). g.0) gs
unfolding validate
validate-IsGrant d h =
    let (all, apart, _) = validate_from-Valid d.path [] d.grants h in (all, apart)
