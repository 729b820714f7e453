-- ===== src/Grants/Planned.antt =====
-- What `plan` of src/write/grants.rs does with the stored grants.
use project_db.Base.{
  ℕ, suc, ◌+◌, Text, text_eq, text_eq_iff, to_ascii_lowercase, length, ◌≡◌, refl, sym, ap, ◌∙◌,
  subst, ◌⊎◌, inl, inr, ◌↔◌, Bool, true, false, Option, none, some, Option-cases, Bool-cases, List,
  [], ◌∷◌, In, and-left, and-right, both_true, find_last, find_last-none, In_of_find_last,
  In-append_cases, In-append_left, In-append_right, arith, ◌==◌, if◌then◌else◌,
}
use project_db.Declared.{Declared}
use project_db.Grants.{
  StoredGrant, GrantPlan, wants, wanted, for_pair, row_wants, classify, plan_stored, plan,
}

-- What the declaration wants of a stored grant's pair.
abbrev pub fate : List (Text × Text × ℕ) → StoredGrant → Option (Text × Text × ℕ)
fate ws g = wanted ws (to_ascii_lowercase g.path) g.team_id

-- A stored grant that nothing wants, with its key.
abbrev pub Unwanted : List (Text × Text × ℕ) → List StoredGrant → Text × Text → Type 0
Unwanted ws stored d =
    (g : StoredGrant) × In g stored × (fate ws g ≡ none) × (d ≡ (g.project_id, g.team_id))

abbrev pub size : GrantPlan → ℕ
size p = length p.deletes + length p.updates + p.unchanged

classify-size :
    (w : Option (Text × Text × ℕ)) (g : StoredGrant) (p : GrantPlan)
    → size (classify w g p) ≡ suc (size p)
classify-size none g p = omega arith
classify-size (some (k, t, level)) g p = elim (Bool-cases (level == g.level)) [
  | inl same ↦ ground arith
  | inr other ↦ ground arith
]

plan_stored-size :
    (ws : List (Text × Text × ℕ)) (stored : List StoredGrant)
    → size (plan_stored ws stored) ≡ length stored
unfolding plan_stored
plan_stored-size ws [] = refl
plan_stored-size ws (g ∷ gs) =
    classify-size (fate ws g) g (plan_stored ws gs) ∙ ap suc (plan_stored-size ws gs)

wanted-deletes :
    (b : Bool) (p : GrantPlan) (n : ℕ) (us : List (Text × Text × ℕ))
    → (if b then record p { unchanged = n } else record p { updates = us }).deletes ≡ p.deletes
wanted-deletes true p n us = refl
wanted-deletes false p n us = refl

some_ne : {A : Type 0} {a : A} → some a ≡ none → ⊥
some_ne h = cc

classify-deletes :
    (w : Option (Text × Text × ℕ)) (g : StoredGrant) (p : GrantPlan) (d : Text × Text)
    → In d (classify w g p).deletes
      ↔ (((w ≡ none) × (d ≡ (g.project_id, g.team_id))) ⊎ In d p.deletes)
classify-deletes none g p d = (
  λ m. elim m [ inl e ↦ inl (refl, e) | inr n ↦ inr n ],
  λ m. elim m [ inl e ↦ inl e.1 | inr n ↦ inr n ],
)
classify-deletes (some (k, t, level)) g p d =
    subst
      (λ ds. In d ds ↔ (
        ((◌≡◌ {A = Option (Text × Text × ℕ)} (some (k, t, level)) none)
          × (d ≡ (g.project_id, g.team_id)))
        ⊎ In d p.deletes))
      (sym (wanted-deletes (level == g.level) p _ _))
      (λ m. inr m, λ m. elim m [ inl (e, _) ↦ absurd (some_ne e) | inr n ↦ n ])

pub plan_stored-deletes :
    (ws : List (Text × Text × ℕ)) (stored : List StoredGrant) (d : Text × Text)
    → In d (plan_stored ws stored).deletes ↔ Unwanted ws stored d
unfolding plan_stored
plan_stored-deletes ws [] d = (λ m. absurd m, λ u. let (g, at, _, _) = u in absurd at)
plan_stored-deletes ws (g ∷ gs) d =
    let step = classify-deletes (fate ws g) g (plan_stored ws gs) d in
    let rest = plan_stored-deletes ws gs d in
    (
      λ m. elim (step.0 m) [
        | inl (e, k) ↦ (g, inl refl, e, k)
        | inr n ↦ let (h, at, e, k) = rest.0 n in (h, inr at, e, k)
      ],
      λ u.
          let (h, at, e, k) = u in
          step.1 (elim at [
            | inl same ↦ inl (
              ap (fate ws) (sym same) ∙ e,
              k ∙ ap (λ (x : StoredGrant). (x.project_id, x.team_id)) same,
            )
            | inr n ↦ inr (rest.1 (h, n, e, k))
          ]),
    )

pub triple :
    {k key t team : Text} {l level : ℕ}
    → k ≡ key
    → t ≡ team
    → l ≡ level
    → ◌≡◌ {A = Text × Text × ℕ} (k, t, l) (key, team, level)
triple a b c = cc

In-row_wants :
    (key : Text) (gs : List (Text × ℕ)) (w : Text × Text × ℕ)
    → In w (row_wants key gs) ↔ ((w.0 ≡ key) × In (w.1, w.2) gs)
In-row_wants key [] w = (λ m. absurd m, λ m. absurd m.1)
In-row_wants key ((team, level) ∷ gs) w =
    let rest = In-row_wants key gs w in
    (
      λ m. elim m [
        | inl e ↦
            (ap (λ (x : Text × Text × ℕ). x.0) e, inl (ap (λ (x : Text × Text × ℕ). (x.1, x.2)) e))
        | inr n ↦ let (k, at) = rest.0 n in (k, inr at)
      ],
      λ m.
          let (k, at) = m in
          elim at [
            | inl e ↦ inl (triple k (ap (λ (x : Text × ℕ). x.0) e) (ap (λ (x : Text × ℕ). x.1) e))
            | inr n ↦ inr (rest.1 (k, n))
          ],
    )

pub In-wants :
    (ds : List Declared) (w : Text × Text × ℕ)
    → In w (wants ds) ↔ ((d : Declared) × In d ds × (w.0 ≡ d.key) × In (w.1, w.2) d.grants)
In-wants [] w = (λ m. absurd m, λ m. let (d, at, _, _) = m in absurd at)
In-wants (d ∷ ds) w =
    let rest = In-wants ds w in
    (
      λ m. elim (In-append_cases w (row_wants d.key d.grants) (wants ds) m) [
        | inl n ↦ let (k, at) = (In-row_wants d.key d.grants w).0 n in (d, inl refl, k, at)
        | inr n ↦ let (e, at, k, g) = rest.0 n in (e, inr at, k, g)
      ],
      λ m.
          let (e, at, k, g) = m in
          elim at [
            | inl same ↦ In-append_left w (row_wants d.key d.grants) (wants ds) (
                (In-row_wants d.key d.grants w).1 (
                  k ∙ ap (λ (x : Declared). x.key) same,
                  subst (λ (x : Declared). In (w.1, w.2) x.grants) same g,
                ))
            | inr n ↦ In-append_right w (row_wants d.key d.grants) (wants ds) (rest.1 (e, n, k, g))
          ],
    )

not_both : true ≡ false → ⊥
not_both h = cc

for_pair_same : (key team : Text) (l : ℕ) → for_pair key team (key, team, l) ≡ true
unfolding for_pair
for_pair_same key team l =
    both_true (text_eq key key) (text_eq team team) ((text_eq_iff key key).1 refl)
      ((text_eq_iff team team).1 refl)

pub wanted-none :
    (ws : List (Text × Text × ℕ)) (key team : Text)
    → (wanted ws key team ≡ none) ↔ ((l : ℕ) → ¬ (In (key, team, l) ws))
unfolding wanted for_pair
wanted-none ws key team = (
  λ h l m.
      not_both
        (sym (for_pair_same key team l) ∙ find_last-none (for_pair key team) ws h (key, team, l) m),
  λ no. elim (Option-cases (find_last (for_pair key team) ws)) [
    | inl e ↦ e
    | inr ((k, t, l), e) ↦
        let (m, p) = In_of_find_last (for_pair key team) ws e in
        absurd (
          no l (
            subst (λ x. In x ws)
              (triple ((text_eq_iff k key).0 (and-left (text_eq k key) (text_eq t team) p))
                ((text_eq_iff t team).0 (and-right (text_eq k key) (text_eq t team) p)) refl)
              m))
  ],
)

-- The key of a stored grant whose team no declared row of that path, with ASCII case folded, names.
abbrev pub Undeclared : List Declared → List StoredGrant → Text × Text → Type 0
Undeclared declared stored d =
    (g : StoredGrant) × In g stored
    × ((r : Declared) (l : ℕ)
        → In r declared
        → to_ascii_lowercase g.path ≡ r.key
        → ¬ (In (g.team_id, l) r.grants))
    × (d ≡ (g.project_id, g.team_id))

Unwanted-Undeclared :
    (declared : List Declared) (stored : List StoredGrant) (d : Text × Text)
    → Unwanted (wants declared) stored d ↔ Undeclared declared stored d
Unwanted-Undeclared declared stored d = (
  λ u.
      let (g, at, e, k) = u in
      (
        g,
        at,
        λ r l m same has.
            (wanted-none (wants declared) (to_ascii_lowercase g.path) g.team_id).0 e l
              ((In-wants declared (to_ascii_lowercase g.path, g.team_id, l)).1 (r, m, same, has)),
        k,
      ),
  λ u.
      let (g, at, never, k) = u in
      (
        g,
        at,
        (wanted-none (wants declared) (to_ascii_lowercase g.path) g.team_id).1 (λ l m.
            let (r, n, same, has) =
              (In-wants declared (to_ascii_lowercase g.path, g.team_id, l)).0 m in
            never r l n same has),
        k,
      ),
)

-- The plan deletes, updates or leaves each stored grant, counting each once, and its deletes are
-- exactly the keys of the stored grants whose team no declared row of the grant's path, with ASCII
-- case folded, names.
pub plan-Undeclared :
    (declared : List Declared) (stored : List StoredGrant)
    → (size (plan declared stored) ≡ length stored)
      × ((d : Text × Text) → In d (plan declared stored).deletes ↔ Undeclared declared stored d)
unfolding plan
plan-Undeclared declared stored = (
  plan_stored-size (wants declared) stored,
  λ d.
      let first = plan_stored-deletes (wants declared) stored d in
      let second = Unwanted-Undeclared declared stored d in
      (λ m. second.0 (first.0 m), λ u. first.1 (second.1 u)),
)
