-- ===== src/Grants/Levels.antt =====
-- The levels that `plan` of src/write/grants.rs sets.
use project_db.Base.{
  ℕ, Text, text_eq, text_eq_iff, to_ascii_lowercase, ◌≡◌, ◌≢◌, refl, sym, ap, ◌∙◌, subst, inl, inr,
  ◌⊎◌, true, false, not, ◌&&◌, Bool-cases, Option, none, some, List, [], ◌∷◌, In, In-keep,
  In_of_keep, In_of_any, and-left, and-right, not-true, not-false, opposed, In_of_find_last, ◌==◌,
  ==_iff,
}
use project_db.Base.Distinct.{Distinct, Distinct-unique}
use project_db.Declared.{Declared}
use project_db.Grants.{
  StoredGrant, GrantPlan, wants, wanted, for_pair, classify, plan_stored, plan, kept,
}
use project_db.Grants.Planned.{fate, In-wants, wanted-none, triple}

-- The declaration gives the level to the team on the row with this folded path.
abbrev pub Declares : List Declared → Text → Text → ℕ → Type 0
Declares ds key team l = (d : Declared) × In d ds × (key ≡ d.key) × In (team, l) d.grants

-- Distinct keys, and distinct teams in each row, give a team one level on a row.
pub Declares-unique :
    (ds : List Declared)
    → Distinct (λ (d : Declared). d.key) ds
    → ((d : Declared) → In d ds → Distinct (λ (g : Text × ℕ). g.0) d.grants)
    → (key team : Text) (l k : ℕ) → Declares ds key team l
    → Declares ds key team k
    → l ≡ k
Declares-unique ds keys teams key team l k (d, m, e, g) (d', m', e', g') =
    let same = Distinct-unique (λ (x : Declared). x.key) ds keys d' d m' m (sym e' ∙ e) in
    ap (λ (x : Text × ℕ). x.1)
      (Distinct-unique (λ (x : Text × ℕ). x.0) d.grants (teams d m) (team, l) (team, k) g
        (subst (λ (x : Declared). In (team, k) x.grants) same g') refl)

pub wanted-Declares :
    (ds : List Declared) (key team : Text) {k t : Text} {l : ℕ}
    → wanted (wants ds) key team ≡ some (k, t, l)
    → Declares ds key team l
unfolding wanted for_pair
wanted-Declares ds key team {k} {t} {l} h =
    let (m, e) = In_of_find_last (for_pair key team) (wants ds) h in
    (In-wants ds (key, team, l)).0 (
      subst (λ x. In x (wants ds))
        (triple ((text_eq_iff k key).0 (and-left (text_eq k key) (text_eq t team) e))
          ((text_eq_iff t team).0 (and-right (text_eq k key) (text_eq t team) e)) refl)
        m)

pub Declares-wanted :
    (ds : List Declared) (key team : Text) (l : ℕ)
    → Declares ds key team l
    → wanted (wants ds) key team ≢ none
Declares-wanted ds key team l d h =
    (wanted-none (wants ds) key team).0 h l ((In-wants ds (key, team, l)).1 d)

-- A stored grant whose pair the declaration wants at another level.
abbrev pub Changed : List (Text × Text × ℕ) → List StoredGrant → Text × Text × ℕ → Type 0
Changed ws stored u =
    (g : StoredGrant) × In g stored
    × (k : Text) × (t : Text) × (fate ws g ≡ some (k, t, u.2))
    × (u.2 ≢ g.level)
    × (u ≡ (g.project_id, g.team_id, u.2))

some_level :
    {k k' t t' : Text} {l l' : ℕ}
    → ◌≡◌ {A = Option (Text × Text × ℕ)} (some (k, t, l)) (some (k', t', l'))
    → l ≡ l'
some_level h = cc

-- What one stored grant adds to the updates.
abbrev Sets : Option (Text × Text × ℕ) → StoredGrant → Text × Text × ℕ → Type 0
Sets w g u =
    (k : Text) × (t : Text) × (w ≡ some (k, t, u.2))
    × (u.2 ≢ g.level)
    × (u ≡ (g.project_id, g.team_id, u.2))

classify-updates :
    (w : Option (Text × Text × ℕ)) (g : StoredGrant) (p : GrantPlan) (u : Text × Text × ℕ)
    → (In u (classify w g p).updates → Sets w g u ⊎ In u p.updates)
      × (Sets w g u ⊎ In u p.updates → In u (classify w g p).updates)
classify-updates none g p u = (λ m. inr m, λ m. elim m [ inl (_, _, e, _, _) ↦ cc | inr n ↦ n ])
classify-updates (some (k, t, level)) g p u = elim (Bool-cases (level == g.level)) [
  | inl same ↦ rw same (
    λ m. inr m,
    λ m. elim m [
      | inr n ↦ n
      | inl (_, _, e, other, _) ↦
          absurd (other (sym (some_level e) ∙ (==_iff level g.level).0 same))
    ],
  )
  | inr other ↦ rw other (
    λ m. elim m [
      | inr n ↦ inr n
      | inl e ↦
          let at : u.2 ≡ level = ap (λ (x : Text × Text × ℕ). x.2) e in
          inl (
            k,
            t,
            ap (λ x. some (k, t, x)) (sym at),
            λ is. opposed ((==_iff level g.level).1 (sym at ∙ is)) other,
            e ∙ ap (λ x. (g.project_id, g.team_id, x)) (sym at),
          )
    ],
    λ m. elim m [
      | inr n ↦ inr n
      | inl (_, _, e, _, is) ↦
          inl (is ∙ ap (λ x. (g.project_id, g.team_id, x)) (sym (some_level e)))
    ],
  )
]

pub plan_stored-updates :
    (ws : List (Text × Text × ℕ)) (stored : List StoredGrant) (u : Text × Text × ℕ)
    → (In u (plan_stored ws stored).updates → Changed ws stored u)
      × (Changed ws stored u → In u (plan_stored ws stored).updates)
unfolding plan_stored
plan_stored-updates ws [] u = (λ m. absurd m, λ c. absurd c.1)
plan_stored-updates ws (g ∷ gs) u =
    let step = classify-updates (fate ws g) g (plan_stored ws gs) u in
    let rest = plan_stored-updates ws gs u in
    (
      λ m. elim (step.0 m) [
        | inl (k, t, e, other, is) ↦ (g, inl refl, k, t, e, other, is)
        | inr n ↦ let (h, at, k, t, e, other, is) = rest.0 n in (h, inr at, k, t, e, other, is)
      ],
      λ c.
          let (h, at, k, t, e, other, is) = c in
          elim at [
            | inl same ↦ step.1 (inl (subst (λ x. Sets (fate ws x) x u) same (k, t, e, other, is)))
            | inr n ↦ step.1 (inr (rest.1 (h, n, k, t, e, other, is)))
          ],
    )

-- The insert that the plan makes of a pair that the declaration wants: one whose pair is not stored.
abbrev pub New : List Declared → List StoredGrant → Text × Text × ℕ → Type 0
New ds stored w = Declares ds w.0 w.1 w.2 × (kept stored w.0 w.1 ≡ false)

pub plan-inserts :
    (ds : List Declared) (stored : List StoredGrant) (w : Text × Text × ℕ)
    → (In w (plan ds stored).inserts → New ds stored w)
      × (New ds stored w → In w (plan ds stored).inserts)
unfolding plan
plan-inserts ds stored w = (
  λ m.
      let (n, b) = In_of_keep (λ x. not (kept stored x.0 x.1)) w (wants ds) m in
      ((In-wants ds w).0 n, not-true b),
  λ (d, absent).
      In-keep (λ x. not (kept stored x.0 x.1)) w (wants ds) ((In-wants ds w).1 d)
        (not-false absent),
)

pub kept-stored :
    (stored : List StoredGrant) (key team : Text)
    → kept stored key team ≡ true
    → (g : StoredGrant) × In g stored × (to_ascii_lowercase g.path ≡ key) × (g.team_id ≡ team)
unfolding kept
kept-stored stored key team h =
    let (g, m, e) =
      In_of_any (λ g. text_eq (to_ascii_lowercase g.path) key && text_eq g.team_id team) stored h in
    (
      g,
      m,
      (text_eq_iff (to_ascii_lowercase g.path) key).0
          (and-left (text_eq (to_ascii_lowercase g.path) key) (text_eq g.team_id team) e),
      (text_eq_iff g.team_id team).0
          (and-right (text_eq (to_ascii_lowercase g.path) key) (text_eq g.team_id team) e),
    )
