-- ===== src/Schema/Alter.antt =====
-- `ALTER TABLE` in src/schema.rs, run twice, and run after another one.
use project_db.Base.{
  Text, text_eq, text_eq_iff, ◌≡◌, sym, ap, ◌∙◌, subst, ◌⊎◌, inl, inr, true, false, Bool-cases,
  List, [], ◌∷◌,
}
use project_db.Status.{Result, ok, err, ◌>>=◌, >>=-eq-ok}
use project_db.Schema.{Table, Database, DdlError, is_table, alter, altering}

pub ok_eq : {A : Type 0} {a b : A} → ◌≡◌ {A = Result DdlError A} (ok a) (ok b) → a ≡ b
ok_eq h = cc

pub not_ok : {A : Type 0} {e : DdlError} {a : A} → ◌≡◌ {A = Result DdlError A} (err e) (ok a) → ⊥
not_ok h = cc

-- An alteration of one table that keeps its name.
abbrev pub Named : (Table → Result DdlError Table) → Type 0
Named f = (t u : Table) → f t ≡ ok u → u.name ≡ t.name

abbrev pub Idempotent : (Table → Result DdlError Table) → Type 0
Idempotent f = (t u : Table) → f t ≡ ok u → f u ≡ ok u

head_eq : {t u : Table} {ts us : List Table} → ◌≡◌ {A = List Table} (t ∷ ts) (u ∷ us) → t ≡ u
head_eq h = cc

tail_eq : {t u : Table} {ts us : List Table} → ◌≡◌ {A = List Table} (t ∷ ts) (u ∷ us) → ts ≡ us
tail_eq h = cc

no_table :
    (n : Text) (f : Table → Result DdlError Table) (us : List Table) → alter n f [] ≡ ok us → ⊥
unfolding alter
no_table n f us h = not_ok h

module _ (n : Text) (f : Table → Result DdlError Table) where
  -- What an alteration of the first table, or of the others, gives.
  alter-here :
      (t u : Table) (ts : List Table)
      → is_table n t ≡ true
      → f t ≡ ok u
      → alter n f (t ∷ ts) ≡ ok (u ∷ ts)
  unfolding alter
  alter-here t u ts hit e = rw (hit, alter, e)

  alter-there :
      (t : Table) (ts us : List Table)
      → is_table n t ≡ false
      → alter n f ts ≡ ok us
      → alter n f (t ∷ ts) ≡ ok (t ∷ us)
  unfolding alter
  alter-there t ts us miss e = rw (miss, e)

  -- An alteration that succeeded altered the first table of that name.
  abbrev Altered : Table → List Table → List Table → Type 0
  Altered t ts us =
      ((is_table n t ≡ true) × (u : Table) × (f t ≡ ok u) × (us ≡ u ∷ ts))
      ⊎ ((is_table n t ≡ false) × (vs : List Table) × (alter n f ts ≡ ok vs) × (us ≡ t ∷ vs))

  alter-Altered : (t : Table) (ts us : List Table) → alter n f (t ∷ ts) ≡ ok us → Altered t ts us
  unfolding alter
  alter-Altered t ts us h = elim (Bool-cases (is_table n t)) [
    | inl hit ↦
        let (u, e, k) = >>=-eq-ok (f t) (λ u. ok (u ∷ ts)) (rw hit at h) in
        inl (hit, u, e, sym (ok_eq k))
    | inr miss ↦
        let (vs, e, k) = >>=-eq-ok (alter n f ts) (λ vs. ok (t ∷ vs)) (rw miss at h) in
        inr (miss, vs, e, sym (ok_eq k))
  ]

  pub alter-settles :
      Named f → Idempotent f → (ts us : List Table) → alter n f ts ≡ ok us → alter n f us ≡ ok us
  alter-settles named again [] us h = absurd (no_table n f us h)
  alter-settles named again (t ∷ ts) us h = elim (alter-Altered t ts us h) [
    | inl (hit, u, e, is) ↦
        subst (λ vs. alter n f vs ≡ ok vs) (sym is)
          (alter-here u u ts (ap (λ x. text_eq x n) (named t u e) ∙ hit) (again t u e))
    | inr (miss, vs, e, is) ↦
        subst (λ vs. alter n f vs ≡ ok vs) (sym is)
          (alter-there t vs vs miss (alter-settles named again ts vs e))
  ]

-- An alteration that does nothing still does nothing after another, if it does so on a table that
-- both alter.
pub alter-spares :
    (n : Text) (f : Table → Result DdlError Table) (m : Text) (g : Table → Result DdlError Table)
    → Named g
    → ((t u : Table) → n ≡ m → f t ≡ ok t → g t ≡ ok u → f u ≡ ok u)
    → (ts us : List Table) → alter n f ts ≡ ok ts
    → alter m g ts ≡ ok us
    → alter n f us ≡ ok us
alter-spares n f m g named both [] us h k = absurd (no_table m g us k)
alter-spares n f m g named both (t ∷ ts) us h k = elim (alter-Altered n f t ts (t ∷ ts) h) [
  | inl (hit, u, e, is) ↦
      let quiet : f t ≡ ok t = e ∙ ap ok (sym (head_eq is)) in
      elim (alter-Altered m g t ts us k) [
        | inl (also, v, e', is') ↦
            let same = sym ((text_eq_iff t.name n).0 hit) ∙ (text_eq_iff t.name m).0 also in
            subst (λ vs. alter n f vs ≡ ok vs) (sym is')
              (alter-here n f v v ts (ap (λ x. text_eq x n) (named t v e') ∙ hit)
                (both t v same quiet e'))
        | inr (_, vs, _, is') ↦
            subst (λ vs. alter n f vs ≡ ok vs) (sym is') (alter-here n f t t vs hit quiet)
      ]
  | inr (miss, ws, e, is) ↦
      let quiet : alter n f ts ≡ ok ts = e ∙ ap ok (sym (tail_eq is)) in
      elim (alter-Altered m g t ts us k) [
        | inl (_, v, e', is') ↦
            subst (λ vs. alter n f vs ≡ ok vs) (sym is')
              (alter-there n f v ts ts (ap (λ x. text_eq x n) (named t v e') ∙ miss) quiet)
        | inr (_, vs, e', is') ↦
            subst (λ vs. alter n f vs ≡ ok vs) (sym is')
              (alter-there n f t vs vs miss (alter-spares n f m g named both ts vs quiet e'))
      ]
]

-- The statement: the tables altered, and nothing else.
pub altering-ok :
    (n : Text) (f : Table → Result DdlError Table) (d e : Database)
    → altering n f d ≡ ok e
    → (alter n f d.tables ≡ ok e.tables) × (e.seeded ≡ d.seeded)
altering-ok n f d e h =
    let (ts, first, k) = >>=-eq-ok (alter n f d.tables) (λ ts. ok (record d { tables = ts })) h in
    (
      first ∙ ap (λ (y : Database). ok y.tables) (ok_eq k),
      ap (λ (y : Database). y.seeded) (sym (ok_eq k)),
    )

pub altering-quiet :
    (n : Text) (f : Table → Result DdlError Table) (d : Database)
    → alter n f d.tables ≡ ok d.tables
    → altering n f d ≡ ok d
altering-quiet n f d h = ap (λ r. r >>= (λ ts. ok (record d { tables = ts }))) h
