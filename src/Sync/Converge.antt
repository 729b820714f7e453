-- ===== src/Sync/Converge.antt =====
-- Where `apply` of src/write/sync.rs leaves the tables.
use project_db.Base.{
  ℕ, Text, text_eq, text_eq_iff, to_ascii_lowercase, ◌≡◌, ◌≢◌, refl, sym, ap, ◌∙◌, subst, inl, inr,
  Bool, true, false, not, ◌&&◌, Bool-cases, List, [], ◌∷◌, map, keep, In, In-map, In-keep,
  In_of_keep, any_of_In, In_of_any, and-right, arith, ==_iff,
}
use mathlib.Core.Bool.{false≢true}
use project_db.Base.Distinct.{Distinct, Distinct-unique}
use project_db.Store.{Store, Project, active, is_org, has_id, update_rows}
use project_db.Store.Rows.{In-update_rows_other, In_of_update_rows, has_id_iff-to}
use project_db.Store.Valid.{IsValid}
use project_db.Declared.{Declared}
use project_db.Sync.Apply.{stored_rows, to_archive, is_named, is_active, is_listed, archived_row}
use project_db.Sync.Steps.{key_of, Met}
use project_db.Sync.Loop.{Ready, Written}

-- The tables are as declared: every declared row is stored as the declaration wants it, and no
-- other organisation's row is active.
pub record Converged (ds : List Declared) (t : Store) : Type 0 where
  pub met : (d : Declared) → In d ds → Met d t
  pub only :
      (q : Project)
      → In q t.projects
      → is_org q ≡ true
      → q.status ≡ active
      → (d : Declared) × In d ds × (key_of q ≡ d.key)

pub not_named :
    (ds : List Declared) (q : Project)
    → is_named ds q ≡ false
    → (d : Declared) → In d ds
    → key_of q ≢ d.key
unfolding is_named
not_named ds q h d m e = false≢true (
    sym h
    ∙ any_of_In (λ x. text_eq x.key (key_of q)) d ds m ((text_eq_iff d.key (key_of q)).1 (sym e)))

pub named :
    (ds : List Declared) (q : Project)
    → is_named ds q ≡ true
    → (d : Declared) × In d ds × (key_of q ≡ d.key)
unfolding is_named
named ds q h =
    let (d, m, e) = In_of_any (λ x. text_eq x.key (key_of q)) ds h in
    (d, m, sym ((text_eq_iff d.key (key_of q)).0 e))

pub Ready-of_stored_rows :
    (ds : List Declared) (s : Store)
    → IsValid s
    → ((d : Declared) → In d ds → d.key ≡ to_ascii_lowercase d.path)
    → Distinct (λ (d : Declared). d.key) ds
    → Ready (stored_rows s) ds s
unfolding stored_rows
Ready-of_stored_rows ds s v folded keys = record {
  valid = v;
  folded = folded;
  keys = keys;
  there = λ r m d n e. (In_of_keep is_org r s.projects m).0;
  org = λ r m. (In_of_keep is_org r s.projects m).1;
}

In_of_map_id :
    (rs : List Project) (i : Text)
    → In i (map (λ r. r.id) rs)
    → (r : Project) × In r rs × (i ≡ r.id)
In_of_map_id [] i m = absurd m
In_of_map_id (r ∷ rs) i (inl e) = (r, inl refl, e)
In_of_map_id (r ∷ rs) i (inr m) = let (q, n, e) = In_of_map_id rs i m in (q, inr n, e)

-- A row that the archive lists was stored, and is not named.
is_listed-stored :
    (ds : List Declared) (s : Store) (q : Project)
    → is_listed (to_archive ds (stored_rows s)) q ≡ true
    → (r : Project) × In r s.projects × (is_named ds r ≡ false) × (q.id ≡ r.id)
unfolding is_listed to_archive stored_rows
is_listed-stored ds s q h =
    let p : Project → Bool = λ r. is_active r && not (is_named ds r) in
    let (i, m, t) = In_of_any (λ i. has_id i q) (to_archive ds (stored_rows s)) h in
    let (r, n, e) = In_of_map_id (keep p (stored_rows s)) i m in
    let (k, b) = In_of_keep p r (stored_rows s) n in
    (
      r,
      (In_of_keep is_org r s.projects k).0,
      not-true (and-right (is_active r) (not (is_named ds r)) b),
      has_id_iff-to i q t ∙ e,
    )
  where
    not-true : {b : Bool} → not b ≡ true → b ≡ false
    not-true {b} h = ground arith

-- A stored organisation's row that is active and not named is listed.
stored-is_listed :
    (ds : List Declared) (s : Store) (q : Project)
    → In q s.projects
    → is_org q ≡ true
    → q.status ≡ active
    → is_named ds q ≡ false
    → is_listed (to_archive ds (stored_rows s)) q ≡ true
unfolding is_listed to_archive stored_rows has_id
stored-is_listed ds s q m org on unnamed =
    let p : Project → Bool = λ r. is_active r && not (is_named ds r) in
    let here = In-keep is_org q s.projects m org in
    let fits : p q ≡ true = rw ((==_iff q.status active).1 on, unnamed) refl in
    any_of_In (λ i. has_id i q) q.id (to_archive ds (stored_rows s))
      (In-map (λ (r : Project). r.id) q (keep p (stored_rows s))
        (In-keep p q (stored_rows s) here fits))
      ((text_eq_iff q.id q.id).1 refl)

module _ (ds : List Declared) (s t : Store) (written : Written ds s t) (actor : Text)
    (now : ℕ) where
  abbrev listed : Project → Bool
  listed = is_listed (to_archive ds (stored_rows s))

  -- No declared row is listed.
  met-unlisted :
      (d : Declared)
      → In d ds
      → (q : Project) → In q t.projects
      → key_of q ≡ d.key
      → listed q ≡ false
  met-unlisted d m q n e = elim (Bool-cases (listed q)) [
    | inr no_hit ↦ no_hit
    | inl hit ↦
        let (r, k, unnamed, same) = is_listed-stored ds s q hit in
        let there = written.stays r (not_named ds r unnamed) k in
        let is_r =
          Distinct-unique (λ (x : Project). x.id) t.projects written.valid.ids q r n there same in
        absurd (not_named ds r unnamed d m (ap key_of (sym is_r) ∙ e))
  ]

  -- After the archive the tables are as declared.
  pub archived-Converged :
      (u : Store)
      → u.projects ≡ update_rows listed (archived_row actor now) t.projects
      → Converged ds u
  archived-Converged u e = record {
    met = λ d m.
        let (q, n, as_declared) = written.met d m in
        (
          q,
          subst (In q) (sym e) (
              In-update_rows_other listed (archived_row actor now) q t.projects n
                (met-unlisted d m q n as_declared.key)),
          as_declared,
        );
    only = λ q n org on.
        elim (In_of_update_rows listed (archived_row actor now) q t.projects (subst (In q) e n)) [
          | inl (a, k, hit, is) ↦ absurd (omega (arith, on, ap (λ (x : Project). x.status) is))
          | inr (k, unlisted) ↦ elim (Bool-cases (is_named ds q)) [
            | inl yes_named ↦ named ds q yes_named
            | inr unnamed ↦ absurd (
                false≢true (
                  sym unlisted
                  ∙ stored-is_listed ds s q (written.stood q (not_named ds q unnamed) k) org on
                      unnamed))
          ]
        ];
  }
