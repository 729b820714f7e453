-- ===== src/Read/Filled.antt =====
-- What `with_aliases`, `with_grants` and `row_to_project` (src/read.rs, src/rows.rs) leave of the
-- paths of a page, on tables that nobody changes.
use project_db.Base.{
  ℕ, zero, suc, ◌≤◌, ◌<◌, Text, ◌≡◌, refl, ap, inl, inr, none, Option-cases, Bool-cases, List, [],
  ◌∷◌, ◌++◌, map, length, take, ltb, arith,
}
use project_db.Status.{Result, ok}
use project_db.Sql.{EngineError}
use project_db.Store.{Store, Project, Alias, Grant}
use project_db.Session.{Session, query}
use project_db.Contract.{ProtoProject}
use project_db.Read.Projects.{
  row_to_project, with_aliases, with_grants, fill, put_aliases, put_grants, alias_pairs, grant_rows,
  ids_of, no_ids,
}
use project_db.Read.Pages.{last_path}
use project_db.Read.Resume.{drop}

-- Every statement succeeds and sees the same tables.
pub record Quiet (session : Session) (s : Store) : Type 0 where
  pub calm : (n : ℕ) → session.fault n ≡ none
  pub tables : (n : ℕ) → session.tables n ≡ s

pub query-ok :
    {A : Type 0} {session : Session} {s : Store} (q : Quiet session s) (n : ℕ)
    (run : Store → Result EngineError A) {a : A}
    → run s ≡ ok a
    → query session n run ≡ ok a
unfolding query
query-ok q n run h = rw (q.calm n, q.tables n, h)

abbrev pub paths : List ProtoProject → List Text
paths ps = map (λ (p : ProtoProject). p.path) ps

abbrev pub row_paths : List Project → List Text
row_paths rs = map (λ (r : Project). r.path) rs

path-fill :
    (f : Text → ProtoProject → ProtoProject)
    → ((id : Text) (p : ProtoProject) → (f id p).path ≡ p.path)
    → (ps : List ProtoProject) → paths (map (fill f) ps) ≡ paths ps
path-fill f same [] = refl
path-fill f same (p ∷ ps) = elim (Option-cases p.meta) [
  | inl e ↦ rw (e, fill) (ap (λ ts. p.path ∷ ts) (path-fill f same ps))
  | inr (m, e) ↦ rw (e, fill) (rw (same m.id p) (ap (λ ts. p.path ∷ ts) (path-fill f same ps)))
]

alias_pairs-ok :
    (ids : List Text) (s : Store) → (pairs : List Alias) × (alias_pairs ids s ≡ ok pairs)
unfolding alias_pairs
alias_pairs-ok ids s = (_, refl)

grant_rows-ok : (ids : List Text) (s : Store) → (gs : List Grant) × (grant_rows ids s ≡ ok gs)
unfolding grant_rows
grant_rows-ok ids s = (_, refl)

put_aliases-path :
    (pairs : List Alias) (id : Text) (p : ProtoProject) → (put_aliases pairs id p).path ≡ p.path
unfolding put_aliases
put_aliases-path pairs id p = refl

put_grants-path :
    (gs : List Grant) (id : Text) (p : ProtoProject) → (put_grants gs id p).path ≡ p.path
unfolding put_grants
put_grants-path gs id p = refl

module _ {session : Session} {s : Store} (q : Quiet session s) where
  pub with_aliases-ok :
      (ps : List ProtoProject)
      → (qs : List ProtoProject) × (with_aliases session ps ≡ ok qs) × (paths qs ≡ paths ps)
  unfolding with_aliases
  with_aliases-ok ps = elim (Bool-cases (no_ids (ids_of ps))) [
    | inl t ↦ (ps, rw t, refl)
    | inr f ↦
        let (pairs, e) = alias_pairs-ok (ids_of ps) s in
        (
          map (fill (put_aliases pairs)) ps,
          rw (f, query-ok q 1 (alias_pairs (ids_of ps)) e),
          path-fill (put_aliases pairs) (put_aliases-path pairs) ps,
        )
  ]

  pub with_grants-ok :
      (ps : List ProtoProject)
      → (qs : List ProtoProject) × (with_grants session ps ≡ ok qs) × (paths qs ≡ paths ps)
  unfolding with_grants
  with_grants-ok ps = elim (Bool-cases (no_ids (ids_of ps))) [
    | inl t ↦ (ps, rw t, refl)
    | inr f ↦
        let (rows, e) = grant_rows-ok (ids_of ps) s in
        (
          map (fill (put_grants rows)) ps,
          rw (f, query-ok q 2 (grant_rows (ids_of ps)) e),
          path-fill (put_grants rows) (put_grants-path rows) ps,
        )
  ]

pub row_to_project-path : (rs : List Project) → paths (map row_to_project rs) ≡ row_paths rs
unfolding row_to_project
row_to_project-path [] = refl
row_to_project-path (r ∷ rs) = ap (λ ts. r.path ∷ ts) (row_to_project-path rs)

pub last_of : List Text → Text
last_of [] = []
last_of (t ∷ []) = t
last_of (t ∷ u ∷ ts) = last_of (u ∷ ts)

pub last_path-last_of : (ps : List ProtoProject) → last_path ps ≡ last_of (paths ps)
unfolding last_of
last_path-last_of [] = refl
last_path-last_of (p ∷ []) = refl
last_path-last_of (p ∷ q ∷ ps) = last_path-last_of (q ∷ ps)

pub take-take : {A : Type 0} (n : ℕ) (xs : List A) → take n (take (suc n) xs) ≡ take n xs
take-take zero xs = refl
take-take (suc n) [] = refl
take-take (suc n) (x ∷ xs) = ap (λ ys. x ∷ ys) (take-take n xs)

pub ltb-length-take :
    {A : Type 0} (n : ℕ) (xs : List A) → ltb n (length (take (suc n) xs)) ≡ ltb n (length xs)
ltb-length-take n [] = refl
ltb-length-take zero (x ∷ xs) = ground arith
ltb-length-take (suc n) (x ∷ xs) = ground (arith, ltb-length-take n xs)

pub take-drop :
    (n : ℕ) (rs : List Project) → row_paths (take n rs) ++ row_paths (drop n rs) ≡ row_paths rs
take-drop zero rs = refl
take-drop (suc n) [] = refl
take-drop (suc n) (r ∷ rs) = ap (λ ts. r.path ∷ ts) (take-drop n rs)

pub length-drop :
    {A : Type 0} (n : ℕ) (xs : List A) → suc n ≤ length xs → length (drop (suc n) xs) < length xs
length-drop n [] h = absurd (omega arith)
length-drop zero (x ∷ xs) h = omega arith
length-drop (suc n) (x ∷ xs) h = omega (arith, length-drop n xs (omega arith))

pub take_all : {A : Type 0} (n : ℕ) (xs : List A) → length xs ≤ n → take n xs ≡ xs
take_all zero [] h = refl
take_all (suc n) [] h = refl
take_all zero (x ∷ xs) h = absurd (omega arith)
take_all (suc n) (x ∷ xs) h = ap (λ ys. x ∷ ys) (take_all n xs (omega arith))
