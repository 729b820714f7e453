-- ===== src/Touch/Reaches.antt =====
-- Which rows a flush reaches: `touch` and `deduplicated` of src/write/touch.rs.
use project_db.Base.{
  ℕ, ◌≤◌, Text, to_ascii_lowercase, eq_ignore_ascii_case, eq_ignore_ascii_case_iff, text_eq_iff,
  ◌≡◌, refl, sym, ap, ◌∙◌, subst, ◌⊎◌, inl, inr, Bool, true, false, ◌&&◌, ◌||◌, Option, none, some,
  Bool-cases, List, [], ◌∷◌, In, any, any_of_In, arith, ltb,
}
use project_db.Status.{Status, Result, ok, err, Result-cases}
use project_db.Pooled.{Deadline, Pool, acquire}
use project_db.Engine.{ci_eq}
use project_db.Engine.Fold.{ci_eq_iff}
use project_db.Engine.Order.{text_lt}
use project_db.Store.{Store, Project, Alias}
use project_db.Store.Rows.{update_projects-ok, In-update_rows, In-update_rows_other}
use project_db.Tx.{Outside, Conn, committing, execute, select}
use project_db.Tx.Laws.{Ensures, Ensures-bind, Ensures-pure, execute-returns, select-returns}
use project_db.Tx.Answered.{Settled, transact-Settled}
use project_db.Contract.{TouchProjectsRequest, TouchProjectsResponse, touched}
use project_db.Touch.{
  checked, deduplicated, sort_by_key, insert_by_key, dedup, dedup_after, is_matched, is_older,
  advance, count_matched, body, touch,
}
use project_db.Touch.Forward.{NotBefore, Advanced, Advanced_refl}

-- Some entry is the same path to the store.
abbrev SameAs : Text → List Text → Type 0
SameAs p ps = (q : Text) × In q ps × (to_ascii_lowercase p ≡ to_ascii_lowercase q)

insert_by_key-In : (p q : Text) (qs : List Text) → (p ≡ q) ⊎ In p qs → In p (insert_by_key q qs)
unfolding insert_by_key
insert_by_key-In p q [] m = m
insert_by_key-In p q (r ∷ qs) m =
    elim (Bool-cases (text_lt (to_ascii_lowercase r) (to_ascii_lowercase q))) [
      | inl less ↦ rw less (elim m [
        | inl e ↦ inr (insert_by_key-In p q qs (inl e))
        | inr (inl e) ↦ inl e
        | inr (inr n) ↦ inr (insert_by_key-In p q qs (inr n))
      ])
      | inr more ↦ rw more m
    ]

sort_by_key-In : (p : Text) (ps : List Text) → In p ps → In p (sort_by_key ps)
unfolding sort_by_key
sort_by_key-In p [] m = m
sort_by_key-In p (q ∷ ps) (inl e) = insert_by_key-In p q (sort_by_key ps) (inl e)
sort_by_key-In p (q ∷ ps) (inr m) =
    insert_by_key-In p q (sort_by_key ps) (inr (sort_by_key-In p ps m))

later : (p q : Text) (ps : List Text) → SameAs p ps → SameAs p (q ∷ ps)
later p q ps (r, m, e) = (r, inr m, e)

dedup_after-SameAs :
    (kept p : Text) (ps : List Text) → In p ps → SameAs p (kept ∷ dedup_after kept ps)
unfolding dedup_after
dedup_after-SameAs kept p [] m = absurd m
dedup_after-SameAs kept p (q ∷ ps) m = elim (Bool-cases (eq_ignore_ascii_case q kept)) [
  | inl same ↦ rw same (elim m [
    | inl e ↦ (kept, inl refl, ap to_ascii_lowercase e ∙ (eq_ignore_ascii_case_iff q kept).0 same)
    | inr n ↦ dedup_after-SameAs kept p ps n
  ])
  | inr other ↦ rw other (elim m [
    | inl e ↦ (q, inr (inl refl), ap to_ascii_lowercase e)
    | inr n ↦ later p kept (q ∷ dedup_after q ps) (dedup_after-SameAs q p ps n)
  ])
]

-- Deduplication loses no path that the store tells apart.
pub deduplicated-SameAs : (p : Text) (ps : List Text) → In p ps → SameAs p (deduplicated ps)
unfolding deduplicated dedup
deduplicated-SameAs p ps m = start (sort_by_key ps) (sort_by_key-In p ps m)
  where
    start : (qs : List Text) → In p qs → SameAs p (dedup qs)
    start [] n = absurd n
    start (q ∷ qs) (inl e) = (q, inl refl, ap to_ascii_lowercase e)
    start (q ∷ qs) (inr n) = dedup_after-SameAs q p qs n

-- A path names a row, live or as a former path of it.
pub data Reaches (s : Store) (p : Text) (r : Project) : Type 0 where
  live : ci_eq r.path p ≡ true → Reaches s p r
  former :
      (a : Alias)
      → In a s.aliases
      → r.id ≡ a.project_id
      → ci_eq a.alias_path p ≡ true
      → Reaches s p r

ci_eq-SameAs :
    (t p q : Text)
    → ci_eq t p ≡ true
    → to_ascii_lowercase p ≡ to_ascii_lowercase q
    → ci_eq t q ≡ true
ci_eq-SameAs t p q h e = (ci_eq_iff t q).1 ((ci_eq_iff t p).0 h ∙ e)

Reaches-is_matched :
    (s : Store) (p : Text) (r : Project) (ps : List Text)
    → Reaches s p r
    → SameAs p ps
    → is_matched ps s.aliases r ≡ true
unfolding is_matched
Reaches-is_matched s p r ps (live h) (q, m, e) =
    rw (any_of_In (ci_eq r.path) q ps m (ci_eq-SameAs r.path p q h e)) refl
Reaches-is_matched s p r ps (former a m i h) (q, n, e) =
    let hit = any_of_In (ci_eq a.alias_path) q ps n (ci_eq-SameAs a.alias_path p q h e) in
    let id = (text_eq_iff r.id a.project_id).1 i in
    let both =
      any_of_In
        (λ (b : Alias). project_db.Base.text_eq r.id b.project_id && any (ci_eq b.alias_path) ps) a
        s.aliases m (rw (id, hit) refl) in
    or_right (any (ci_eq r.path) ps) _ both
  where
    or_right : (x y : Bool) → y ≡ true → (x || y) ≡ true
    or_right true y h = refl
    or_right false y h = h

-- The row was moved forward, to the time at least.
abbrev pub SeenAt : Project → ℕ → Store → Type 0
SeenAt r at t = (q : Project) × In q t.projects × Advanced r q × NotBefore (some at) q.last_seen_at

older_or : (at : ℕ) (o : Option ℕ) → is_older at o ≡ false → NotBefore (some at) o
older_or at none h = cc
older_or at (some t) h = ground arith

advance-SeenAt :
    (paths : List Text) (at : ℕ) (s t : Store) (r : Project)
    → advance paths at s ≡ ok (tt, t)
    → In r s.projects
    → is_matched paths s.aliases r ≡ true
    → SeenAt r at t
unfolding advance
advance-SeenAt paths at s t r h m hit =
    let p : Project → Bool = λ x. is_matched paths s.aliases x && is_older at x.last_seen_at in
    let f : Project → Project = λ x. record x { last_seen_at = some at } in
    let (result, _) = update_projects-ok p f s t h in
    subst (SeenAt r at) (sym result) (elim (Bool-cases (is_older at r.last_seen_at)) [
      | inl older ↦ (
        f r,
        In-update_rows p f r s.projects m (rw (hit, older) refl),
        record {
          same = refl;
          forward = project_db.Touch.Forward.is_older-NotBefore at r.last_seen_at older;
        },
        omega arith,
      )
      | inr newer ↦ (
        r,
        In-update_rows_other p f r s.projects m (rw (hit, newer) refl),
        Advanced_refl r,
        older_or at r.last_seen_at newer,
      )
    ])

body-SeenAt :
    (o : Outside) (paths : List Text) (at : ℕ) (s : Store) (r : Project) (c : Conn)
    → c.store ≡ s
    → In r s.projects
    → is_matched paths s.aliases r ≡ true
    → Ensures (body o paths at) c (λ _ d. SeenAt r at d.store)
unfolding body
body-SeenAt o paths at s r c e m hit = Ensures-bind (execute o (λ _. advance paths at)) _ c λ _ d h.
    Ensures-bind (select o (count_matched paths)) _ d λ n d' k.
      Ensures-pure (committing touched) d' (
        subst (SeenAt r at) (sym (select-returns o (count_matched paths) d k).1) (
          advance-SeenAt paths at s d.store r
            (subst (λ x. advance paths at x ≡ ok (tt, d.store)) e
              (execute-returns o (λ _. advance paths at) c h))
            m hit))

always_commits :
    (o : Outside) (paths : List Text) (at : ℕ) (c : Conn)
    → Ensures (body o paths at) c (λ ended _. ended ≡ committing touched)
unfolding body
always_commits o paths at c =
    Ensures-bind (execute o (λ _. advance paths at)) _ c
      λ _ d h. Ensures-bind (select o (count_matched paths)) _ d λ n d' k. Ensures-pure _ d' refl

-- When a flush is answered, its time was storable, and every project that one of its paths names,
-- live or by a former path and in any ASCII case, was last seen no earlier than that time: the
-- deduplication before the statement loses none of them.
pub touch-SeenAt :
    (o : Outside) (pool : Pool) (req : TouchProjectsRequest) (deadline : Deadline) (s t : Store)
    {response : TouchProjectsResponse}
    → touch o pool req deadline s ≡ (ok response, t)
    → (at : ℕ) × (checked req ≡ ok at)
      × ((p : Text) (r : Project)
          → In p req.paths
          → In r s.projects
          → Reaches s p r
          → SeenAt r at t)
unfolding touch
touch-SeenAt o pool req deadline s t {response} h = elim (Result-cases (checked req)) [
  | inr (e, c) ↦ absurd (not_ok (ap (λ p. p.0) (rw (c, touch) at h)))
  | inl (at, c) ↦ elim (Result-cases (acquire pool deadline)) [
    | inr (e, a) ↦ absurd (not_ok (ap (λ p. p.0) (rw (c, a, touch) at h)))
    | inl (_, a) ↦
        let paths = deduplicated req.paths in
        let (c₁, ended, d, same, run, end) =
          transact-Settled o (body o paths at) s (rw (c, a, touch) at h) in
        let commits = (always_commits o paths at c₁).returns ended d run in
        let after = (subst (λ x. Settled x d s response t) commits end).1 in
        (
          at,
          c,
          λ p r m n reach. subst (SeenAt r at) after (
              (body-SeenAt o paths at s r c₁ same n (
                  Reaches-is_matched s p r paths reach (deduplicated-SameAs p req.paths m))).returns
                ended d run),
        )
  ]
]
  where
    not_ok : {A : Type 0} {e : Status} {a : A} → ◌≡◌ {A = Result Status A} (err e) (ok a) → ⊥
    not_ok h = cc
