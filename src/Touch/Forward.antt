-- ===== src/Touch/Forward.antt =====
-- What a flush does to the rows: `touch` of src/write/touch.rs.
use project_db.Base.{
  ℕ, ◌≤◌, Text, ◌≡◌, refl, sym, ap, ◌∙◌, subst, inl, inr, Bool, true, ◌&&◌, Option, none, some,
  Bool-cases, List, In, and-right, arith,
}
use project_db.Status.{ok, Result-cases}
use project_db.Pooled.{Deadline, Pool, acquire}
use project_db.Store.{Store, Project}
use project_db.Store.Rows.{
  update_projects-ok, In-update_rows, In-update_rows_other, In_of_update_rows,
}
use project_db.Tx.{Outside}
use project_db.Tx.Keeps.{
  Keeps, Allowed, Keeps-execute, Keeps-select, Keeps-bind, Keeps-pure, transact-keeps,
}
use project_db.Contract.{TouchProjectsRequest}
use project_db.Touch.{checked, deduplicated, is_matched, is_older, advance, body, touch}

-- No value, or a later one.
abbrev pub NotBefore : Option ℕ → Option ℕ → Type 0
NotBefore none b = Unit
NotBefore (some a) none = ⊥
NotBefore (some a) (some b) = a ≤ b

-- The row with another time of last use, if any, and that no earlier one.
pub record Advanced (r q : Project) : Type 0 where
  pub same : q ≡ record r { last_seen_at = q.last_seen_at }
  pub forward : NotBefore r.last_seen_at q.last_seen_at

NotBefore-refl : (a : Option ℕ) → NotBefore a a
NotBefore-refl none = tt
NotBefore-refl (some a) = omega arith

NotBefore-trans : (a b c : Option ℕ) → NotBefore a b → NotBefore b c → NotBefore a c
NotBefore-trans none b c h k = tt
NotBefore-trans (some a) none c h k = absurd h
NotBefore-trans (some a) (some b) none h k = k
NotBefore-trans (some a) (some b) (some c) h k = omega (arith, h, k)

pub Advanced_refl : (r : Project) → Advanced r r
Advanced_refl r = record { same = refl; forward = NotBefore-refl r.last_seen_at }

Advanced_trans : {p q r : Project} → Advanced p q → Advanced q r → Advanced p r
Advanced_trans {p} {q} {r} h k = record {
  same = k.same ∙ ap (λ (y : Project). record y { last_seen_at = r.last_seen_at }) h.same;
  forward = NotBefore-trans p.last_seen_at q.last_seen_at r.last_seen_at h.forward k.forward;
}

pub is_older-NotBefore : (at : ℕ) (t : Option ℕ) → is_older at t ≡ true → NotBefore t (some at)
is_older-NotBefore at none h = tt
is_older-NotBefore at (some t) h = ground arith

abbrev seen : ℕ → Project → Project
seen at r = record r { last_seen_at = some at }

seen-Advanced : (at : ℕ) (r : Project) → is_older at r.last_seen_at ≡ true → Advanced r (seen at r)
seen-Advanced at r h = record { same = refl; forward = is_older-NotBefore at r.last_seen_at h }

-- The rows of the one table are the rows of the other, moved forward.
pub record Forward (s t : Store) : Type 0 where
  pub kept : (r : Project) → In r s.projects → (q : Project) × In q t.projects × Advanced r q
  pub from : (q : Project) → In q t.projects → (r : Project) × In r s.projects × Advanced r q

module _ (s : Store) (paths : List Text) (at : ℕ) where
  advance-Forward : (t u : Store) → advance paths at t ≡ ok (tt, u) → Forward s t → Forward s u
  unfolding advance
  advance-Forward t u h f =
      let p : Project → Bool = λ r. is_matched paths t.aliases r && is_older at r.last_seen_at in
      let (result, _) = update_projects-ok p (seen at) t u h in
      subst (Forward s) (sym result) (record {
        kept = λ r m.
            let (q, n, a) = f.kept r m in
            elim (Bool-cases (p q)) [
              | inl hit ↦ (
                seen at q,
                In-update_rows p (seen at) q t.projects n hit,
                Advanced_trans a
                    (seen-Advanced at q (and-right (is_matched paths t.aliases q) _ hit)),
              )
              | inr miss ↦ (q, In-update_rows_other p (seen at) q t.projects n miss, a)
            ];
        from = λ q m. elim (In_of_update_rows p (seen at) q t.projects m) [
          | inl (b, n, hit, e) ↦
              let (r, k, a) = f.from b n in
              (
                r,
                k,
                subst (Advanced r) (sym e) (
                    Advanced_trans a
                      (seen-Advanced at b (and-right (is_matched paths t.aliases b) _ hit))),
              )
          | inr (n, miss) ↦ f.from q n
        ];
      })

module _ {P : Store → Type 0} (o : Outside) (paths : List Text) (at : ℕ) where
  body-Keeps : Allowed P (λ _. advance paths at) → Keeps P (body o paths at)
  unfolding body
  body-Keeps h =
      Keeps-bind _ _ (Keeps-execute o _ h) λ _. Keeps-bind _ _ (Keeps-select o _) λ _. Keeps-pure _

pub touch-keeps :
    {P : Store → Type 0} (o : Outside) (pool : Pool) (req : TouchProjectsRequest)
    (deadline : Deadline) (s : Store)
    → ((paths : List Text) (at : ℕ) → Allowed P (λ _. advance paths at))
    → P s
    → P (touch o pool req deadline s).1
unfolding touch
touch-keeps {P} o pool req deadline s h p = elim (Result-cases (checked req)) [
  | inr (e, c) ↦ rw (c, touch) p
  | inl (at, c) ↦ elim (Result-cases (acquire pool deadline)) [
    | inr (e, a) ↦ rw (c, a, touch) p
    | inl (_, a) ↦
        rw (c, a, touch)
          (transact-keeps P o (body o (deduplicated req.paths) at) s
            (body-Keeps o (deduplicated req.paths) at (h (deduplicated req.paths) at)) p)
  ]
]

-- A flush, whatever comes of it, adds no row and removes none, and changes nothing of a row but the
-- time that it was last seen, which never moves backwards: no flush creates a project, bumps a
-- version or marks an update.
pub touch-Forward :
    (o : Outside) (pool : Pool) (req : TouchProjectsRequest) (deadline : Deadline) (s : Store)
    → Forward s (touch o pool req deadline s).1
touch-Forward o pool req deadline s =
    touch-keeps o pool req deadline s (λ paths at now t u a h f. advance-Forward s paths at t u h f)
      (record { kept = λ r m. (r, m, Advanced_refl r); from = λ q m. (q, m, Advanced_refl q) })
