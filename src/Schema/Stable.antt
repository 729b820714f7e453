-- ===== src/Schema/Stable.antt =====
-- Lists of statements (src/schema.rs) that may be run again after any part of them.
use project_db.Base.{◌≡◌, refl, sym, ap, ◌∙◌, subst, List, [], ◌∷◌, ◌++◌, All}
use project_db.Status.{Result, ok, ◌>>=◌, >>=-eq-ok}
use project_db.Schema.{Database, DdlError, Contents, Statement, execute, run}

-- The statement does nothing to the tables.
abbrev pub Quiet : Contents → Statement → Database → Type 0
Quiet x s d = execute x s d ≡ ok d

-- Once it has run, it does nothing.
abbrev pub Settles : Contents → Statement → Type 0
Settles x s = (d e : Database) → execute x s d ≡ ok e → Quiet x s e

-- Where the first does nothing, it does nothing after the second.
abbrev pub Spares : Contents → Statement → Statement → Type 0
Spares x s u = (d e : Database) → Quiet x s d → execute x u d ≡ ok e → Quiet x s e

-- Each statement settles, and those after it spare it.
abbrev pub Stable : Contents → List Statement → Type 0
Stable x [] = Unit
Stable x (s ∷ ss) = Settles x s × All (Spares x s) ss × Stable x ss

module _ (x : Contents) where
  run-Quiet :
      (s : Statement) (ss : List Statement)
      → All (Spares x s) ss
      → (d e : Database) → Quiet x s d
      → run x ss d ≡ ok e
      → Quiet x s e
  unfolding run
  run-Quiet s [] spare d e q h = subst (Quiet x s) (ok_same h) q
    where
      ok_same : {d e : Database} → ◌≡◌ {A = Result DdlError Database} (ok d) (ok e) → d ≡ e
      ok_same h = cc
  run-Quiet s (u ∷ us) (spare, more) d e q h =
      let (d₁, first, rest) = >>=-eq-ok (execute x u d) (run x us) h in
      run-Quiet s us more d₁ e (spare d d₁ q first) rest

  -- Stable statements that have run do nothing when they are run again.
  run-again :
      (ss : List Statement) → Stable x ss → (d e : Database) → run x ss d ≡ ok e → run x ss e ≡ ok e
  unfolding run
  run-again [] stable d e h = refl
  run-again (s ∷ ss) (settles, spare, stable) d e h =
      let (d₁, first, rest) = >>=-eq-ok (execute x s d) (run x ss) h in
      let quiet = run-Quiet s ss spare d₁ e (settles d d₁ first) rest in
      ap (λ r. r >>= run x ss) quiet ∙ run-again ss stable d₁ e rest

  Stable-first : (ss us : List Statement) → Stable x (ss ++ us) → Stable x ss
  Stable-first [] us stable = tt
  Stable-first (s ∷ ss) us (settles, spare, stable) =
      (settles, All-first ss spare, Stable-first ss us stable)
    where
      All-first : (ts : List Statement) → All (Spares x s) (ts ++ us) → All (Spares x s) ts
      All-first [] h = tt
      All-first (t ∷ ts) h = (h.0, All-first ts h.1)

  run-append :
      (ss us : List Statement) (d e : Database)
      → run x ss d ≡ ok e
      → run x (ss ++ us) d ≡ run x us e
  unfolding run
  run-append [] us d e h = ap (run x us) (ok_same h)
    where
      ok_same : {d e : Database} → ◌≡◌ {A = Result DdlError Database} (ok d) (ok e) → d ≡ e
      ok_same h = cc
  run-append (s ∷ ss) us d e h =
      let (d₁, first, rest) = >>=-eq-ok (execute x s d) (run x ss) h in
      ap (λ r. r >>= run x (ss ++ us)) first ∙ run-append ss us d₁ e rest

  -- Run again in whole after any part of them has run, stable statements come to what they would
  -- have come to at once.
  pub rerun :
      (ss us : List Statement)
      → Stable x (ss ++ us)
      → (d e : Database) → run x ss d ≡ ok e
      → run x (ss ++ us) e ≡ run x (ss ++ us) d
  rerun ss us stable d e h =
      run-append ss us e e (run-again ss (Stable-first ss us stable) d e h)
      ∙ sym (run-append ss us d e h)
