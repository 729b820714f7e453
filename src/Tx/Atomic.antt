-- ===== src/Tx/Atomic.antt =====
-- A transaction that answers with an error has had no effect, unless its commit took effect without
-- being acknowledged.
use project_db.Base.{◌≡◌, refl, sym, ap, ◌∙◌, ◌⊎◌, inl, inr, Bool, true, false, Option, none, some}
use project_db.Status.{Status, Result, ok, err}
use project_db.Sql.{EngineError}
use project_db.Store.{Store}
use project_db.Tx.{
  Outside, Conn, Tx, Ended, committing, rolling_back, settle, transact, committed, rolled_back,
  select, continue,
}

not_err : {A : Type 0} {a : A} {e : Status} → ◌≡◌ {A = Result Status A} (ok a) (err e) → ⊥
not_err h = cc

committed-err :
    {A : Type 0} (lands : Bool) (fault : Option EngineError) (a : A) (before after : Store)
    {e : Status} {t : Store}
    → committed lands fault a before after ≡ (err e, t)
    → (t ≡ before) ⊎ (lands ≡ true)
committed-err lands none a before after h = absurd (not_err (ap (λ p. p.0) h))
committed-err true (some f) a before after h = inr refl
committed-err false (some f) a before after h = inl (sym (ap (λ p. p.1) h))

rolled_back-store :
    {A : Type 0} (fault : Option EngineError) (r : Result Status A) (before : Store)
    → (rolled_back fault r before).1 ≡ before
rolled_back-store none r before = refl
rolled_back-store (some f) r before = refl

settle-err :
    {A : Type 0} (o : Outside) (before : Store) (r : Result Status (Ended A)) (c : Conn)
    {e : Status} {t : Store}
    → settle o before (r, c) ≡ (err e, t)
    → (t ≡ before) ⊎ (o.commit_lands ≡ true)
unfolding settle
settle-err o before (ok (committing a)) c h =
    committed-err o.commit_lands (o.fault c.step) a before c.store h
settle-err o before (ok (rolling_back r)) c h =
    inl (sym (ap (λ p. p.1) h) ∙ rolled_back-store (o.fault c.step) r before)
settle-err o before (err s) c h = inl (sym (ap (λ p. p.1) h))

pub transact-err :
    {A : Type 0} (o : Outside) (body : Tx Status (Ended A)) (s : Store) {e : Status} {t : Store}
    → transact o body s ≡ (err e, t)
    → (t ≡ s) ⊎ (o.commit_lands ≡ true)
unfolding transact
transact-err o body s h =
    let start : Conn = record { store = s; step = 0 } in
    let c = (select o (λ _. tt) start).1 in
    let all = continue (select o (λ _. tt) start).0 (λ _. body) c in settle-err o s all.0 all.1 h
