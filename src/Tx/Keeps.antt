-- ===== src/Tx/Keeps.antt =====
-- Predicates of the tables that a transaction keeps, whether it returns or fails, whatever the
-- engine does: one rule for each way to build a transaction.
use project_db.Base.{ℕ, ◌≡◌, refl, subst, Option, none, some, Bool, true, false, if◌then◌else◌}
use project_db.Status.{Status, Result, ok, err}
use project_db.Sql.{EngineError}
use project_db.Store.{Store}
use project_db.Tx.{
  Outside, Conn, Tx, pure, raise, lift, continue, effect, attempt, ◌>>=◌, statement, execute,
  select, draw_uuid, Ended, committing, rolling_back, settle, transact, committed, rolled_back,
}

module _ (P : Store → Type 0) where
  pub record Keeps {E A : Type 0} (m : Tx E A) : Type 0 where
    pub keep : (c : Conn) → P c.store → P (m c).1.store

  -- What a statement's effect may do.
  abbrev pub Allowed : {A : Type 0} → (ℕ → Store → Result EngineError (A × Store)) → Type 0
  Allowed {A} run = (now : ℕ) (s t : Store) (a : A) → run now s ≡ ok (a, t) → P s → P t

read_same :
    {A : Type 0} {a b : A} {s t : Store}
    → ◌≡◌ {A = Result EngineError (A × Store)} (ok (a, s)) (ok (b, t))
    → s ≡ t
read_same h = cc

module _ {P : Store → Type 0} where
  pub Keeps-pure : {E A : Type 0} (a : A) → Keeps P (pure {E = E} a)
  Keeps-pure a = record { keep = λ c h. h }

  pub Keeps-raise : {E A : Type 0} (e : E) → Keeps P (raise {A = A} e)
  Keeps-raise e = record { keep = λ c h. h }

  pub Keeps-lift : {E A : Type 0} (r : Result E A) → Keeps P (lift r)
  Keeps-lift r = record { keep = λ c h. h }

  continue-keeps :
      {E A B : Type 0} (r : Result E A) (f : A → Tx E B) (c : Conn)
      → ((a : A) → Keeps P (f a))
      → P c.store
      → P (continue r f c).1.store
  continue-keeps (ok a) f c k h = (k a).keep c h
  continue-keeps (err e) f c k h = h

  pub Keeps-bind :
      {E A B : Type 0} (m : Tx E A) (f : A → Tx E B)
      → Keeps P m
      → ((a : A) → Keeps P (f a))
      → Keeps P (m >>= f)
  Keeps-bind m f km kf = record { keep = λ c h. continue-keeps (m c).0 f (m c).1 kf (km.keep c h) }

  effect-keeps :
      {A : Type 0} (c : Conn) (r : Result EngineError (A × Store))
      → ((a : A) (t : Store) → r ≡ ok (a, t) → P t)
      → P c.store
      → P (effect c r).1.store
  effect-keeps c (ok (a, t)) k h = k a t refl
  effect-keeps c (err e) k h = h

  attempt-keeps :
      {A : Type 0} (fault : Option EngineError) (run : Store → Result EngineError (A × Store))
      (c : Conn)
      → ((a : A) (t : Store) → run c.store ≡ ok (a, t) → P t)
      → P c.store
      → P (attempt fault run c).1.store
  attempt-keeps none run c k h = effect-keeps c (run c.store) k h
  attempt-keeps (some e) run c k h = h

  pub Keeps-statement :
      {A : Type 0} (o : Outside) (run : ℕ → Store → Result EngineError (A × Store))
      → Allowed P run
      → Keeps P (statement o run)
  unfolding statement
  Keeps-statement o run k = record {
    keep = λ c h.
        attempt-keeps (o.fault c.step) (run (o.now c.step)) c
          (λ a t e. k (o.now c.step) c.store t a e h) h;
  }

  pub Keeps-execute :
      {A : Type 0} (o : Outside) (run : ℕ → Store → Result EngineError (A × Store))
      → Allowed P run
      → Keeps P (execute o run)
  unfolding execute
  Keeps-execute o run k = record { keep = λ c h. (Keeps-statement o run k).keep c h }

  pub Keeps-select : {A : Type 0} (o : Outside) (f : Store → A) → Keeps P (select o f)
  unfolding select
  Keeps-select o f = Keeps-execute o (λ _ s. ok (f s, s)) (λ now s t a e h. subst P (read_same e) h)

  pub Keeps-draw_uuid : {E : Type 0} (o : Outside) → Keeps P (draw_uuid o {E = E})
  unfolding draw_uuid
  Keeps-draw_uuid o = record { keep = λ c h. h }

  pub Keeps-if :
      {E A : Type 0} (b : Bool) (m n : Tx E A)
      → Keeps P m
      → Keeps P n
      → Keeps P (if b then m else n)
  Keeps-if true m n km kn = km
  Keeps-if false m n km kn = kn

module _ (P : Store → Type 0) where
  committed-keeps :
      {A : Type 0} (lands : Bool) (fault : Option EngineError) (a : A) (before after : Store)
      → P before
      → P after
      → P (committed lands fault a before after).1
  committed-keeps lands none a before after h k = k
  committed-keeps true (some e) a before after h k = k
  committed-keeps false (some e) a before after h k = h

  rolled_back-keeps :
      {A : Type 0} (fault : Option EngineError) (r : Result Status A) (before : Store)
      → P before
      → P (rolled_back fault r before).1
  rolled_back-keeps none r before h = h
  rolled_back-keeps (some e) r before h = h

  settle-keeps :
      {A : Type 0} (o : Outside) (before : Store) (r : Result Status (Ended A)) (c : Conn)
      → P before
      → P c.store
      → P (settle o before (r, c)).1
  unfolding settle
  settle-keeps o before (ok (committing a)) c h k =
      committed-keeps o.commit_lands (o.fault c.step) a before c.store h k
  settle-keeps o before (ok (rolling_back r)) c h k = rolled_back-keeps (o.fault c.step) r before h
  settle-keeps o before (err e) c h k = h

  -- A whole transaction keeps what its body keeps.
  pub transact-keeps :
      {A : Type 0} (o : Outside) (body : Tx Status (Ended A)) (s : Store)
      → Keeps P body
      → P s
      → P (transact o body s).1
  unfolding transact
  transact-keeps o body s k h =
      let m = select o (λ _. tt) >>= λ _. body in
      let c : Conn = record { store = s; step = 0 } in
      settle-keeps o s (m c).0 (m c).1 h
        ((Keeps-bind (select o (λ _. tt)) (λ _. body) (Keeps-select o (λ _. tt)) (λ _. k)).keep c h)

pub ruleset keeps_rules =
    (Keeps-pure, Keeps-raise, Keeps-lift, Keeps-select, Keeps-draw_uuid, Keeps-if, Keeps-bind)
