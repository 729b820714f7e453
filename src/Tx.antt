-- ===== src/Tx.antt =====
-- A handler's transaction on its connection. Every statement may fail, as the engine decides; what
-- the engine, the clock and the `uuid` crate decide is a parameter.
pub mod Laws
pub mod Keeps
pub mod Atomic
pub mod Answered
use project_db.Base.{ℕ, suc, Text, Bool, Option, none, some, if◌then◌else◌}
use project_db.Status.{Status, Result, ok, err}
use project_db.Sql.{EngineError, internal}
use project_db.Store.{Store}

-- What each statement meets, by its number: an engine error in place of its effect, and
-- CURRENT_TIMESTAMP. `now_v7` is the uuid that the program draws before that statement.
-- `commit_lands`: a commit that reports an error may have taken effect all the same.
pub record Outside : Type 0 where
  pub fault : ℕ → Option EngineError
  pub now : ℕ → ℕ
  pub now_v7 : ℕ → Text
  pub commit_lands : Bool

-- The tables as the transaction sees them, and the number of its next statement.
pub record Conn : Type 0 where
  pub store : Store
  pub step : ℕ

abbrev pub Tx : Type 0 → Type 0 → Type 0
Tx E A = Conn → Result E A × Conn

abbrev pub pure : {E A : Type 0} → A → Tx E A
pure a c = (ok a, c)

abbrev pub raise : {E A : Type 0} → E → Tx E A
raise e c = (err e, c)

abbrev pub lift : {E A : Type 0} → Result E A → Tx E A
lift r c = (r, c)

abbrev pub continue : {E A B : Type 0} → Result E A → (A → Tx E B) → Tx E B
continue (ok a) f c = f a c
continue (err e) f c = (err e, c)

infixl 10 ◌>>=◌ ◌>>◌
abbrev pub ◌>>=◌ : {E A B : Type 0} → Tx E A → (A → Tx E B) → Tx E B
◌>>=◌ m f c = continue (m c).0 f (m c).1

abbrev pub ◌>>◌ : {E B : Type 0} → Tx E (Unit {0}) → Tx E B → Tx E B
m >> k = m >>= λ _. k

abbrev pub failed : {E F A : Type 0} → (E → F) → Result E A → Result F A
failed f (ok a) = ok a
failed f (err e) = err (f e)

-- `.map_err(f)` on what a statement returned.
abbrev pub map_err : {E F A : Type 0} → (E → F) → Tx E A → Tx F A
map_err f m c = (failed f (m c).0, (m c).1)

abbrev pub ticked : Conn → Conn
ticked c = record c { step = suc c.step }

abbrev pub effect :
    {A : Type 0} → Conn → Result EngineError (A × Store) → Result EngineError A × Conn
effect c (ok (a, s)) = (ok a, record { store = s; step = suc c.step })
effect c (err e) = (err e, ticked c)

abbrev pub attempt :
    {A : Type 0} → Option EngineError → (Store → Result EngineError (A × Store)) → Tx EngineError A
attempt none run c = effect c (run c.store)
attempt (some e) run c = (err e, ticked c)

module _ (o : Outside) where
  -- One statement: the engine's fault, or its effect.
  unfoldable pub statement :
      {A : Type 0} → (ℕ → Store → Result EngineError (A × Store)) → Tx EngineError A
  statement run c = attempt (o.fault c.step) (run (o.now c.step)) c

  -- A statement whose error becomes a status at once: `.map_err(internal)?`.
  unfoldable pub execute : {A : Type 0} → (ℕ → Store → Result EngineError (A × Store)) → Tx Status A
  unfolding statement
  execute run = map_err internal (statement run)

  unfoldable pub select : {A : Type 0} → (Store → A) → Tx Status A
  unfolding execute
  select f = execute (λ _ s. ok (f s, s))

  -- The uuid drawn now.
  unfoldable pub draw_uuid : {E : Type 0} → Tx E Text
  draw_uuid c = (ok (o.now_v7 c.step), c)

-- How the body of a handler ends when no `?` left it: with a commit, or with a rollback and the
-- answer that is given after it.
pub data Ended (A : Type 0) : Type 0 where
  committing : A → Ended A
  rolling_back : Result Status A → Ended A

abbrev pub committed :
    {A : Type 0} → Bool → Option EngineError → A → Store → Store → Result Status A × Store
committed lands none a before after = (ok a, after)
committed lands (some e) a before after = (err (internal e), if lands then after else before)

abbrev pub rolled_back :
    {A : Type 0} → Option EngineError → Result Status A → Store → Result Status A × Store
rolled_back none r before = (r, before)
rolled_back (some e) r before = (err (internal e), before)

module _ (o : Outside) where
  -- The end of a transaction that began on the tables `before`: COMMIT and ROLLBACK are statements
  -- too, and a transaction left by `?` is rolled back when it is dropped.
  unfoldable pub settle :
      {A : Type 0} → Store → Result Status (Ended A) × Conn → Result Status A × Store
  settle before (ok (committing a), c) = committed o.commit_lands (o.fault c.step) a before c.store
  settle before (ok (rolling_back r), c) = rolled_back (o.fault c.step) r before
  settle before (err e, c) = (err e, before)

  -- BEGIN is the first statement of the connection; the body runs after it.
  unfoldable pub transact : {A : Type 0} → Tx Status (Ended A) → Store → Result Status A × Store
  unfolding settle select
  transact body before =
      settle before ((select o (λ _. tt) >> body) (record { store = before; step = 0 }))
