-- ===== src/Session.antt =====
-- The statements of a read, each on its own: other sessions may write between two of them.
use project_db.Base.{ℕ, Option, none, some}
use project_db.Status.{Status, Result, err, map_err}
use project_db.Sql.{EngineError, internal}
use project_db.Store.{Store}

-- What each statement meets, by its number: an engine error, or the tables at its snapshot.
pub record Session : Type 0 where
  pub fault : ℕ → Option EngineError
  pub tables : ℕ → Store

abbrev pub answered :
    {A : Type 0} → Option EngineError → Result EngineError A → Result EngineError A
answered none r = r
answered (some e) r = err e

-- `fetch_all(...).await.map_err(internal)`
unfoldable pub query : {A : Type 0} → Session → ℕ → (Store → Result EngineError A) → Result Status A
query session n run = map_err internal (answered (session.fault n) (run (session.tables n)))
