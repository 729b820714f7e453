-- ===== src/Pooled.antt =====
-- src/pooled.rs: a connection taken within the caller's deadline, and a BEGIN that can be cut off.
pub mod Acquire
pub mod Begin
use project_db.Base.{ℕ, Bool, true, false, ◌||◌, Option, none, some, leb, ◌==◌, if◌then◌else◌}
use project_db.Status.{Code, Detail, Status, status, Result, ok, err, map_err}
use project_db.Sql.{EngineError, pool_timed_out, internal}

-- `yadgar_dial::Deadline`: what is left of the caller's time, and the bound that it puts on a wait.
pub record Deadline : Type 0 where
  pub remaining : Option ℕ
  pub bound : ℕ → ℕ

-- The pool as one acquire meets it: its own acquire timeout, and when it answers what, if ever.
pub record Pool : Type 0 where
  pub ceiling : ℕ
  pub answers_at : Option ℕ
  pub answer : Result EngineError Unit

abbrev pub within : Option ℕ → ℕ → Bool
within none t = false
within (some a) t = leb a t

abbrev pub is_none : Option ℕ → Bool
is_none none = true
is_none (some n) = false

abbrev pub spent : Status
spent = status Code.deadline_exceeded Detail.no_connection_in_time

-- `pool.acquire()`, with the pool's own timer running.
unfoldable pub pool_acquire : Pool → Result EngineError Unit
pool_acquire pool = if within pool.answers_at pool.ceiling then pool.answer else err pool_timed_out

unfoldable pub acquire : Pool → Deadline → Result Status Unit
unfolding pool_acquire internal
acquire pool deadline =
    let bound = deadline.bound pool.ceiling in
    if is_none deadline.remaining || leb pool.ceiling bound
    then map_err internal (pool_acquire pool)
    else if bound == 0
    then err spent
    else if within pool.answers_at bound
    then map_err internal pool.answer
    else err spent
