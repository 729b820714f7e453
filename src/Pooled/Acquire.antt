-- ===== src/Pooled/Acquire.antt =====
-- How long `acquire` of src/pooled.rs waits, and which refusal it gives.
use Prim.Native.Nat.{min}
use project_db.Base.{
  ◌≢◌, ◌||◌, leb, Bool-cases, ℕ, ◌<◌, ◌≤◌, ◌≡◌, ◌↔◌, refl, inl, inr, true, false, Option, none,
  some, arith, if◌then◌else◌,
}
use project_db.Status.{Result, ok, err, map_err}
use project_db.Sql.{EngineError, pool_timed_out, database, other, internal}
use project_db.Pooled.{Deadline, Pool, acquire, pool_acquire, within, is_none, spent}

-- The wait that decides: the smaller of the caller's bound and the pool's ceiling, the ceiling
-- where the caller has no deadline.
abbrev pub limit : Pool → Deadline → ℕ
limit pool deadline =
    if is_none deadline.remaining
    then pool.ceiling
    else min (deadline.bound pool.ceiling) pool.ceiling

-- The pool answers with a connection no later than `t`.
abbrev pub Served : Pool → ℕ → Type 0
Served pool t = (a : ℕ) × (pool.answers_at ≡ some a) × (a ≤ t) × (pool.answer ≡ ok tt)

map_err-ok : {E F : Type 0} (f : E → F) (r : Result E (Unit {0})) → map_err f r ≡ ok tt → r ≡ ok tt
map_err-ok f (ok u) h = refl
map_err-ok f (err e) h = cc

within-some : (o : Option ℕ) (t : ℕ) → within o t ≡ true → (a : ℕ) × (o ≡ some a) × (a ≤ t)
within-some none t h = cc
within-some (some a) t h = (a, refl, ground arith)

acquire-served :
    (pool : Pool) (deadline : Deadline)
    → acquire pool deadline ≡ ok tt
    → (within pool.answers_at (limit pool deadline) ≡ true) × (map_err internal pool.answer ≡ ok tt)
unfolding acquire pool_acquire
acquire-served pool deadline h = (ground arith, ground arith)

-- When the caller has time left, a connection is handed out exactly when the pool answers with one
-- within the limit.
pub acquire-ok_iff :
    (pool : Pool) (deadline : Deadline)
    → 0 < limit pool deadline
    → (acquire pool deadline ≡ ok tt) ↔ Served pool (limit pool deadline)
unfolding acquire pool_acquire
acquire-ok_iff pool deadline h = (
  λ e.
      let (w, m) = acquire-served pool deadline e in
      let (a, at, le) = within-some pool.answers_at (limit pool deadline) w in
      (a, at, le, map_err-ok internal pool.answer m),
  λ s. rw (s.1, s.3) (ground arith),
)

internal-ne-spent : (e : EngineError) → internal e ≢ spent
unfolding internal
internal-ne-spent pool_timed_out h = cc
internal-ne-spent (database code number unique) h = ground arith
internal-ne-spent other h = cc

map_err-ne-spent : (r : Result EngineError (Unit {0})) → map_err internal r ≢ err spent
map_err-ne-spent (ok u) h = cc
map_err-ne-spent (err e) h = internal-ne-spent e (cc)

-- The refusal for a spent deadline is given only to a caller that has a deadline, and only when
-- the bound that it sets falls before the pool's own ceiling.
pub acquire-spent :
    (pool : Pool) (deadline : Deadline)
    → acquire pool deadline ≡ err spent
    → (is_none deadline.remaining ≡ false) × (deadline.bound pool.ceiling < pool.ceiling)
unfolding acquire
acquire-spent pool deadline h =
    let n = map_err-ne-spent (pool_acquire pool) in
    elim (Bool-cases
      (is_none deadline.remaining || leb pool.ceiling (deadline.bound pool.ceiling))) [
        | inl own ↦ absurd (n (rw own at h))
        | inr bounded ↦ (ground arith, ground arith)
      ]
