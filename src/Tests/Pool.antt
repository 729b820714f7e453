-- ===== src/Tests/Pool.antt =====
-- Connections taken and dropped.
use project_db.Base.{◌≡◌, refl, ◌↔◌, ◌⊎◌, true, false, some, arith}
use project_db.Status.{ok, err}
use project_db.Pooled.{Pool, acquire, pool_acquire, spent}
use project_db.Pooled.Acquire.{limit, Served, acquire-ok_iff}
use project_db.Pooled.Begin.{
  Pooled, taken, call_begin, begins, server_begins, Reach, start, next, drop, drop_clean, closed,
  pooled,
}
use project_db.Tests.Fixtures.{ready, hurried}

acquire-ok_iff_example : (acquire ready hurried ≡ ok tt) ↔ Served ready (limit ready hurried)
acquire-ok_iff_example = acquire-ok_iff ready hurried (omega arith)

abbrev slow : Pool
slow = record { ceiling = 5; answers_at = some 4; answer = ok tt }

too_late : acquire slow hurried ≡ err spent
unfolding acquire pool_acquire
too_late = refl

-- A call cut off after the server began and before sqlx heard of it.
abbrev cut_off : Pooled
cut_off = record { armed = true; issued = true; counted = false; in_transaction = true }

cut_off-Reach : Reach cut_off
unfolding call_begin
cut_off-Reach = next (next start (begins taken refl)) (server_begins (call_begin taken) refl)

drop_clean_example : (drop cut_off ≡ closed) ⊎ (drop cut_off ≡ pooled false)
drop_clean_example = drop_clean cut_off-Reach
