-- ===== src/Tests/Flush.antt =====
-- A flush of the sample tables.
use project_db.Base.{ℕ, Text, codes, ◌≡◌, refl, some, [], ◌∷◌, In}
use project_db.Base.Int.{pos}
use project_db.Status.{ok}
use project_db.Path
use project_db.Sql.{scope_of}
use project_db.Store.{Store, update_projects, class_ok}
use project_db.Pooled.{acquire, pool_acquire}
use project_db.Tx.{transact, settle, select, execute, statement}
use project_db.Contract.{TouchProjectsRequest, touched}
use project_db.Touch.{
  touch, checked, storable, validate_paths, deduplicated, sort_by_key, insert_by_key, dedup, body,
  advance, is_matched, count_matched,
}
use project_db.Touch.Forward.{Forward, touch-Forward}
use project_db.Touch.Reaches.{Reaches, SeenAt, touch-SeenAt}
use project_db.Store.{Project}
use project_db.Tests.Fixtures.{tables, calm, ready, patient, seeder}

abbrev flush : TouchProjectsRequest
flush = record {
  scope = some seeder;
  paths = codes "ACME/old" ∷ codes "acme" ∷ codes "acme/OLD" ∷ [];
  seen_at = some (record { seconds = pos 50; nanos = pos 0 });
}

two_paths : deduplicated flush.paths ≡ codes "acme" ∷ codes "ACME/old" ∷ []
unfolding deduplicated sort_by_key insert_by_key dedup
two_paths = refl

abbrev flushed : Store
flushed = (touch calm ready flush patient tables).1

flushes : touch calm ready flush patient tables ≡ (ok touched, flushed)
unfolding touch checked scope_of storable validate_paths Path.validate deduplicated sort_by_key
    insert_by_key dedup acquire pool_acquire transact settle select execute statement body advance
    is_matched update_projects class_ok count_matched
flushes = refl

touch-Forward_example : Forward tables flushed
touch-Forward_example = touch-Forward calm ready flush patient tables

touch-SeenAt_example :
    (at : ℕ) × (checked flush ≡ ok at)
    × ((p : Text) (r : Project)
        → In p flush.paths
        → In r tables.projects
        → Reaches tables p r
        → SeenAt r at flushed)
touch-SeenAt_example = touch-SeenAt calm ready flush patient tables flushed flushes
