-- ===== src/Lib.antt =====
-- A verification library of the project registry's store service, project-db: the service that holds
-- the projects of an organisation and the private projects of its accounts, resolves a path to the
-- project that governs it, and takes the declaration of the organisation's projects.
--
-- Parts, and the code that each models:
--   Base       Lists, texts as lists of Unicode scalar values, tests, distinct keys, signed integers.
--   Status     `tonic::Status` as the handlers build it: a code, and the message with its values. The
--              messages' wording is not modelled.
--   Engine     The SQL that the statements are written in: the comparison and the order of the path
--              columns (`pin_the_path_collation`, src/schema.rs), `LIKE ... ESCAPE`, `ORDER BY`.
--   Path       src/path.rs: `validate`, `refuse_reserved_root`, `is_private_class`, `account_segment`,
--              `is_under_own_root`, `ancestors`.
--   Sql        src/sql.rs: `scope_of`, `tel_scope`, `capped`, `request_id_of`, `like_escape`,
--              `subtree`, `internal`, `holes`.
--   Store      src/schema.rs: the tables after the last migration as lists of rows, the constraints
--              that the engine checks, and the statements that the handlers run on them.
--   Schema     src/schema.rs: the seven migrations as lists of statements on the definitions of the
--              tables, and what the engine makes of a statement.
--   Tx         A transaction: a function of the tables and the number of the next statement. Every
--              statement may fail as the engine decides; a commit that reports an error may have
--              taken effect; a transaction that `?` leaves is rolled back.
--   Session    The statements of a read, each at a snapshot of its own.
--   Pooled     src/pooled.rs: `Pooled::acquire`, and `begin` and `drop` as a step relation.
--   Contract   The messages of proto/yadgar/project/v1/project.proto and of the common contract.
--   Declared   `Declared` of src/write/sync.rs.
--   Grants     src/write/grants.rs.
--   Sync       src/write/sync.rs and src/write/sync/recorded.rs: Request holds `admitted` and
--              `validate`, Apply the transaction and `sync_as`.
--   Read       src/read.rs and src/rows.rs: Resolve, Projects (`get`, `with_aliases`, `with_grants`,
--              `row_to_project`) and Pages (`list`).
--   Idem       src/idem.rs: `claim`, `replay`, `record`.
--   Register   src/write/register.rs, and the two refused verbs of src/write.rs.
--   Touch      src/write/touch.rs.
--   Service    src/service.rs: the eight rpcs, and what telemetry is given of a call.
--   Numbers    Rust's `str::parse` and `Display` for whole numbers.
--   Boot       src/boot.rs, src/boot/lock.rs: the knobs and the refusals.
--   Main       src/main.rs, src/boot/serve_tls.rs, `watch_set` of src/rotate.rs: the boot sequence.
--   Tests      Runs of the program at small inputs, and the theorems applied at them.
--
-- How the parts interact: a handler checks its request (Path, Sql, Grants), takes a connection within
-- the caller's deadline (Pooled) and runs its statements (Store) in a transaction (Tx), or one by one
-- (Session). Service hands each rpc to its handler; Main reads the configuration (Boot) and brings the
-- service up. The libraries behind the boot, telemetry's recorder, the engine, the pool, the clock, the
-- uuid crate, SHA-256, the message codec and the collation of the columns that keep the server's
-- default are parameters.
--
-- Bounds and fuel: `ancestors` climbs with the length of the path as fuel, and every round shortens
-- the rest; `decimal` has the number's successor as fuel, and every round divides the number by ten.
-- Counters of a response are of 32 bits and wrap (`u32`). Every other loop is structural.
--
-- Not modelled: the widths of columns, except where the code checks them; the weights that the
-- collation of the path columns gives to characters outside the alphabet of a path (`weight` folds
-- ASCII case, and the collation also folds accents); the lock row of a sync,
-- whose effect is that the transactions follow one another; the runner of the migrations and its
-- ledger, which are the store crate's; the interleaving of the statements of two writes; logging. A
-- page token or a stored alias is compared as a text of the path alphabet. Each statement of a page
-- sees one snapshot.
pub mod Base
pub mod Status
pub mod Engine
pub mod Sql
pub mod Path
pub mod Schema
pub mod Store
pub mod Tx
pub mod Main
pub mod Numbers
pub mod Pooled
pub mod Contract
pub mod Declared
pub mod Grants
pub mod Sync
pub mod Session
pub mod Service
pub mod Read
pub mod Idem
pub mod Boot
pub mod Register
pub mod Touch
mod Tests
