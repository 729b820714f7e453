-- ===== src/Idem.antt =====
-- src/idem.rs: an idempotency key claimed inside the transaction, its outcome replayed or recorded.
pub mod Recorded
pub mod Replays
use project_db.Base.{
  ℕ, Text, text_eq, Bool, ◌&&◌, Option, none, some, List, [], ◌∷◌, ◌++◌, any, find, if◌then◌else◌,
}
use project_db.Status.{Code, Detail, Status, status, Result, ok, err}
use project_db.Sql.{Scope, EngineError, other, internal, is_duplicate}
use project_db.Store.{Store, Write, update_rows, unique_violation}
use project_db.Tx.{Outside, Conn, Tx, pure, raise, ◌>>=◌, ◌>>◌, statement, execute}
use project_db.Contract.{Idempotency}

pub data Claimed (T : Type 0) : Type 0 where
  proceed : Claimed T
  replayed : T → Claimed T

abbrev nonempty : Text → Option Text
nonempty [] = none
nonempty (c ∷ t) = some (c ∷ t)

-- The key, absent when it is empty.
unfoldable pub present : Option Idempotency → Option Text
present none = none
present (some i) = nonempty i.key

-- What the module takes from elsewhere: SHA-256, the `prost` codec of the response, and the
-- comparison of the key columns, which take the server's collation.
pub record Outcomes (T : Type 0) : Type 0 where
  pub sha256 : List ℕ → List ℕ
  pub encode : T → List ℕ
  pub decode : List ℕ → Option T
  pub same : Text → Text → Bool

-- `match` on what a statement returned.
abbrev pub caught : {E F A : Type 0} → Tx E A → Tx F (Result E A)
caught m c = (ok (m c).0, (m c).1)

module _ {T : Type 0} (x : Outcomes T) where
  unfoldable pub has_key : Text → Text → Text → Write → Bool
  has_key project user key w =
      x.same w.project_id project && (x.same w.user_id user && x.same w.idem_key key)

  -- INSERT INTO project_write: the primary key.
  unfoldable pub insert_write : Write → Store → Result EngineError (Unit × Store)
  insert_write w s =
      if any (has_key w.project_id w.user_id w.idem_key) s.writes
      then err unique_violation
      else ok (tt, record s { writes = s.writes ++ w ∷ [] })

  -- SELECT ... FOR UPDATE with `fetch_one`: no row is an error.
  unfoldable pub fetch_write : Text → Text → Text → Store → Result EngineError (Write × Store)
  fetch_write project user key s = elim (find (has_key project user key) s.writes) [
    | none ↦ err other
    | some w ↦ ok (w, s)
  ]

  -- UPDATE project_write SET response = ?
  unfoldable pub put_response :
      Text → Text → Text → List ℕ → Store → Result EngineError (Unit × Store)
  put_response project user key bytes s = ok (
    tt,
    record s {
      writes = update_rows (has_key project user key) (λ w. record w { response = bytes }) s.writes;
    },
  )

  abbrev decoded : Option T → Result Status (Claimed T)
  decoded none = err (status Code.internal Detail.storage_error)
  decoded (some t) = ok (replayed t)

  -- What `replay` makes of the stored row.
  unfoldable pub replay_of : Text → List ℕ → Write → Result Status (Claimed T)
  unfolding text_eq
  replay_of rpc fingerprint w =
      if text_eq w.rpc rpc
      then if text_eq w.request_fingerprint fingerprint
        then decoded (x.decode w.response)
        else err (status Code.invalid_argument Detail.key_of_other_request)
      else err (status Code.invalid_argument Detail.key_of_other_operation)

  module _ (o : Outside) where
    unfoldable pub replay : Scope → Text → Text → List ℕ → Tx Status (Claimed T)
    replay scope rpc key fingerprint = do
      w ← execute o (λ _. fetch_write scope.project_id scope.user_id key)
      project_db.Tx.lift (replay_of rpc fingerprint w)

    abbrev pub claimed : Result EngineError Unit → Tx Status (Claimed T) → Tx Status (Claimed T)
    claimed (ok u) again = pure proceed
    claimed (err e) again = if is_duplicate e then again else raise (internal e)

    abbrev pub new_write : Scope → Text → Text → List ℕ → Write
    new_write scope rpc key fingerprint = record {
      project_id = scope.project_id;
      user_id = scope.user_id;
      idem_key = key;
      rpc = rpc;
      response = [];
      request_fingerprint = fingerprint;
    }

    unfoldable pub claim : Scope → Text → Option Idempotency → List ℕ → Tx Status (Claimed T)
    claim scope rpc idem payload = elim (present idem) [
      | none ↦ pure proceed
      | some key ↦
          caught (statement o (λ _. insert_write (new_write scope rpc key (x.sha256 payload))))
          >>= λ r. claimed r (replay scope rpc key (x.sha256 payload))
    ]

    unfoldable pub record_outcome : Scope → Option Idempotency → T → Tx Status Unit
    record_outcome scope idem response = elim (present idem) [
      | none ↦ pure tt
      | some key ↦
          execute o (λ _. put_response scope.project_id scope.user_id key (x.encode response))
    ]
