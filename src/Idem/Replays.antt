-- ===== src/Idem/Replays.antt =====
-- A claim of a key that holds an answer: `claim` and `replay` of src/idem.rs, without engine errors.
use project_db.Base.{
  ℕ, Text, text_eq, text_eq_iff, ◌≡◌, ◌≢◌, refl, ◌∙◌, inl, inr, Bool-cases, find, Option, none,
  some, List, In_of_find, any_of_In,
}
use project_db.Status.{Code, Detail, status, Result, ok, err}
use project_db.Sql.{Scope, EngineError, is_duplicate}
use project_db.Store.{Store, Write, unique_violation}
use project_db.Tx.{Outside, Conn, statement, execute, effect, ticked}
use project_db.Contract.{Idempotency}
use project_db.Idem.{
  Outcomes, replayed, present, insert_write, fetch_write, replay, replay_of, claim, new_write,
}
use project_db.Idem.Recorded.{IsClaimed, Recorded, mine}

module _ (o : Outside) (calm : (n : ℕ) → o.fault n ≡ none) where
  pub statement-calm :
      {A : Type 0} (run : ℕ → Store → Result EngineError (A × Store)) (c : Conn)
      → statement o run c ≡ effect c (run (o.now c.step) c.store)
  unfolding statement
  statement-calm run c = rw (calm c.step) refl

module _ {T : Type 0} (x : Outcomes T) (scope : Scope) (rpc key : Text) (payload : List ℕ)
    (o : Outside) (calm : (n : ℕ) → o.fault n ≡ none) where
  abbrev row : Write
  row = new_write x o scope rpc key (x.sha256 payload)

  -- The row that the key finds.
  abbrev Found : Store → Write → Type 0
  Found s w = find (mine x scope rpc key payload) s.writes ≡ some w

  insert_write-clash :
      (s : Store) (w : Write) → Found s w → insert_write x row s ≡ err unique_violation
  unfolding insert_write
  insert_write-clash s w k =
      let (m, t) = In_of_find (mine x scope rpc key payload) s.writes k in
      rw (any_of_In (mine x scope rpc key payload) w s.writes m t) refl

  fetch_write-found :
      (s : Store) (w : Write)
      → Found s w
      → fetch_write x scope.project_id scope.user_id key s ≡ ok (w, s)
  unfolding fetch_write
  fetch_write-found s w k = rw (k, fetch_write) refl

  replay-found :
      (c : Conn) (w : Write)
      → Found c.store w
      → (replay x o scope rpc key (x.sha256 payload) c).0 ≡ replay_of x rpc (x.sha256 payload) w
  unfolding replay execute
  replay-found c w k =
      rw
        (
          statement-calm o calm (λ _. fetch_write x scope.project_id scope.user_id key) c,
          fetch_write-found c.store w k,
        )
        refl

  -- A claim of a key that is held comes to what `replay` makes of the row.
  claim-found :
      (idem : Option Idempotency) (c : Conn) (w : Write)
      → present idem ≡ some key
      → Found c.store w
      → (claim x o scope rpc idem payload c).0 ≡ replay_of x rpc (x.sha256 payload) w
  unfolding claim is_duplicate
  claim-found idem c w p k =
      rw
        (
          p,
          claim,
          statement-calm o calm (λ _. insert_write x row) c,
          insert_write-clash c.store w k,
        )
        (replay-found (ticked c) w k)

  replay_of-replayed :
      (s : Store) (w : Write) (a : T)
      → IsClaimed x scope rpc key payload s w
      → x.decode w.response ≡ some a
      → replay_of x rpc (x.sha256 payload) w ≡ ok (replayed a)
  unfolding replay_of
  replay_of-replayed s w a k d =
      let e = (text_eq_iff w.rpc rpc).1 k.same_rpc in
      let f = (text_eq_iff w.request_fingerprint (x.sha256 payload)).1 k.same_request in
      rw (e, f, d) refl

  replay_of-misused :
      (w : Write)
      → w.rpc ≡ rpc
      → w.request_fingerprint ≢ x.sha256 payload
      → replay_of x rpc (x.sha256 payload) w
        ≡ err (status Code.invalid_argument Detail.key_of_other_request)
  unfolding replay_of
  replay_of-misused w e other =
      elim (Bool-cases (text_eq w.request_fingerprint (x.sha256 payload))) [
        | inl same ↦ absurd (other ((text_eq_iff w.request_fingerprint (x.sha256 payload)).0 same))
        | inr differs ↦ rw ((text_eq_iff w.rpc rpc).1 e, differs) refl
      ]

  -- The claim answers with what the key holds.
  pub claim-replayed :
      (idem : Option Idempotency) (c : Conn) (a : T)
      → present idem ≡ some key
      → Recorded x scope rpc key payload a c.store
      → (claim x o scope rpc idem payload c).0 ≡ ok (replayed a)
  claim-replayed idem c a p (w, k, d) =
      claim-found idem c w p k.found ∙ replay_of-replayed c.store w a k d

  -- The claim refuses a key that another request holds.
  pub claim-misused :
      (idem : Option Idempotency) (c : Conn) (w : Write)
      → present idem ≡ some key
      → find (mine x scope rpc key payload) c.store.writes ≡ some w
      → w.rpc ≡ rpc
      → w.request_fingerprint ≢ x.sha256 payload
      → (claim x o scope rpc idem payload c).0
        ≡ err (status Code.invalid_argument Detail.key_of_other_request)
  claim-misused idem c w p k e other = claim-found idem c w p k ∙ replay_of-misused w e other
