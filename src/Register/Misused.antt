-- ===== src/Register/Misused.antt =====
-- A key that another registration holds: `register` of src/write/register.rs over src/idem.rs.
use project_db.Base.{
  ℕ, Text, ◌≡◌, ◌≢◌, sym, ap, ◌∙◌, subst, inl, inr, Option, none, some, List, find,
}
use project_db.Status.{Code, Detail, Status, status, Result, ok, err, Result-cases}
use project_db.Path.{Uuid}
use project_db.Sql.{Scope}
use project_db.Store.{Store, Write}
use project_db.Tx.{Outside, Conn, settle, transact, ticked, continue}
use project_db.Pooled.{Deadline, Pool, acquire}
use project_db.Contract.{RegisterProjectRequest, RegisterProjectResponse}
use project_db.Idem.{Outcomes, present, claim, has_key}
use project_db.Idem.Replays.{claim-misused}
use project_db.Register
use project_db.Register.{
  admit, checked, register_as, register, body, payload, rpc_name, unless_replayed,
}
use project_db.Register.Holds.{IsSound}
use project_db.Register.Replay.{begin-calm, answered-Holds}

abbrev pub refusal : Status
refusal = status Code.invalid_argument Detail.key_of_other_request

not_ok : {A : Type 0} {e : Status} {a : A} → ◌≡◌ {A = Result Status A} (err e) (ok a) → ⊥
not_ok h = cc

same_checked :
    {a b : Scope} {c d : Register.Class}
    → ◌≡◌ {A = Result Status (Scope × Register.Class)} (ok (a, c)) (ok (b, d))
    → (a ≡ b) × (c ≡ d)
same_checked h = (cc, cc)

module _ (x : Outcomes RegisterProjectResponse) (sound : IsSound x)
    (encode : RegisterProjectRequest → List ℕ) (scope : Scope) (class : Register.Class)
    (req : RegisterProjectRequest) (key : Text) (held : present req.idempotency ≡ some key)
    (o : Outside) (calm : (n : ℕ) → o.fault n ≡ none) where
  -- On tables where another request holds the key, a calm transaction is refused.
  transact-misused :
      (t : Store) (w : Write)
      → find (has_key x scope.project_id scope.user_id key) t.writes ≡ some w
      → w.rpc ≡ rpc_name
      → w.request_fingerprint ≢ x.sha256 (payload encode req)
      → transact o (body o x encode scope class req) t ≡ (err refusal, t)
  unfolding transact body settle
  transact-misused t w found rpc other =
      let start : Conn = record { store = t; step = 0 } in
      let d = (claim x o scope rpc_name req.idempotency (payload encode req) (ticked start)).1 in
      ap {A = Result Status (Unit {0}) × Conn}
        (λ q. settle o t (continue q.0 (λ _. body o x encode scope class req) q.1))
        (begin-calm x sound encode scope class req key held o calm start)
      ∙ ap (λ r. settle o t (continue r (λ y. unless_replayed o x scope class req y) d))
          (claim-misused x scope rpc_name key (payload encode req) o calm req.idempotency
            (ticked start) w held found rpc other)

-- When a registration with an idempotency key was answered, another request with that key, by an
-- account with the same user and project ids, whose digest is not the first one's and which the
-- checks let through, is refused on the tables that the first one left, with a connection and
-- without engine errors, as a key that another request holds, and changes nothing.
pub register_as-misused :
    (o o' : Outside) (x : Outcomes RegisterProjectResponse) (try_parse : Text → Option Uuid)
    (encode : RegisterProjectRequest → List ℕ) (pool pool' : Pool) (caller : Option Text)
    (req req' : RegisterProjectRequest) (deadline deadline' : Deadline) (s t : Store) (key : Text)
    (scope scope' : Scope) (class class' : Register.Class) {a : RegisterProjectResponse}
    → IsSound x
    → present req.idempotency ≡ some key
    → present req'.idempotency ≡ some key
    → checked try_parse req ≡ ok (scope, class)
    → checked try_parse req' ≡ ok (scope', class')
    → scope.project_id ≡ scope'.project_id
    → scope.user_id ≡ scope'.user_id
    → x.sha256 (payload encode req) ≢ x.sha256 (payload encode req')
    → register_as o x try_parse encode pool caller req deadline s ≡ (ok a, t)
    → acquire pool' deadline' ≡ ok tt
    → ((n : ℕ) → o'.fault n ≡ none)
    → register_as o' x try_parse encode pool' caller req' deadline' t ≡ (err refusal, t)
unfolding register_as register
register_as-misused o o' x try_parse encode pool pool' caller req req' deadline deadline' s t key
      scope scope' class class' sound held held' passed passed' project user other h again calm =
    elim (Result-cases (admit caller)) [
      | inr (e, r) ↦ absurd (not_ok (ap (λ p. p.0) (rw (r, register_as, register) at h)))
      | inl (_, a) ↦ elim (Result-cases (acquire pool deadline)) [
        | inr (e, q) ↦
            absurd (not_ok (ap (λ p. p.0) (rw (a, passed, q, register_as, register) at h)))
        | inl (_, q) ↦
            let (w, k, _) =
              answered-Holds x sound encode scope class req key held o s
                (rw (a, passed, q, register_as, register) at h) in
            let found =
              subst (λ u. find (has_key x scope'.project_id u key) t.writes ≡ some w) user
                (subst (λ p. find (has_key x p scope.user_id key) t.writes ≡ some w) project
                  k.found) in
            rw (a, passed', again, register_as, register)
              (transact-misused x sound encode scope' class' req' key held' o' calm t w found
                k.same_rpc (λ e. other (sym k.same_request ∙ e)))
      ]
    ]
