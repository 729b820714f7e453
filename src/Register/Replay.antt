-- ===== src/Register/Replay.antt =====
-- What a registration that fails, and one that is retried, leaves and answers: `register` of
-- src/write/register.rs over src/idem.rs.
use project_db.Base.{
  ℕ, Text, ◌≡◌, refl, sym, ap, ◌∙◌, subst, ◌⊎◌, inl, inr, true, Option, none, some, List,
}
use project_db.Status.{Status, Result, ok, err, Result-cases}
use project_db.Path.{Uuid}
use project_db.Sql.{Scope, EngineError, internal}
use project_db.Store.{Store}
use project_db.Tx.{
  Outside, Conn, Ended, committing, rolling_back, settle, transact, select, execute, ticked,
  continue, failed,
}
use project_db.Tx.Answered.{Settled, transact-Settled}
use project_db.Tx.Atomic.{transact-err}
use project_db.Pooled.{Deadline, Pool, acquire}
use project_db.Contract.{RegisterProjectRequest, RegisterProjectResponse}
use project_db.Idem.{Outcomes, present, claim}
use project_db.Idem.Replays.{claim-replayed, statement-calm}
use project_db.Register
use project_db.Register.{
  admit, checked, register_as, register, body, payload, rpc_name, unless_replayed,
}
use project_db.Register.Holds.{IsSound, Holds, AfterBody, body-Recorded}

-- A registration that is refused or fails has changed nothing, its idempotency key included, unless
-- the engine took a commit that it did not acknowledge.
pub register_as-err :
    (o : Outside) (x : Outcomes RegisterProjectResponse) (try_parse : Text → Option Uuid)
    (encode : RegisterProjectRequest → List ℕ) (pool : Pool) (caller : Option Text)
    (req : RegisterProjectRequest) (deadline : Deadline) (s t : Store) {e : Status}
    → register_as o x try_parse encode pool caller req deadline s ≡ (err e, t)
    → (t ≡ s) ⊎ (o.commit_lands ≡ true)
unfolding register_as register
register_as-err o x try_parse encode pool caller req deadline s t h =
    elim (Result-cases (admit caller)) [
      | inr (e, r) ↦ inl (sym (ap (λ p. p.1) (rw (r, register_as, register) at h)))
      | inl (_, a) ↦ elim (Result-cases (checked try_parse req)) [
        | inr (e, r) ↦ inl (sym (ap (λ p. p.1) (rw (a, r, register_as, register) at h)))
        | inl ((scope, class), r) ↦ elim (Result-cases (acquire pool deadline)) [
          | inr (e, q) ↦ inl (sym (ap (λ p. p.1) (rw (a, r, q, register_as, register) at h)))
          | inl (_, q) ↦ transact-err o _ s (rw (a, r, q, register_as, register) at h)
        ]
      ]
    ]

not_ok : {A : Type 0} {e : Status} {a : A} → ◌≡◌ {A = Result Status A} (err e) (ok a) → ⊥
not_ok h = cc

ok_eq : {A : Type 0} {a b : A} → ◌≡◌ {A = Result Status A} (ok a) (ok b) → a ≡ b
ok_eq h = cc

module _ (x : Outcomes RegisterProjectResponse) (sound : IsSound x)
    (encode : RegisterProjectRequest → List ℕ) (scope : Scope) (class : Register.Class)
    (req : RegisterProjectRequest) (key : Text) (held : present req.idempotency ≡ some key) where
  abbrev bytes : List ℕ
  bytes = payload encode req

  -- After an answered registration its key holds the answer.
  pub answered-Holds :
      (o : Outside) (s : Store) {a : RegisterProjectResponse} {t : Store}
      → transact o (body o x encode scope class req) s ≡ (ok a, t)
      → Holds x sound scope key bytes a t
  answered-Holds o s {a} {t} h =
      let (c, ended, d, at, run, end) = transact-Settled o (body o x encode scope class req) s h in
      finish ended d end (
        (body-Recorded x sound scope key bytes o class req held s encode c refl at).returns ended d
          run)
    where
      finish :
          (ended : Ended RegisterProjectResponse) (d : Conn)
          → Settled ended d s a t
          → AfterBody x sound scope key bytes s ended d
          → Holds x sound scope key bytes a t
      finish (committing b) d (e, k) after =
          subst (λ y. Holds x sound scope key bytes a y) k
            (subst (λ y. Holds x sound scope key bytes y d.store) e after)
      finish (rolling_back (ok b)) d (e, k) after =
          subst (λ y. Holds x sound scope key bytes a y) k
            (subst (λ y. Holds x sound scope key bytes y s) (ok_eq e) after)
      finish (rolling_back (err f)) d (e, k) after = absurd (not_ok e)

  module _ (o : Outside) (calm : (n : ℕ) → o.fault n ≡ none) where
    pub begin-calm : (c : Conn) → select o (λ _. tt) c ≡ (ok tt, ticked c)
    unfolding select execute
    begin-calm c =
        ap {A = Result EngineError (Unit {0}) × Conn} {B = Result Status (Unit {0}) × Conn}
          (λ q. (failed internal q.0, q.1)) (statement-calm o calm (λ _ s. ok (tt, s)) c)

    body-replayed :
        (c : Conn) {a : RegisterProjectResponse}
        → Holds x sound scope key bytes a c.store
        → (d : Conn) × (body o x encode scope class req c ≡ (ok (rolling_back (ok a)), d))
    unfolding body
    body-replayed c {a} k =
        let d = (claim x o scope rpc_name req.idempotency bytes c).1 in
        (
          d,
          ap (λ r. continue r (λ y. unless_replayed o x scope class req y) d)
              (claim-replayed x scope rpc_name key bytes o calm req.idempotency c a held k),
        )

    rollback-calm :
        {A : Type 0} (t : Store) (r : Result Status A) (d : Conn)
        → settle o t (ok (rolling_back r), d) ≡ (r, t)
    unfolding settle
    rollback-calm t r d = rw (calm d.step) refl

    -- On tables whose key holds an answer, a calm transaction gives that answer and changes nothing.
    Holds-replayed :
        (t : Store) {a : RegisterProjectResponse}
        → Holds x sound scope key bytes a t
        → transact o (body o x encode scope class req) t ≡ (ok a, t)
    unfolding transact
    Holds-replayed t {a} k =
        let start : Conn = record { store = t; step = 0 } in
        let (d, e) = body-replayed (ticked start) {a = a} k in
        ap {A = Result Status (Unit {0}) × Conn}
          (λ q. settle o t (continue q.0 (λ _. body o x encode scope class req) q.1))
          (begin-calm start)
        ∙ ap (settle o t) e
        ∙ rollback-calm t (ok a) d

-- A retry is a replay. When a registration with an idempotency key was answered, the same request
-- from the same caller, on the tables that it left, with a connection and without engine errors, is
-- given the same answer and changes nothing, provided that the response codec gives back what it
-- took and that the collation of the key columns finds every text equal to itself.
pub register_as-replays :
    (o o' : Outside) (x : Outcomes RegisterProjectResponse) (try_parse : Text → Option Uuid)
    (encode : RegisterProjectRequest → List ℕ) (pool pool' : Pool) (caller : Option Text)
    (req : RegisterProjectRequest) (deadline deadline' : Deadline) (s t : Store) (key : Text)
    {a : RegisterProjectResponse}
    → IsSound x
    → present req.idempotency ≡ some key
    → register_as o x try_parse encode pool caller req deadline s ≡ (ok a, t)
    → acquire pool' deadline' ≡ ok tt
    → ((n : ℕ) → o'.fault n ≡ none)
    → register_as o' x try_parse encode pool' caller req deadline' t ≡ (ok a, t)
unfolding register_as register
register_as-replays o o' x try_parse encode pool pool' caller req deadline deadline' s t key sound
      held h again calm =
    elim (Result-cases (admit caller)) [
      | inr (e, r) ↦ absurd (not_ok (ap (λ p. p.0) (rw (r, register_as, register) at h)))
      | inl (_, a) ↦ elim (Result-cases (checked try_parse req)) [
        | inr (e, r) ↦ absurd (not_ok (ap (λ p. p.0) (rw (a, r, register_as, register) at h)))
        | inl ((scope, class), r) ↦ elim (Result-cases (acquire pool deadline)) [
          | inr (e, q) ↦ absurd (not_ok (ap (λ p. p.0) (rw (a, r, q, register_as, register) at h)))
          | inl (_, q) ↦
              rw (a, r, again, register_as, register)
                (Holds-replayed x sound encode scope class req key held o' calm t (
                  answered-Holds x sound encode scope class req key held o s
                    (rw (a, r, q, register_as, register) at h)))
        ]
      ]
    ]
