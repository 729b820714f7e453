-- ===== src/Register/Keeps.antt =====
-- What a registration keeps, on every outcome.
use project_db.Base.{ℕ, Text, codes, ◌≡◌, inl, inr, Option, none, some, List, ◌++◌, Option-cases}
use project_db.Status.{Status, Result, ok, err, Result-cases}
use project_db.Path.{Uuid}
use project_db.Sql.{Scope, EngineError, is_duplicate}
use project_db.Store.{Store, Project, Write, insert_project}
use project_db.Tx.{Outside, Tx}
use project_db.Tx.Keeps.{
  Keeps, Allowed, Keeps-pure, Keeps-raise, Keeps-lift, Keeps-bind, Keeps-statement, Keeps-execute,
  Keeps-select, Keeps-draw_uuid, Keeps-if, transact-keeps,
}
use project_db.Pooled.{Deadline, Pool, acquire}
use project_db.Contract.{RegisterProjectRequest, RegisterProjectResponse, Idempotency}
use project_db.Idem.{
  Claimed, proceed, replayed, Outcomes, caught, present, insert_write, fetch_write, put_response,
  replay, claim, record_outcome, new_write, claimed,
}
use project_db.Register
use project_db.Register.{
  admit, checked, fresh, body, register_as, register, insert_new, unless_former, unless_replayed,
  inserted,
}

-- A predicate that the statements of a registration keep, when the rows that it inserts are such
-- as it may.
pub record RegisterSafe (x : Outcomes RegisterProjectResponse) (P : Store → Type 0)
    (Mine : Project → Type 0) : Type 0 where
  pub claims : (w : Write) → Allowed P (λ _. insert_write x w)
  pub reads : (p u k : Text) → Allowed P (λ _. fetch_write x p u k)
  pub records : (p u k : Text) (bytes : List ℕ) → Allowed P (λ _. put_response x p u k bytes)
  pub inserts :
      (row : ℕ → Project)
      → ((now : ℕ) → Mine (row now))
      → Allowed P (λ now. insert_project (row now))

Keeps-caught :
    {P : Store → Type 0} {E F A : Type 0} (m : Tx E A) → Keeps P m → Keeps P (caught {F = F} m)
Keeps-caught m k = record { keep = λ c h. k.keep c h }

module _ {x : Outcomes RegisterProjectResponse} {P : Store → Type 0} {Mine : Project → Type 0}
    (safe : RegisterSafe x P Mine) (o : Outside) where
  replay-Keeps : (s : Scope) (rpc key : Text) (f : List ℕ) → Keeps P (replay x o s rpc key f)
  unfolding replay
  replay-Keeps s rpc key f =
      Keeps-bind _ _ (Keeps-execute o _ (safe.reads s.project_id s.user_id key)) λ w. Keeps-lift _

  claimed-Keeps :
      (r : Result EngineError Unit) (again : Tx Status (Claimed RegisterProjectResponse))
      → Keeps P again
      → Keeps P (claimed x o r again)
  claimed-Keeps (ok u) again k = Keeps-pure _
  claimed-Keeps (err e) again k = Keeps-if (is_duplicate e) _ _ k (Keeps-raise _)

  claim-Keeps :
      (s : Scope) (rpc : Text) (idem : Option Idempotency) (payload : List ℕ)
      → Keeps P (claim x o s rpc idem payload)
  unfolding claim
  claim-Keeps s rpc idem payload = elim (Option-cases (present idem)) [
    | inl e ↦ rw (e, claim) (Keeps-pure _)
    | inr (key, e) ↦
        rw (e, claim)
          (Keeps-bind _ _
            (Keeps-caught _
              (Keeps-statement o _ (safe.claims (new_write x o s rpc key (x.sha256 payload)))))
            λ r. claimed-Keeps r _ (replay-Keeps s rpc key (x.sha256 payload)))
  ]

  record_outcome-Keeps :
      (s : Scope) (idem : Option Idempotency) (r : RegisterProjectResponse)
      → Keeps P (record_outcome x o s idem r)
  unfolding record_outcome
  record_outcome-Keeps s idem r = elim (Option-cases (present idem)) [
    | inl e ↦ rw (e, record_outcome) (Keeps-pure _)
    | inr (key, e) ↦
        rw (e, record_outcome)
          (Keeps-execute o _ (safe.records s.project_id s.user_id key (x.encode r)))
  ]

  inserted-Keeps :
      (s : Scope) (req : RegisterProjectRequest) (id : Text) (r : Result EngineError Unit)
      → Keeps P (inserted o x s req id r)
  inserted-Keeps s req id (err e) = Keeps-pure _
  inserted-Keeps s req id (ok u) =
      Keeps-bind _ _ (record_outcome-Keeps s req.idempotency _) λ _. Keeps-pure _

  abbrev IsMine : Scope → Register.Class → RegisterProjectRequest → Type 0
  IsMine s c req = (id : Text) (now : ℕ) → Mine (fresh id req c s.user_id now)

  insert_new-Keeps :
      (s : Scope) (c : Register.Class) (req : RegisterProjectRequest)
      → IsMine s c req
      → Keeps P (insert_new o x s c req)
  unfolding insert_new
  insert_new-Keeps s c req mine = Keeps-bind _ _ (Keeps-draw_uuid o) λ uuid.
      let id = codes "yadgar:project:" ++ uuid in
      Keeps-bind _ _
        (Keeps-caught _ (Keeps-statement o _ (safe.inserts (fresh id req c s.user_id) (mine id))))
        λ r. inserted-Keeps s req id r

  unless_former-Keeps :
      (s : Scope) (c : Register.Class) (req : RegisterProjectRequest) (owner : Option Text)
      → IsMine s c req
      → Keeps P (unless_former o x s c req owner)
  unless_former-Keeps s c req none mine = insert_new-Keeps s c req mine
  unless_former-Keeps s c req (some owner) mine = Keeps-pure _

  unless_replayed-Keeps :
      (s : Scope) (c : Register.Class) (req : RegisterProjectRequest)
      (r : Claimed RegisterProjectResponse)
      → IsMine s c req
      → Keeps P (unless_replayed o x s c req r)
  unless_replayed-Keeps s c req proceed mine =
      Keeps-bind _ _ (Keeps-select o _) λ owner. unless_former-Keeps s c req owner mine
  unless_replayed-Keeps s c req (replayed r) mine = Keeps-pure _

  body-Keeps :
      (encode : RegisterProjectRequest → List ℕ) (s : Scope) (c : Register.Class)
      (req : RegisterProjectRequest)
      → IsMine s c req
      → Keeps P (body o x encode s c req)
  unfolding body
  body-Keeps encode s c req mine =
      Keeps-bind _ _ (claim-Keeps s _ req.idempotency _) λ r. unless_replayed-Keeps s c req r mine

  -- Whatever the call returns, the tables are as before or as the body left them.
  pub register_as-keeps :
      (try_parse : Text → Option Uuid) (encode : RegisterProjectRequest → List ℕ) (pool : Pool)
      (caller : Option Text) (req : RegisterProjectRequest) (deadline : Deadline) (s : Store)
      → ((scope : Scope) (class : Register.Class)
          → checked try_parse req ≡ ok (scope, class)
          → IsMine scope class req)
      → P s
      → P (register_as o x try_parse encode pool caller req deadline s).1
  unfolding register_as register
  register_as-keeps try_parse encode pool caller req deadline s mine h =
      elim (Result-cases (admit caller)) [
        | inr (e, r) ↦ rw (r, register_as) h
        | inl (_, a) ↦ elim (Result-cases (checked try_parse req)) [
          | inr (e, r) ↦ rw (a, r, register_as, register) h
          | inl ((scope, class), r) ↦ elim (Result-cases (acquire pool deadline)) [
            | inr (e, q) ↦ rw (a, r, q, register_as, register) h
            | inl (_, q) ↦
                rw (a, r, q, register_as, register)
                  (transact-keeps P o (body o x encode scope class req) s
                    (body-Keeps encode scope class req (mine scope class r)) h)
          ]
        ]
      ]
