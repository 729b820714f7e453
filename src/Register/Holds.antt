-- ===== src/Register/Holds.antt =====
-- What a registration leaves under its idempotency key (src/write/register.rs over src/idem.rs).
use project_db.Base.{
  ℕ, Text, codes, ◌≡◌, sym, ap, subst, true, Option, none, some, List, ◌++◌, find,
}
use project_db.Status.{Status, Result, ok, err}
use project_db.Sql.{Scope, EngineError}
use project_db.Store.{Store, Write, insert_project}
use project_db.Store.Rows.{insert_project-Inserted}
use project_db.Tx.{Outside, Conn, Ended, committing, rolling_back, statement, select, draw_uuid}
use project_db.Tx.Laws.{
  Ensures, Ensures-bind, Ensures-pure, execute-returns, select-returns, draw_uuid-returns,
  statement-ok, statement-err,
}
use project_db.Contract.{RegisterProjectRequest, RegisterProjectResponse, Idempotency}
use project_db.Idem.{
  Outcomes, Claimed, proceed, replayed, present, has_key, put_response, record_outcome, caught,
  claim,
}
use project_db.Idem.Recorded.{
  IsClaimed, Recorded, AfterClaim, claim-Recorded, put_response-Recorded,
}
use project_db.Register
use project_db.Register.{
  fresh, meta_of, body, insert_new, unless_former, unless_replayed, inserted, payload, rpc_name,
  alias_owner,
}

-- The answer that a registration gives.
abbrev pub answer_of : Text → Text → Text → RegisterProjectResponse
answer_of id path actor = record { meta = some (meta_of id 1 path actor) }

-- A codec that gives back the answers that it took, and keys that equal themselves.
pub record IsSound (x : Outcomes RegisterProjectResponse) : Type 0 where
  pub round_trip :
      (id path actor : Text)
      → x.decode (x.encode (answer_of id path actor)) ≡ some (answer_of id path actor)
  pub same_refl : (t : Text) → x.same t t ≡ true

module _ (x : Outcomes RegisterProjectResponse) (sound : IsSound x) (scope : Scope) (key : Text)
    (bytes : List ℕ) where
  abbrev pub Holds : RegisterProjectResponse → Store → Type 0
  Holds = Recorded x scope rpc_name key bytes

  -- What the body of a registration leaves under the key.
  abbrev pub AfterBody : Store → Ended RegisterProjectResponse → Conn → Type 0
  AfterBody s (committing a) d = Holds a d.store
  AfterBody s (rolling_back (ok a)) d = Holds a s
  AfterBody s (rolling_back (err e)) d = Unit

  IsClaimed-writes :
      {s t : Store} {w : Write}
      → t.writes ≡ s.writes
      → IsClaimed x scope rpc_name key bytes s w
      → IsClaimed x scope rpc_name key bytes t w
  IsClaimed-writes {w = w} e c = record {
    found =
        subst (λ ws. find (has_key x scope.project_id scope.user_id key) ws ≡ some w) (sym e)
          c.found;
    same_rpc = c.same_rpc;
    same_request = c.same_request;
  }

  record_outcome-Recorded :
      (o : Outside) (idem : Option Idempotency) (a : RegisterProjectResponse) (w : Write) (c : Conn)
      → present idem ≡ some key
      → x.decode (x.encode a) ≡ some a
      → IsClaimed x scope rpc_name key bytes c.store w
      → Ensures (record_outcome x o scope idem a) c (λ _ d. Holds a d.store)
  unfolding record_outcome
  record_outcome-Recorded o idem a w c p round k =
      rw (p, record_outcome)
        (record {
          returns = λ _ d h.
              put_response-Recorded x scope rpc_name key bytes c.store d.store w a k round (
                execute-returns o
                  (λ _. put_response x scope.project_id scope.user_id key (x.encode a)) c h);
        })

  module _ (o : Outside) (class : Register.Class) (req : RegisterProjectRequest)
      (held : present req.idempotency ≡ some key) (s : Store) where
    inserted-Recorded :
        (id : Text) (r : Result EngineError Unit) (w : Write) (c : Conn)
        → IsClaimed x scope rpc_name key bytes c.store w
        → Ensures (inserted o x scope req id r) c (AfterBody s)
    inserted-Recorded id (err e) w c k = Ensures-pure _ c tt
    inserted-Recorded id (ok u) w c k =
        let a = answer_of id req.path scope.user_id in
        Ensures-bind (record_outcome x o scope req.idempotency a) _ c λ _ d h.
          Ensures-pure (committing a) d (
            (record_outcome-Recorded o req.idempotency a w c held
                (sound.round_trip id req.path scope.user_id) k).returns
              tt d h)

    insert_new-Recorded :
        (w : Write) (c : Conn)
        → IsClaimed x scope rpc_name key bytes c.store w
        → Ensures (insert_new o x scope class req) c (AfterBody s)
    unfolding insert_new
    insert_new-Recorded w c k = Ensures-bind (draw_uuid o) _ c λ uuid c₁ h₁.
        let id = codes "yadgar:project:" ++ uuid in
        let run : ℕ → Store → Result EngineError (Unit {0} × Store) =
          λ now. insert_project (fresh id req class scope.user_id now) in
        let same = (draw_uuid-returns o c h₁).1 in
        let k₁ =
          subst (λ (y : Conn). IsClaimed x scope rpc_name key bytes y.store w) (sym same) k in
        Ensures-bind (caught (statement o run)) _ c₁ λ r c₂ h₂. inserted-Recorded id r w c₂ (
          IsClaimed-writes
            (kept run c₁ c₂ r (λ now t u h. writes_kept now t u id h) (caught-eq _ h₂)) k₁)
      where
        caught-eq :
            (q : Result EngineError (Unit {0}) × Conn) {r : Result EngineError (Unit {0})}
            {d : Conn}
            → ◌≡◌ {A = Result Status (Result EngineError (Unit {0})) × Conn} (ok q.0, q.1) (ok r, d)
            → q ≡ (r, d)
        caught-eq q h = cc (ap (λ p. p.0) h, ap (λ p. p.1) h)

        writes_kept :
            (now : ℕ) (t u : Store) (id : Text)
            → insert_project (fresh id req class scope.user_id now) t ≡ ok (tt, u)
            → u.writes ≡ t.writes
        writes_kept now t u id h =
            ap (λ (y : Store). y.writes)
              (insert_project-Inserted (fresh id req class scope.user_id now) t u h).result

        kept :
            (run : ℕ → Store → Result EngineError (Unit {0} × Store)) (c d : Conn)
            (r : Result EngineError (Unit {0}))
            → ((now : ℕ) (t u : Store) → run now t ≡ ok (tt, u) → u.writes ≡ t.writes)
            → statement o run c ≡ (r, d)
            → d.store.writes ≡ c.store.writes
        kept run c d (ok u) keeps h = keeps (o.now c.step) c.store d.store (statement-ok o run c h)
        kept run c d (err e) keeps h = ap (λ (y : Store). y.writes) (statement-err o run c h)

    pub body-Recorded :
        (encode : RegisterProjectRequest → List ℕ) (c : Conn)
        → payload encode req ≡ bytes
        → c.store ≡ s
        → Ensures (body o x encode scope class req) c (AfterBody s)
    unfolding body
    body-Recorded encode c same at =
        Ensures-bind (claim x o scope rpc_name req.idempotency (payload encode req)) _ c
          λ claimed d h. after claimed d (
            subst (λ b. AfterClaim x scope rpc_name key b s claimed d) same
              (subst (λ y. AfterClaim x scope rpc_name key (payload encode req) y claimed d) at
                ((claim-Recorded x scope rpc_name key (payload encode req) o sound.same_refl
                    req.idempotency c held).returns
                  claimed d h)))
      where
        after :
            (claimed : Claimed RegisterProjectResponse) (d : Conn)
            → AfterClaim x scope rpc_name key bytes s claimed d
            → Ensures (unless_replayed o x scope class req claimed) d (AfterBody s)
        after (replayed a) d k = Ensures-pure (rolling_back (ok a)) d k
        after proceed d (w, k) = Ensures-bind (select o (alias_owner req.path)) _ d λ owner d₁ h₁.
            former owner d₁ (
              w,
              subst (λ y. IsClaimed x scope rpc_name key bytes y w)
                  (sym (select-returns o (alias_owner req.path) d h₁).1) k,
            )
          where
            former :
                (owner : Option Text) (d : Conn)
                → ((w : Write) × IsClaimed x scope rpc_name key bytes d.store w)
                → Ensures (unless_former o x scope class req owner) d (AfterBody s)
            former none d (w, k) = insert_new-Recorded w d k
            former (some p) d k = Ensures-pure _ d tt
