-- ===== src/Idem/Recorded.antt =====
-- The outcome that an idempotency key holds: what `claim` and `record` of src/idem.rs leave.
use project_db.Base.{
  ℕ, Text, text_eq, text_eq_iff, ◌≡◌, refl, sym, ap, ◌∙◌, subst, inl, inr, Bool, true, false,
  Option, some, List, [], ◌∷◌, ◌++◌, any, find, Option-cases, Bool-cases, arith,
}
use project_db.Status.{Status, Result, ok, err}
use project_db.Sql.{Scope, EngineError, is_duplicate}
use project_db.Store.{Store, Write, update_rows}
use project_db.Tx.{Outside, Conn, statement, execute}
use project_db.Tx.Laws.{
  Ensures, Ensures-bind, Ensures-pure, execute-returns, statement-ok, statement-err,
}
use project_db.Contract.{Idempotency}
use project_db.Idem.{
  Outcomes, Claimed, proceed, replayed, present, has_key, insert_write, fetch_write, put_response,
  replay, replay_of, claim, caught, new_write, claimed,
}

find_append_none :
    {A : Type 0} (p : A → Bool) (xs : List A) (a : A)
    → any p xs ≡ false
    → p a ≡ true
    → find p (xs ++ a ∷ []) ≡ some a
find_append_none p [] a h k = rw k
find_append_none p (x ∷ xs) a h k = ground (arith, find_append_none p xs a)

find-update_rows :
    {A : Type 0} (p : A → Bool) (f : A → A) (xs : List A) {a : A}
    → ((x : A) → p (f x) ≡ p x)
    → find p xs ≡ some a
    → find p (update_rows p f xs) ≡ some (f a)
find-update_rows p f [] kept h = cc
find-update_rows p f (x ∷ xs) {a} kept h = elim (Bool-cases (p x)) [
  | inl t ↦ let same : x ≡ a = ground arith in rw (t, kept x, t) (ap (λ y. some (f y)) same)
  | inr n ↦ rw (n, n) (find-update_rows p f xs {a = a} kept (rw n at h))
]

module _ {T : Type 0} (x : Outcomes T) (scope : Scope) (rpc key : Text) (payload : List ℕ) where
  abbrev pub mine : Write → Bool
  mine = has_key x scope.project_id scope.user_id key

  -- The row that the key finds was claimed by this request.
  pub record IsClaimed (s : Store) (w : Write) : Type 0 where
    pub found : find mine s.writes ≡ some w
    pub same_rpc : w.rpc ≡ rpc
    pub same_request : w.request_fingerprint ≡ x.sha256 payload

  -- It holds the answer.
  abbrev pub Recorded : T → Store → Type 0
  Recorded t s = (w : Write) × IsClaimed s w × (x.decode w.response ≡ some t)

  abbrev row : Outside → Write
  row o = new_write x o scope rpc key (x.sha256 payload)

  done_eq :
      {s t : Store}
      → ◌≡◌ {A = Result EngineError (Unit {0} × Store)} (ok (tt, s)) (ok (tt, t))
      → s ≡ t
  done_eq h = cc

  mine-row : (o : Outside) → ((t : Text) → x.same t t ≡ true) → mine (row o) ≡ true
  unfolding has_key
  mine-row o r = rw (r scope.project_id, r scope.user_id, r key) refl

  insert_write-IsClaimed :
      (o : Outside) (s t : Store)
      → ((t : Text) → x.same t t ≡ true)
      → insert_write x (row o) s ≡ ok (tt, t)
      → IsClaimed t (row o)
  unfolding insert_write
  insert_write-IsClaimed o s t r h = elim (Bool-cases (any mine s.writes)) [
    | inl clash ↦ absurd (not_ok (rw clash at h))
    | inr free ↦
        subst (λ u. IsClaimed u (row o)) (done_eq (rw free at h))
          (record {
            found = find_append_none mine s.writes (row o) free (mine-row o r);
            same_rpc = refl;
            same_request = refl;
          })
  ]
    where
      not_ok :
          {e : EngineError} {a : Unit {0} × Store}
          → ◌≡◌ {A = Result EngineError (Unit {0} × Store)} (err e) (ok a)
          → ⊥
      not_ok h = cc

  same_write :
      {w v : Write} {s t : Store}
      → ◌≡◌ {A = Result EngineError (Write × Store)} (ok (w, s)) (ok (v, t))
      → (w ≡ v) × (s ≡ t)
  same_write h = (cc, cc)

  fetch_write-ok :
      (s t : Store) (w : Write)
      → fetch_write x scope.project_id scope.user_id key s ≡ ok (w, t)
      → (find mine s.writes ≡ some w) × (s ≡ t)
  unfolding fetch_write
  fetch_write-ok s t w h = elim (Option-cases (find mine s.writes)) [
    | inl e ↦ absurd (ground arith)
    | inr (v, e) ↦ let (k, same) = same_write (rw (e, fetch_write) at h) in (e ∙ ap some k, same)
  ]

  replay_of-ok :
      (w : Write) (claimed : Claimed T)
      → replay_of x rpc (x.sha256 payload) w ≡ ok claimed
      → (w.rpc ≡ rpc)
        × (w.request_fingerprint ≡ x.sha256 payload)
        × ((t : T) × (claimed ≡ replayed t) × (x.decode w.response ≡ some t))
  unfolding replay_of
  replay_of-ok w claimed h = elim (Bool-cases (text_eq w.rpc rpc)) [
    | inr n ↦ absurd (no (rw n at h))
    | inl a ↦ elim (Bool-cases (text_eq w.request_fingerprint (x.sha256 payload))) [
      | inr n ↦ absurd (no (rw (a, n) at h))
      | inl b ↦ elim (Option-cases (x.decode w.response)) [
        | inl e ↦ absurd (no (rw (a, b, e) at h))
        | inr (t, e) ↦ (
          (text_eq_iff w.rpc rpc).0 a,
          (text_eq_iff w.request_fingerprint (x.sha256 payload)).0 b,
          (t, got (rw (a, b, e) at h), e),
        )
      ]
    ]
  ]
    where
      no : {e : Status} {a : Claimed T} → ◌≡◌ {A = Result Status (Claimed T)} (err e) (ok a) → ⊥
      no h = cc

      got : {a b : Claimed T} → ◌≡◌ {A = Result Status (Claimed T)} (ok a) (ok b) → b ≡ a
      got h = cc

  -- The row's response is what the key finds after the record.
  pub put_response-Recorded :
      (s t : Store) (w : Write) (outcome : T)
      → IsClaimed s w
      → x.decode (x.encode outcome) ≡ some outcome
      → put_response x scope.project_id scope.user_id key (x.encode outcome) s ≡ ok (tt, t)
      → Recorded outcome t
  unfolding put_response has_key
  put_response-Recorded s t w outcome c round h = subst (Recorded outcome) (done_eq h) (
    record w { response = x.encode outcome },
    record {
      found =
          find-update_rows mine (λ v. record v { response = x.encode outcome }) s.writes (λ v. refl)
            c.found;
      same_rpc = c.same_rpc;
      same_request = c.same_request;
    },
    round,
  )

  -- What a claim leaves: a fresh row for the request, or the recorded answer.
  abbrev pub AfterClaim : Store → Claimed T → Conn → Type 0
  AfterClaim s proceed d = (w : Write) × IsClaimed d.store w
  AfterClaim s (replayed t) d = Recorded t s

  module _ (o : Outside) (same_refl : (t : Text) → x.same t t ≡ true) where
    replay-Recorded :
        (s : Store) (c : Conn)
        → c.store ≡ s
        → Ensures (replay x o scope rpc key (x.sha256 payload)) c (AfterClaim s)
    unfolding replay
    replay-Recorded s c e =
        let run : ℕ → Store → Result EngineError (Write × Store) =
          λ _. fetch_write x scope.project_id scope.user_id key in
        Ensures-bind (execute o run) _ c λ w d h. record {
          returns = λ claimed d' k.
              let (found, same) = fetch_write-ok c.store d.store w (execute-returns o run c h) in
              let (a, b, (t, is, dec)) = replay_of-ok w claimed (ap (λ p. p.0) k) in
              subst (λ cl. AfterClaim s cl d') (sym is)
                (
                  w,
                  record {
                    found = subst (λ (y : Store). find mine y.writes ≡ some w) e found;
                    same_rpc = a;
                    same_request = b;
                  },
                  dec,
                );
        }

    claimed-Recorded :
        (c d : Conn) (r : Result EngineError Unit)
        → statement o (λ _. insert_write x (row o)) c ≡ (r, d)
        → Ensures
            (claimed x o r (replay x o scope rpc key (x.sha256 payload)))
            d
            (AfterClaim c.store)
    claimed-Recorded c d (ok u) h = Ensures-pure proceed d (
      row o,
      insert_write-IsClaimed o c.store d.store same_refl
          (statement-ok o (λ _. insert_write x (row o)) c h),
    )
    claimed-Recorded c d (err e) h = elim (Bool-cases (is_duplicate e)) [
      | inl dup ↦
          rw dup (replay-Recorded c.store d (statement-err o (λ _. insert_write x (row o)) c h))
      | inr other ↦ rw other (record { returns = λ a d' k. cc (ap (λ p. p.0) k) })
    ]

    pub claim-Recorded :
        (idem : Option Idempotency) (c : Conn)
        → present idem ≡ some key
        → Ensures (claim x o scope rpc idem payload) c (AfterClaim c.store)
    unfolding claim
    claim-Recorded idem c p =
        rw (p, claim)
          (Ensures-bind (caught (statement o (λ _. insert_write x (row o)))) _ c λ r d h.
            claimed-Recorded c d r (caught-eq (statement o (λ _. insert_write x (row o)) c) h))
      where
        caught-eq :
            (q : Result EngineError Unit × Conn) {r : Result EngineError Unit} {d : Conn}
            → ◌≡◌ {A = Result Status (Result EngineError Unit) × Conn} (ok q.0, q.1) (ok r, d)
            → q ≡ (r, d)
        caught-eq q h = cc (ap (λ p. p.0) h, ap (λ p. p.1) h)
