-- ===== src/Tx/Laws.antt =====
-- Inversion of a transaction that returned.
use project_db.Base.{ℕ, Text, ◌≡◌, refl, sym, ap, subst, Option, none, some}
use project_db.Status.{Result, ok, err}
use project_db.Sql.{EngineError, internal}
use project_db.Store.{Store}
use project_db.Tx.{
  Outside, Conn, Tx, pure, continue, effect, attempt, failed, ◌>>=◌, statement, execute, select,
  draw_uuid,
}

continue-returns :
    {E A B : Type 0} (r : Result E A) (f : A → Tx E B) (d : Conn) {b : B} {c' : Conn}
    → continue r f d ≡ (ok b, c')
    → (a : A) × (r ≡ ok a) × (f a d ≡ (ok b, c'))
continue-returns (ok a) f d h = (a, refl, h)
continue-returns (err e) f d h = cc (ap (λ p. p.0) h)

-- A chain that returned: its first part returned, and the rest ran from where that part ended.
pub >>=-returns :
    {E A B : Type 0} (m : Tx E A) (f : A → Tx E B) (c : Conn) {b : B} {c' : Conn}
    → (m >>= f) c ≡ (ok b, c')
    → (a : A) × (d : Conn) × (m c ≡ (ok a, d)) × (f a d ≡ (ok b, c'))
>>=-returns {E} {A} m f c h =
    let (a, e, rest) = continue-returns (m c).0 f (m c).1 h in
    (a, (m c).1, ap {B = Result E A × Conn} (λ r. (r, (m c).1)) e, rest)

effect-returns :
    {A : Type 0} (c : Conn) (r : Result EngineError (A × Store)) {a : A} {d : Conn}
    → failed internal (effect c r).0 ≡ ok a
    → (effect c r).1 ≡ d
    → r ≡ ok (a, d.store)
effect-returns c (ok (b, s)) h k = cc (h, ap (λ (x : Conn). x.store) k)
effect-returns c (err e) h k = cc

attempt-returns :
    {A : Type 0} (fault : Option EngineError) (run : Store → Result EngineError (A × Store))
    (c : Conn) {a : A} {d : Conn}
    → failed internal (attempt fault run c).0 ≡ ok a
    → (attempt fault run c).1 ≡ d
    → run c.store ≡ ok (a, d.store)
attempt-returns none run c h k = effect-returns c (run c.store) h k
attempt-returns (some e) run c h k = cc

pair_eq :
    {A S : Type 0} {a b : A} {s t : S}
    → ◌≡◌ {A = Result EngineError (A × S)} (ok (a, s)) (ok (b, t))
    → (b ≡ a) × (t ≡ s)
pair_eq h = (cc, cc)

module _ (o : Outside) where
  -- A statement that returned met no fault, and had its effect.
  pub execute-returns :
      {A : Type 0} (run : ℕ → Store → Result EngineError (A × Store)) (c : Conn) {a : A} {d : Conn}
      → execute o run c ≡ (ok a, d)
      → run (o.now c.step) c.store ≡ ok (a, d.store)
  unfolding execute
  execute-returns run c h =
      attempt-returns (o.fault c.step) (run (o.now c.step)) c (ap (λ p. p.0) h) (ap (λ p. p.1) h)

  pub select-returns :
      {A : Type 0} (f : Store → A) (c : Conn) {a : A} {d : Conn}
      → select o f c ≡ (ok a, d)
      → (a ≡ f c.store) × (d.store ≡ c.store)
  unfolding select
  select-returns f c {a} {d} h = let e = execute-returns (λ _ s. ok (f s, s)) c h in pair_eq e

  pub draw_uuid-returns :
      {E : Type 0} (c : Conn) {a : Text} {d : Conn}
      → draw_uuid o {E = E} c ≡ (ok a, d)
      → (a ≡ o.now_v7 c.step) × (d ≡ c)
  unfolding draw_uuid
  draw_uuid-returns c h = (cc (ap (λ p. p.0) h), sym (ap (λ p. p.1) h))

attempt-ok :
    {A : Type 0} (fault : Option EngineError) (run : Store → Result EngineError (A × Store))
    (c : Conn) {a : A} {d : Conn}
    → attempt fault run c ≡ (ok a, d)
    → run c.store ≡ ok (a, d.store)
attempt-ok none run c h =
    effect-returns c (run c.store) (ap (λ p. failed internal p.0) h) (ap (λ p. p.1) h)
attempt-ok (some e) run c h = cc (ap (λ p. p.0) h)

effect-err :
    {A : Type 0} (c : Conn) (r : Result EngineError (A × Store)) {e : EngineError} {d : Conn}
    → effect c r ≡ (err e, d)
    → d.store ≡ c.store
effect-err c (ok (a, s)) h = cc (ap (λ p. p.0) h)
effect-err c (err f) h = ap (λ p. p.1.store) (sym h)

attempt-err :
    {A : Type 0} (fault : Option EngineError) (run : Store → Result EngineError (A × Store))
    (c : Conn) {e : EngineError} {d : Conn}
    → attempt fault run c ≡ (err e, d)
    → d.store ≡ c.store
attempt-err none run c h = effect-err c (run c.store) h
attempt-err (some f) run c h = ap (λ p. p.1.store) (sym h)

module _ (o : Outside) where
  -- A statement that had its effect, and one that failed and left the tables alone.
  pub statement-ok :
      {A : Type 0} (run : ℕ → Store → Result EngineError (A × Store)) (c : Conn) {a : A} {d : Conn}
      → statement o run c ≡ (ok a, d)
      → run (o.now c.step) c.store ≡ ok (a, d.store)
  unfolding statement
  statement-ok run c h = attempt-ok (o.fault c.step) (run (o.now c.step)) c h

  pub statement-err :
      {A : Type 0} (run : ℕ → Store → Result EngineError (A × Store)) (c : Conn) {e : EngineError}
      {d : Conn}
      → statement o run c ≡ (err e, d)
      → d.store ≡ c.store
  unfolding statement
  statement-err run c h = attempt-err (o.fault c.step) (run (o.now c.step)) c h

-- What holds of the value and the connection of a transaction that returned.
pub record Ensures {E A : Type 0} (m : Tx E A) (c : Conn) (Q : A → Conn → Type 0) : Type 0 where
  pub returns : (a : A) (d : Conn) → m c ≡ (ok a, d) → Q a d

pub Ensures-bind :
    {E A B : Type 0} (m : Tx E A) (f : A → Tx E B) (c : Conn) {Q : B → Conn → Type 0}
    → ((a : A) (d : Conn) → m c ≡ (ok a, d) → Ensures (f a) d Q)
    → Ensures (m >>= f) c Q
Ensures-bind m f c k = record {
  returns = λ b c' h. let (a, d, e, r) = >>=-returns m f c h in (k a d e).returns b c' r;
}

pub Ensures-pure :
    {E A : Type 0} (a : A) (c : Conn) {Q : A → Conn → Type 0} → Q a c → Ensures (pure {E = E} a) c Q
Ensures-pure {E} {A} a c {Q} q = record {
  returns = λ b d h. subst (λ (p : A × Conn). Q p.0 p.1) (cc (ap (λ p. p.0) h, ap (λ p. p.1) h)) q;
}
