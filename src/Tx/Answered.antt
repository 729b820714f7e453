-- ===== src/Tx/Answered.antt =====
-- A transaction that answers with a value: how its body ended.
use project_db.Base.{◌≡◌, refl, ap, Option-cases, inl, inr}
use project_db.Status.{Status, Result, ok, err}
use project_db.Store.{Store}
use project_db.Tx.{
  Outside, Conn, Tx, Ended, committing, rolling_back, settle, transact, select, continue,
}
use project_db.Tx.Laws.{select-returns}

-- What a transaction that was answered did, by the end that its body chose.
abbrev pub Settled : {A : Type 0} → Ended A → Conn → Store → A → Store → Type 0
Settled (committing b) d s a t = (b ≡ a) × (d.store ≡ t)
Settled (rolling_back r) d s a t = (r ≡ ok a) × (s ≡ t)

not_ok : {A : Type 0} {e : Status} {a : A} → ◌≡◌ {A = Result Status A} (err e) (ok a) → ⊥
not_ok h = cc

ok_eq : {A : Type 0} {a b : A} → ◌≡◌ {A = Result Status A} (ok a) (ok b) → a ≡ b
ok_eq h = cc

settle-Settled :
    {A : Type 0} (o : Outside) (s : Store) (ended : Ended A) (d : Conn) {a : A} {t : Store}
    → settle o s (ok ended, d) ≡ (ok a, t)
    → Settled ended d s a t
unfolding settle
settle-Settled o s (committing b) d h = elim (Option-cases (o.fault d.step)) [
  | inl calm ↦ let e = rw (calm, settle) at h in (ok_eq (ap (λ p. p.0) e), ap (λ p. p.1) e)
  | inr (f, e) ↦ absurd (not_ok (ap (λ p. p.0) (rw (e, settle) at h)))
]
settle-Settled o s (rolling_back r) d h = elim (Option-cases (o.fault d.step)) [
  | inl calm ↦ let e = rw (calm, settle) at h in (ap (λ p. p.0) e, ap (λ p. p.1) e)
  | inr (f, e) ↦ absurd (not_ok (ap (λ p. p.0) (rw (e, settle) at h)))
]

-- Its body ran on the tables as they were, and returned.
pub transact-Settled :
    {A : Type 0} (o : Outside) (m : Tx Status (Ended A)) (s : Store) {a : A} {t : Store}
    → transact o m s ≡ (ok a, t)
    → (c : Conn) × (ended : Ended A) × (d : Conn) × (c.store ≡ s)
      × (m c ≡ (ok ended, d))
      × Settled ended d s a t
unfolding transact
transact-Settled {A} o m s h =
    let start : Conn = record { store = s; step = 0 } in
    begun (select o (λ _. tt) start).0 (select o (λ _. tt) start).1 h (λ u e.
      (select-returns o (λ _. tt) start
        (ap {B = Result Status (Unit {0}) × Conn} (λ r. (r, (select o (λ _. tt) start).1)) e)).1)
  where
    ran :
        (c : Conn) (q : Result Status (Ended A) × Conn) {a : A} {t : Store}
        → m c ≡ q
        → settle o s q ≡ (ok a, t)
        → c.store ≡ s
        → (c : Conn) × (ended : Ended A) × (d : Conn) × (c.store ≡ s)
          × (m c ≡ (ok ended, d))
          × Settled ended d s a t
    ran c (ok ended, d) e h at = (c, ended, d, at, e, settle-Settled o s ended d h)
    ran c (err f, d) e h at = absurd (unfold settle in not_ok (ap (λ p. p.0) h))

    begun :
        (r : Result Status (Unit {0})) (c : Conn) {a : A} {t : Store}
        → settle o s (continue r (λ _. m) c) ≡ (ok a, t)
        → ((u : Unit {0}) → r ≡ ok u → c.store ≡ s)
        → (c : Conn) × (ended : Ended A) × (d : Conn) × (c.store ≡ s)
          × (m c ≡ (ok ended, d))
          × Settled ended d s a t
    begun (ok u) c h at = ran c (m c) refl h (at u refl)
    begun (err f) c h at = absurd (unfold settle in not_ok (ap (λ p. p.0) h))
