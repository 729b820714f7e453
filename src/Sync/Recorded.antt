-- ===== src/Sync/Recorded.antt =====
-- What telemetry records of a sync: `recorded_scope` of src/write/sync/recorded.rs.
use project_db.Base.{
  ◌≤◌, ◌<◌, Text, text_eq_iff, length, ◌⊎◌, ◌≡◌, refl, sym, ap, subst, ◌||◌, Option, none, some,
  arith, ltb, ◌==◌, Bool-cases, inl, inr,
}
use project_db.Status.{Status, Result, ok, Result-cases, >>=-eq-ok}
use project_db.Sql.{Scope, tel_scope}
use project_db.Sync.Request.{
  admitted, admit, is_caller, require_scope, principal, recorded_scope, only_request_id,
  sync_caller, max_principal_chars,
}

-- The identity of a call that is let through: the one admitted caller, and a principal that fits.
pub record IsAdmittedAs (caller : Option Text) (scope : Option Scope) (user_id : Text)
    : Type 0 where
  pub by : caller ≡ some sync_caller
  pub claimed : Scope
  pub sent : scope ≡ some claimed
  pub principal : user_id ≡ claimed.user_id
  pub given : 0 < length user_id
  pub fits : length user_id ≤ max_principal_chars

admit-ok : (caller : Option Text) → admit caller ≡ ok tt → caller ≡ some sync_caller
unfolding admit is_caller
admit-ok none h = cc
admit-ok (some c) h = elim (Bool-cases (is_caller (some c) sync_caller)) [
  | inl same ↦ ap some ((text_eq_iff c sync_caller).0 same)
  | inr other ↦ absurd (ground arith)
]

require_scope-ok : (m : Option Scope) {s : Scope} → require_scope m ≡ ok s → m ≡ some s
require_scope-ok none h = cc
require_scope-ok (some s) h = cc

principal-ok :
    (u : Text) {v : Text}
    → principal u ≡ ok v
    → (v ≡ u) × (0 < length v) × (length v ≤ max_principal_chars)
unfolding principal
principal-ok u {v} h = elim (Bool-cases (length u == 0 || ltb max_principal_chars (length u))) [
  | inl bad ↦ absurd (ground arith)
  | inr good ↦ same (ok_eq (rw good at h)) (ground arith) (ground arith)
]
  where
    ok_eq : {a b : Text} → ◌≡◌ {A = Result Status Text} (ok a) (ok b) → a ≡ b
    ok_eq h = cc

    same :
        u ≡ v
        → 0 < length u
        → length u ≤ max_principal_chars
        → (v ≡ u) × (0 < length v) × (length v ≤ max_principal_chars)
    same e p q =
        (sym e, subst (λ x. 0 < length x) e p, subst (λ x. length x ≤ max_principal_chars) e q)

admitted-IsAdmittedAs :
    (caller : Option Text) (scope : Option Scope) {u : Text}
    → admitted caller scope ≡ ok u
    → IsAdmittedAs caller scope u
unfolding admitted
admitted-IsAdmittedAs caller scope h =
    let (_, a, h₁) = >>=-eq-ok (admit caller) _ h in
    let (s, b, h₂) = >>=-eq-ok (require_scope scope) _ h₁ in
    let (e, p, q) = principal-ok s.user_id h₂ in
    record {
      by = admit-ok caller a;
      claimed = s;
      sent = require_scope-ok scope b;
      principal = e;
      given = p;
      fits = q;
    }

-- Telemetry records a user, an instance or a project for a sync only when the call is admitted:
-- when any of the three is recorded, the caller is the one admitted caller and the scope that it
-- sent names a principal that fits. A refused call leaves only its request id.
pub recorded_scope-IsAdmittedAs :
    (caller : Option Text) (scope : Option Scope) (header : Text)
    → ((u : Text) × IsAdmittedAs caller scope u
        × (recorded_scope caller scope header ≡ tel_scope scope header))
      ⊎ (recorded_scope caller scope header ≡ only_request_id (tel_scope scope header).request_id)
unfolding recorded_scope
recorded_scope-IsAdmittedAs caller scope header = elim (Result-cases (admitted caller scope)) [
  | inl (u, e) ↦ inl (u, admitted-IsAdmittedAs caller scope e, rw (e, recorded_scope) refl)
  | inr (s, e) ↦ inr (rw (e, recorded_scope) refl)
]
