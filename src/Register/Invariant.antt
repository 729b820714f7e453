-- ===== src/Register/Invariant.antt =====
-- What `register_as` of src/write/register.rs does to the rows of the registry.
use project_db.Base.{
  ℕ, Text, ◌≡◌, refl, sym, ap, ◌∙◌, subst, ◌⊎◌, inl, inr, Option, none, some, List, [], ◌∷◌, In,
  In-append_left, In-append_cases, Option-cases, Bool-cases, arith, not, length, ltb, any, find,
}
use project_db.Status.{Status, Result, ok, err, >>=-eq-ok, refuse_unless}
use project_db.Path
use project_db.Path.{Uuid, refuse_reserved_root}
use project_db.Sql.{Scope, scope_of, EngineError}
use project_db.Store.{Store, Project, Write, insert_project, active}
use project_db.Store.Rows.{insert_project-Inserted}
use project_db.Store.Valid.{IsValid, insert_project-IsValid, IsValid-same_projects}
use project_db.Tx.{Outside}
use project_db.Pooled.{Deadline, Pool}
use project_db.Contract.{RegisterProjectRequest, RegisterProjectResponse}
use project_db.Idem.{Outcomes, insert_write, fetch_write, put_response, has_key}
use project_db.Register
use project_db.Register.{checked, fresh, register_as, class_of, max_display_name_chars}
use project_db.Register.Account.{Owns, class_of-ok_iff}
use project_db.Register.Keeps.{RegisterSafe, register_as-keeps}

read_same :
    {A : Type 0} {a b : A} {s t : Store}
    → ◌≡◌ {A = Result EngineError (A × Store)} (ok (a, s)) (ok (b, t))
    → t ≡ s
read_same h = cc

-- The statements on `project_write` leave the projects and the grants alone.
abbrev pub SameRows : Store → Store → Type 0
SameRows s t = (t.projects ≡ s.projects) × (t.grants ≡ s.grants)

module _ (x : Outcomes RegisterProjectResponse) where
  pub insert_write-same :
      (w : Write) (s t : Store) (u : Unit {0}) → insert_write x w s ≡ ok (u, t) → SameRows s t
  unfolding insert_write
  insert_write-same w s t u h =
      elim (Bool-cases (any (has_key x w.project_id w.user_id w.idem_key) s.writes)) [
        | inl clash ↦ absurd (not_ok (rw clash at h))
        | inr free ↦
            let e = read_same (rw free at h) in
            (ap (λ (y : Store). y.projects) e, ap (λ (y : Store). y.grants) e)
      ]
    where
      not_ok :
          {e : EngineError} {a : Unit {0} × Store}
          → ◌≡◌ {A = Result EngineError (Unit {0} × Store)} (err e) (ok a)
          → ⊥
      not_ok h = cc

  pub fetch_write-same :
      (p u k : Text) (s t : Store) (w : Write) → fetch_write x p u k s ≡ ok (w, t) → t ≡ s
  unfolding fetch_write
  fetch_write-same p u k s t w h = elim (Option-cases (find (has_key x p u k) s.writes)) [
    | inl e ↦ absurd (ground arith)
    | inr (v, e) ↦ read_same (rw (e, fetch_write) at h)
  ]

  pub put_response-same :
      (p u k : Text) (bytes : List ℕ) (s t : Store) (a : Unit {0})
      → put_response x p u k bytes s ≡ ok (a, t)
      → SameRows s t
  unfolding put_response
  put_response-same p u k bytes s t a h =
      (ap (λ (y : Store). y.projects) (read_same h), ap (λ (y : Store). y.grants) (read_same h))

  IsValid-RegisterSafe : RegisterSafe x IsValid (λ _. Unit)
  IsValid-RegisterSafe = record {
    claims = λ w now s t a h v. IsValid-same_projects (insert_write-same w s t a h).0 v;
    reads = λ p u k now s t a h v. subst IsValid (sym (fetch_write-same p u k s t a h)) v;
    records = λ p u k bytes now s t a h v.
        IsValid-same_projects (put_response-same p u k bytes s t a h).0 v;
    inserts = λ row mine now s t a h v. insert_project-IsValid (row now) h v;
  }

-- A registration keeps the tables valid, whether it succeeds, is refused, replays an outcome or
-- meets an engine error: ids and paths stay distinct, and every row stays in the class of its path.
pub register_as-IsValid :
    (o : Outside) (x : Outcomes RegisterProjectResponse) (try_parse : Text → Option Uuid)
    (encode : RegisterProjectRequest → List ℕ) (pool : Pool) (caller : Option Text)
    (req : RegisterProjectRequest) (deadline : Deadline) (s : Store)
    → IsValid s
    → IsValid (register_as o x try_parse encode pool caller req deadline s).1
register_as-IsValid o x try_parse encode pool caller req deadline s v =
    register_as-keeps (IsValid-RegisterSafe x) o try_parse encode pool caller req deadline s
      (λ scope class h id now. tt) v

-- A row that the request may add: its own path, no repository, owned by the account in its scope,
-- which owns the path.
pub record IsOwnRow (try_parse : Text → Option Uuid) (req : RegisterProjectRequest) (r : Project)
    : Type 0 where
  pub scope : Scope
  pub sent : req.scope ≡ some scope
  pub path : r.path ≡ req.path
  pub owner : r.owner_user_id ≡ some scope.user_id
  pub no_repo : r.source_repo ≡ none
  pub status : r.status ≡ active
  pub owns : Owns try_parse req.path scope.user_id

scope_of-ok : (m : Option Scope) {s : Scope} → scope_of m ≡ ok s → m ≡ some s
unfolding scope_of
scope_of-ok none h = cc
scope_of-ok (some s) h = cc

same_pair :
    {a b : Scope} {c d : Register.Class}
    → ◌≡◌ {A = Result Status (Scope × Register.Class)} (ok (a, c)) (ok (b, d))
    → (a ≡ b) × (c ≡ d)
same_pair h = (cc, cc)

checked-IsOwnRow :
    (try_parse : Text → Option Uuid) (req : RegisterProjectRequest) (scope : Scope)
    (class : Register.Class)
    → checked try_parse req ≡ ok (scope, class)
    → (id : Text) (now : ℕ) → IsOwnRow try_parse req (fresh id req class scope.user_id now)
unfolding checked
checked-IsOwnRow try_parse req scope class h id now =
    let (sc, a, h₁) = >>=-eq-ok (scope_of req.scope) _ h in
    let (_, _, h₂) = >>=-eq-ok (Path.validate "path" req.path) _ h₁ in
    let (_, _, h₃) = >>=-eq-ok (refuse_reserved_root "path" req.path) _ h₂ in
    let (_, _, h₄) =
      >>=-eq-ok (refuse_unless (not (ltb max_display_name_chars (length req.display_name))) _) _
        h₃ in
    let (c, b, h₅) = >>=-eq-ok (class_of try_parse req.path sc.user_id req.source_repo) _ h₄ in
    let (owns, _, is) = (class_of-ok_iff try_parse req.path sc.user_id req.source_repo c).0 b in
    let (e, k) = same_pair h₅ in
    record {
      scope = scope;
      sent = scope_of-ok req.scope a ∙ ap some e;
      path = refl;
      owner =
          ap (λ (z : Register.Class). some z.owner_user_id) (sym k ∙ is)
          ∙ ap (λ (z : Scope). some z.user_id) e;
      no_repo = refl;
      status = refl;
      owns = subst (λ (z : Scope). Owns try_parse req.path z.user_id) e owns;
    }

-- Every row of `s` is still there, and what is not of `s` is such a row.
pub record Extends (try_parse : Text → Option Uuid) (req : RegisterProjectRequest) (s t : Store)
    : Type 0 where
  pub kept : (r : Project) → In r s.projects → In r t.projects
  pub added : (r : Project) → In r t.projects → In r s.projects ⊎ IsOwnRow try_parse req r

module _ (try_parse : Text → Option Uuid) (req : RegisterProjectRequest) (s : Store) where
  Extends-same :
      {t t' : Store}
      → t'.projects ≡ t.projects
      → Extends try_parse req s t
      → Extends try_parse req s t'
  Extends-same e h = record {
    kept = λ r m. subst (In r) (sym e) (h.kept r m);
    added = λ r m. h.added r (subst (In r) e m);
  }

  Extends-insert :
      (row : Project) (t t' : Store)
      → IsOwnRow try_parse req row
      → insert_project row t ≡ ok (tt, t')
      → Extends try_parse req s t
      → Extends try_parse req s t'
  Extends-insert row t t' mine h k =
      let i = insert_project-Inserted row t t' h in
      subst (Extends try_parse req s) (sym i.result) (record {
        kept = λ r m. In-append_left r t.projects _ (k.kept r m);
        added = λ r m. elim (In-append_cases r t.projects (row ∷ []) m) [
          | inl l ↦ k.added r l
          | inr (inl e) ↦ inr (subst (IsOwnRow try_parse req) (sym e) mine)
          | inr (inr n) ↦ absurd n
        ];
      })

  Extends-RegisterSafe :
      (x : Outcomes RegisterProjectResponse)
      → RegisterSafe x (Extends try_parse req s) (IsOwnRow try_parse req)
  Extends-RegisterSafe x = record {
    claims = λ w now t t' a h v. Extends-same (insert_write-same x w t t' a h).0 v;
    reads = λ p u k now t t' a h v.
        subst (Extends try_parse req s) (sym (fetch_write-same x p u k t t' a h)) v;
    records =
        λ p u k bytes now t t' a h v. Extends-same (put_response-same x p u k bytes t t' a h).0 v;
    inserts = λ row mine now t t' a h v. Extends-insert (row now) t t' (mine now) h v;
  }

-- A registration changes no row and removes none. A row that it adds is at the requested path, has
-- no repository, and is owned by the account of the request's scope, whose private root the path
-- lies under: no caller adds an organisation's row, or a row under another account's root.
pub register_as-Extends :
    (o : Outside) (x : Outcomes RegisterProjectResponse) (try_parse : Text → Option Uuid)
    (encode : RegisterProjectRequest → List ℕ) (pool : Pool) (caller : Option Text)
    (req : RegisterProjectRequest) (deadline : Deadline) (s : Store)
    → Extends try_parse req s (register_as o x try_parse encode pool caller req deadline s).1
register_as-Extends o x try_parse encode pool caller req deadline s =
    register_as-keeps (Extends-RegisterSafe try_parse req s x) o try_parse encode pool caller req
      deadline s (checked-IsOwnRow try_parse req) (record { kept = λ r m. m; added = λ r m. inl m })
