-- ===== src/Sql.antt =====
-- src/sql.rs: the scope that a write requires, the scope that telemetry records, LIKE patterns,
-- and what becomes of an engine error.
pub mod Subtree
pub mod Scopes
pub mod Holes
use project_db.Base.{
  ℕ, zero, suc, ◌+◌, Text, codes, text_eq, length, take, Bool, true, false, ◌||◌, Option, none,
  some, List, [], ◌∷◌, ◌++◌, ltb, ◌==◌, if◌then◌else◌,
}
use project_db.Status.{Code, Detail, Status, status, Result, ok, err}
use project_db.Engine.{backslash}

-- `yadgar.common.v1.Scope`, the fields that this service reads.
pub record Scope : Type 0 where
  pub user_id : Text
  pub project_id : Text
  pub instance_id : Text
  pub request_id : Text

unfoldable pub scope_of : Option Scope → Result Status Scope
scope_of none = err (status Code.invalid_argument Detail.scope_required)
scope_of (some scope) = ok scope

-- `yadgar_telemetry::observe::Scope`
pub record Observed : Type 0 where
  pub request_id : Text
  pub instance_id : Text
  pub user_id : Text
  pub project_id : Text

abbrev field : (Scope → Text) → Option Scope → Text
field f none = []
field f (some s) = f s

abbrev or_header : Text → Text → Text
or_header [] header = header
or_header (c ∷ s) header = c ∷ s

unfoldable pub tel_scope : Option Scope → Text → Observed
tel_scope scope header = record {
  request_id = or_header (field (λ s. s.request_id) scope) header;
  instance_id = field (λ s. s.instance_id) scope;
  user_id = field (λ s. s.user_id) scope;
  project_id = field (λ s. s.project_id) scope;
}

abbrev pub request_id_cap : ℕ
request_id_cap = 256

abbrev pub cut_marker : Text
cut_marker = codes "..."

-- `char_indices().nth(REQUEST_ID_CAP)` is there exactly when the text has more characters.
unfoldable pub capped : Text → Text
capped s = if ltb request_id_cap (length s) then take request_id_cap s ++ cut_marker else s

-- The value of `x-yadgar-request-id`: absent, or not text, is `none`.
unfoldable pub request_id_of : Option Text → Text
unfolding capped
request_id_of none = []
request_id_of (some v) = capped v

unfoldable pub is_meta : ℕ → Bool
is_meta c = c == backslash || c == b'%' || c == b'_'

unfoldable pub like_escape : Text → Text
unfolding is_meta
like_escape [] = []
like_escape (c ∷ s) = if is_meta c then backslash ∷ c ∷ like_escape s else c ∷ like_escape s

unfoldable pub subtree : Text → Text
unfolding like_escape
subtree path = like_escape path ++ codes "/%"

-- `sqlx::Error` as this module looks at it: the pool's timeout, an error of the engine with its
-- SQLSTATE, its number and whether it is a unique violation, or anything else.
pub data EngineError : Type 0 where
  pool_timed_out : EngineError
  database : Option Text → Option ℕ → Bool → EngineError
  other : EngineError

abbrev is_lock_number : Option ℕ → Bool
is_lock_number none = false
is_lock_number (some n) = n == 1205 || n == 1213

abbrev is_sqlstate : Option Text → Text → Bool
is_sqlstate none s = false
is_sqlstate (some t) s = text_eq t s

unfoldable pub internal : EngineError → Status
unfolding text_eq
internal pool_timed_out = status Code.unavailable Detail.pool_exhausted
internal (database code number unique) =
    if is_sqlstate code (codes "40001") || is_lock_number number
    then status Code.aborted Detail.not_serialised
    else status Code.internal Detail.storage_error
internal other = status Code.internal Detail.storage_error

unfoldable pub is_duplicate : EngineError → Bool
is_duplicate (database code number unique) = unique
is_duplicate _ = false

-- `holes`: one mark for each of the bound values, with `, ` between them.
abbrev pub holes : ℕ → Text
holes zero = []
holes (suc zero) = b'?' ∷ []
holes (suc (suc n)) = b'?' ∷ b',' ∷ b' ' ∷ holes (suc n)
