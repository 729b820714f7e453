-- ===== src/Read/Resolve.antt =====
-- `resolve` and `ancestor_rows` of src/read.rs.
use project_db.Base.{
  ℕ, Text, codes, eq_ignore_ascii_case, byte_len, Bool, false, not, ◌&&◌, ◌||◌, Option, none, some,
  List, [], ◌∷◌, ◌++◌, any, keep, ltb, leb, ◌==◌, if◌then◌else◌,
}
use project_db.Status.{Code, Detail, Status, status, Result, ok, err, ◌>>=◌, ◌>>◌}
use project_db.Path
use project_db.Path.{refuse_reserved_root, reserved_root, ancestors}
use project_db.Engine.{ci_eq}
use project_db.Sql.{EngineError, database}
use project_db.Store.{Store, Project, Alias, has_id}
use project_db.Pooled.{Deadline, Pool, acquire}
use project_db.Session.{Session, query}
use project_db.Contract.{ResolveProjectRequest, ResolveProjectResponse}

-- A row of the walk: what was found, and the live row that it names.
pub record Found : Type 0 where
  pub matched : Text
  pub resolved : Text
  pub status : ℕ
  pub via_alias : ℕ
  pub source_repo : Option Text

abbrev pub found_live : Project → Found
found_live p = record {
  matched = p.path;
  resolved = p.path;
  status = p.status;
  via_alias = 0;
  source_repo = p.source_repo;
}

abbrev pub found_alias : Alias → Project → Found
found_alias a p = record {
  matched = a.alias_path;
  resolved = p.path;
  status = p.status;
  via_alias = 1;
  source_repo = p.source_repo;
}

-- `IN (...)` over a `path` column.
unfoldable pub is_in : List Text → Text → Bool
unfolding ci_eq
is_in chain path = any (ci_eq path) chain

unfoldable pub live_arm : List Text → List Project → List Found
unfolding is_in
live_arm chain [] = []
live_arm chain (p ∷ ps) =
    if is_in chain p.path then found_live p ∷ live_arm chain ps else live_arm chain ps

-- The join of one alias with the table of projects.
abbrev pub joined : Alias → List Project → List Found
joined a [] = []
joined a (p ∷ ps) = if has_id a.project_id p then found_alias a p ∷ joined a ps else joined a ps

unfoldable pub alias_arm : List Text → List Alias → List Project → List Found
unfolding is_in
alias_arm chain [] ps = []
alias_arm chain (a ∷ aliases) ps =
    if is_in chain a.alias_path
    then joined a ps ++ alias_arm chain aliases ps
    else alias_arm chain aliases ps

-- `IN ()` is a syntax error of the engine.
unfoldable pub ancestor_rows : List Text → Store → Result EngineError (List Found)
unfolding live_arm alias_arm
ancestor_rows [] s = err (database (some (codes "42000")) (some 1064) false)
ancestor_rows (q ∷ chain) s =
    ok (live_arm (q ∷ chain) s.projects ++ alias_arm (q ∷ chain) s.aliases s.projects)

-- The order of the keys `(matched.len(), -via_alias)`.
unfoldable pub key_le : Found → Found → Bool
unfolding byte_len
key_le a b =
    ltb (byte_len a.matched) (byte_len b.matched)
    || (byte_len a.matched == byte_len b.matched && leb b.via_alias a.via_alias)

-- `max_by_key`: the last of the greatest.
unfoldable pub max_from : Found → List Found → Found
unfolding key_le
max_from best [] = best
max_from best (f ∷ fs) = max_from (if key_le best f then f else best) fs

unfoldable pub best_of : List Found → Option Found
unfolding max_from
best_of [] = none
best_of (f ∷ fs) = some (max_from f fs)

abbrev pub or_empty : Option Text → Text
or_empty none = []
or_empty (some t) = t

unfoldable pub response_of : Text → Found → ResolveProjectResponse
unfolding eq_ignore_ascii_case
response_of candidate f =
    let exact = eq_ignore_ascii_case f.matched candidate in
    record {
      resolved_path = f.resolved;
      exact = exact;
      via_alias = exact && f.via_alias == 1;
      status = f.status;
      source_repo = or_empty f.source_repo;
    }

abbrev pub choose : Text → Option Found → Result Status ResolveProjectResponse
choose candidate none = err (status Code.not_found (Detail.nothing_registered candidate))
choose candidate (some f) = ok (response_of candidate f)

-- The chain without the reserved segment.
unfoldable pub chain_of : Text → List Text
unfolding eq_ignore_ascii_case ancestors
chain_of candidate =
    keep (λ ancestor. not (eq_ignore_ascii_case ancestor reserved_root)) (ancestors candidate)

module _ (session : Session) (pool : Pool) where
  unfoldable pub resolve : ResolveProjectRequest → Deadline → Result Status ResolveProjectResponse
  unfolding query
  resolve req deadline = do
    Path.validate "candidate_path" req.candidate_path
    refuse_reserved_root "candidate_path" req.candidate_path
    acquire pool deadline
    found ← query session 0 (ancestor_rows (chain_of req.candidate_path))
    choose req.candidate_path (best_of found)
