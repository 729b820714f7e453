-- ===== src/Touch.antt =====
-- src/write/touch.rs: the flush of `last_seen_at`.
pub mod Forward
pub mod Reaches
use project_db.Base.{
  ℕ, ◌≤◌, Text, length, to_ascii_lowercase, eq_ignore_ascii_case, text_eq, Bool, true, false, not,
  ◌&&◌, ◌||◌, Option, none, some, List, [], ◌∷◌, any, ltb, leb, ◌==◌, if◌then◌else◌,
}
use project_db.Base.Int.{ℤ, pos, negsuc}
use project_db.Status
use project_db.Status.{Code, Detail, Status, status, Result, ok, err, refuse_unless}
use project_db.Path
use project_db.Engine.{ci_eq}
use project_db.Engine.Order.{text_lt}
use project_db.Sql.{scope_of, EngineError}
use project_db.Store.{Store, Project, Alias, update_projects}
use project_db.Tx.{Outside, Tx, Ended, committing, transact, pure, ◌>>=◌, ◌>>◌, execute, select}
use project_db.Pooled.{Deadline, Pool, acquire}
use project_db.Contract.{Timestamp, TouchProjectsRequest, TouchProjectsResponse, touched}

abbrev pub max_touch : ℕ
max_touch = 500

abbrev pub min_timestamp_seconds : ℕ
min_timestamp_seconds = 1

abbrev pub max_timestamp_seconds : ℕ
max_timestamp_seconds = 2147483647

-- A time that the column can hold, in seconds.
unfoldable pub storable : ℤ → Option ℕ
storable (negsuc k) = none
storable (pos k) =
    if ltb k min_timestamp_seconds || ltb max_timestamp_seconds k then none else some k

abbrev seen_seconds : Option Timestamp → Result Status ℕ
seen_seconds none = err (status Code.invalid_argument Detail.seen_at_required)
seen_seconds (some t) = elim (storable t.seconds) [
  | none ↦ err (status Code.invalid_argument (Detail.seen_at_range t.seconds))
  | some k ↦ ok k
]

-- The loop over the paths.
unfoldable pub validate_paths : List Text → Result Status Unit
validate_paths [] = ok tt
validate_paths (p ∷ ps) = Status.◌>>◌ (Path.validate "paths" p) (validate_paths ps)

unfoldable pub checked : TouchProjectsRequest → Result Status ℕ
unfolding scope_of storable validate_paths
checked req = Status.◌>>=◌ (scope_of req.scope) λ _. Status.◌>>=◌ (seen_seconds req.seen_at) λ at.
    Status.◌>>◌
      (refuse_unless (not (length req.paths == 0)) (status Code.invalid_argument Detail.no_paths))
      (Status.◌>>◌
        (refuse_unless (leb (length req.paths) max_touch)
          (status Code.invalid_argument (Detail.too_many_paths (length req.paths))))
        (Status.◌>>◌ (validate_paths req.paths) (ok at)))

-- `sort_by_key` on the folded path: stable, so of equal keys the earlier stays first.
unfoldable pub insert_by_key : Text → List Text → List Text
unfolding text_lt to_ascii_lowercase
insert_by_key p [] = p ∷ []
insert_by_key p (q ∷ qs) =
    if text_lt (to_ascii_lowercase q) (to_ascii_lowercase p)
    then q ∷ insert_by_key p qs
    else p ∷ q ∷ qs

unfoldable pub sort_by_key : List Text → List Text
unfolding insert_by_key
sort_by_key [] = []
sort_by_key (p ∷ ps) = insert_by_key p (sort_by_key ps)

-- `dedup_by`: an entry equal to the one kept before it goes.
unfoldable pub dedup_after : Text → List Text → List Text
unfolding eq_ignore_ascii_case
dedup_after kept [] = []
dedup_after kept (p ∷ ps) =
    let rest = dedup_after p ps in
    let same = dedup_after kept ps in if eq_ignore_ascii_case p kept then same else p ∷ rest

unfoldable pub dedup : List Text → List Text
unfolding dedup_after
dedup [] = []
dedup (p ∷ ps) = p ∷ dedup_after p ps

unfoldable pub deduplicated : List Text → List Text
unfolding sort_by_key dedup
deduplicated paths = dedup (sort_by_key paths)

-- The rows that the paths name, live or through an alias.
unfoldable pub is_matched : List Text → List Alias → Project → Bool
unfolding ci_eq text_eq
is_matched paths aliases r =
    any (ci_eq r.path) paths
    || any (λ (a : Alias). text_eq r.id a.project_id && any (ci_eq a.alias_path) paths) aliases

abbrev pub is_older : ℕ → Option ℕ → Bool
is_older at none = true
is_older at (some t) = ltb t at

-- UPDATE project SET last_seen_at = ?
unfoldable pub advance : List Text → ℕ → Store → Result EngineError (Unit × Store)
unfolding is_matched update_projects
advance paths at s =
    update_projects (λ r. is_matched paths s.aliases r && is_older at r.last_seen_at)
      (λ r. record r { last_seen_at = some at }) s

-- SELECT COUNT(*), whose value is only logged.
unfoldable pub count_matched : List Text → Store → ℕ
unfolding is_matched
count_matched paths s = length (project_db.Base.keep (is_matched paths s.aliases) s.projects)

module _ (o : Outside) where
  unfoldable pub body : List Text → ℕ → Tx Status (Ended TouchProjectsResponse)
  body paths at =
      execute o (λ _. advance paths at)
      >> (select o (count_matched paths) >>= λ matched. pure (committing touched))

module _ (o : Outside) (pool : Pool) where
  unfoldable pub touch :
      TouchProjectsRequest → Deadline → Store → Result Status TouchProjectsResponse × Store
  touch req deadline s = elim (checked req) [
    | err e ↦ (err e, s)
    | ok at ↦ elim (acquire pool deadline) [
      | err e ↦ (err e, s)
      | ok _ ↦ transact o (body o (deduplicated req.paths) at) s
    ]
  ]
