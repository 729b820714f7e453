-- ===== src/Grants.antt =====
-- src/write/grants.rs: a declared row's grants validated, the writes planned against the stored
-- grants, the guard on mass revocation, and the writes.
pub mod Keeps
pub mod Exact
pub mod Planned
pub mod Changes
pub mod Written
pub mod Levels
pub mod Joined
use project_db.Base.{
  ℕ, suc, ◌*◌, Text, codes, text_eq, length, to_ascii_lowercase, Bool, false, ◌&&◌, ◌||◌, not,
  Option, none, some, List, [], ◌∷◌, ◌++◌, any, all, find_last, keep, leb, ◌==◌, if◌then◌else◌,
}
use project_db.Base.Int.{ℤ, pos, negsuc}
use project_db.Status.{Code, Detail, Status, status, Result, ok, err}
use project_db.Status
use project_db.Path.{strip_prefix}
use project_db.Contract.{DeclaredGrant, DeclaredProject}
use project_db.Declared.{Declared}
use project_db.Store.{
  Store, Project, Grant, is_org, has_id, delete_grant, update_grant, insert_grant,
}
use project_db.Tx.{Outside, Tx, pure, raise, ◌>>◌, execute}

abbrev pub team_prefix : Text
team_prefix = codes "yadgar:team:"

abbrev pub max_team_name_chars : ℕ
max_team_name_chars = 63

abbrev pub is_lowercase : ℕ → Bool
is_lowercase c = leb b'a' c && leb c b'z'

abbrev pub is_team_char : ℕ → Bool
is_team_char c = is_lowercase c || leb b'0' c && leb c b'9' || c == b'-'

abbrev pub is_team_name : Text → Bool
is_team_name [] = false
is_team_name (c ∷ name) =
    is_lowercase c && (leb (length (c ∷ name)) max_team_name_chars && all is_team_char name)

unfoldable pub is_team_id : Text → Bool
unfolding strip_prefix
is_team_id id = elim (strip_prefix team_prefix id) [ none ↦ false | some name ↦ is_team_name name ]

-- `GrantLevel::try_from`, with the unspecified level refused: read is 1 and read-write is 2.
unfoldable pub known_level : ℤ → Option ℕ
known_level (pos k) = if k == 1 || k == 2 then some k else none
known_level (negsuc k) = none

-- The loop of `validate`, with the teams seen so far.
unfoldable pub validate_from :
    Text → List Text → List DeclaredGrant → Result Status (List (Text × ℕ))
unfolding is_team_id known_level text_eq
validate_from path seen [] = ok []
validate_from path seen (g ∷ gs) = elim (known_level g.level) [
  | none ↦ err (status Code.invalid_argument (Detail.bad_level g.team_id path g.level))
  | some level ↦
      if not (is_team_id g.team_id)
      then err (status Code.invalid_argument (Detail.bad_team_id path g.team_id))
      else if any (text_eq g.team_id) seen
      then err (status Code.invalid_argument (Detail.granted_twice path g.team_id))
      else Status.◌>>=◌ (validate_from path (g.team_id ∷ seen) gs)
          (λ out. ok ((g.team_id, level) ∷ out))
]

unfoldable pub validate : DeclaredProject → Result Status (List (Text × ℕ))
unfolding validate_from
validate d = validate_from d.path [] d.grants

-- A stored grant on an org row, with the path of its row.
pub record StoredGrant : Type 0 where
  pub project_id : Text
  pub path : Text
  pub team_id : Text
  pub level : ℕ

-- The rows of the join for one grant: the org rows with its project id.
abbrev pub joined_with : Grant → List Project → List StoredGrant
joined_with g [] = []
joined_with g (p ∷ ps) =
    if is_org p && has_id g.project_id p
    then record { project_id = g.project_id; path = p.path; team_id = g.team_id; level = g.level }
      ∷ joined_with g ps
    else joined_with g ps

abbrev pub join_grants : List Grant → List Project → List StoredGrant
join_grants [] ps = []
join_grants (g ∷ gs) ps = joined_with g ps ++ join_grants gs ps

unfoldable pub stored_of : Store → List StoredGrant
unfolding has_id
stored_of s = join_grants s.grants s.projects

pub record GrantPlan : Type 0 where
  pub inserts : List (Text × Text × ℕ)
  pub updates : List (Text × Text × ℕ)
  pub deletes : List (Text × Text)
  pub unchanged : ℕ

-- The declared pairs with their levels, keyed by the row's folded path and the team.
abbrev pub row_wants : Text → List (Text × ℕ) → List (Text × Text × ℕ)
row_wants key [] = []
row_wants key ((team, level) ∷ gs) = (key, team, level) ∷ row_wants key gs

abbrev pub wants : List Declared → List (Text × Text × ℕ)
wants [] = []
wants (d ∷ ds) = row_wants d.key d.grants ++ wants ds

unfoldable pub for_pair : Text → Text → Text × Text × ℕ → Bool
unfolding text_eq
for_pair key team (k, t, l) = text_eq k key && text_eq t team

-- `wanted.get`, where `wanted` is the map collected from the pairs.
unfoldable pub wanted : List (Text × Text × ℕ) → Text → Text → Option (Text × Text × ℕ)
unfolding for_pair
wanted ws key team = find_last (for_pair key team) ws

abbrev pub classify : Option (Text × Text × ℕ) → StoredGrant → GrantPlan → GrantPlan
classify none g p = record p { deletes = (g.project_id, g.team_id) ∷ p.deletes }
classify (some (k, t, level)) g p =
    if level == g.level
    then record p { unchanged = suc p.unchanged }
    else record p { updates = (g.project_id, g.team_id, level) ∷ p.updates }

abbrev pub empty_plan : GrantPlan
empty_plan = record { inserts = []; updates = []; deletes = []; unchanged = 0 }

-- The loop over the stored grants.
unfoldable pub plan_stored : List (Text × Text × ℕ) → List StoredGrant → GrantPlan
unfolding wanted to_ascii_lowercase
plan_stored ws [] = empty_plan
plan_stored ws (g ∷ gs) =
    classify (wanted ws (to_ascii_lowercase g.path) g.team_id) g (plan_stored ws gs)

-- `kept.contains`: the pair is stored.
unfoldable pub kept : List StoredGrant → Text → Text → Bool
unfolding text_eq to_ascii_lowercase
kept stored key team =
    any (λ g. text_eq (to_ascii_lowercase g.path) key && text_eq g.team_id team) stored

unfoldable pub plan : List Declared → List StoredGrant → GrantPlan
unfolding plan_stored kept
plan declared stored = record (plan_stored (wants declared) stored) {
  inserts = keep (λ w. not (kept stored w.0 w.1)) (wants declared);
}

unfoldable pub revoke_guard : ℕ → ℕ → Bool → Result Status Unit
revoke_guard deleting stored allowed =
    if allowed || leb (deleting * 2) stored
    then ok tt
    else err (status Code.failed_precondition (Detail.mass_revoke deleting stored))

-- `ids.get`: the last entry under a key.
unfoldable pub id_of : List (Text × Text) → Text → Option (Text × Text)
unfolding text_eq
id_of ids key = find_last (λ e. text_eq e.0 key) ids

module _ (o : Outside) where
  unfoldable pub write_deletes : List (Text × Text) → Tx Status Unit
  write_deletes [] = pure tt
  write_deletes ((project, team) ∷ ds) =
      execute o (λ _. delete_grant project team) >> write_deletes ds

  unfoldable pub write_updates : List (Text × Text × ℕ) → Tx Status Unit
  write_updates [] = pure tt
  write_updates ((project, team, level) ∷ us) =
      execute o (λ _. update_grant project team level) >> write_updates us

  unfoldable pub write_inserts : List (Text × Text) → List (Text × Text × ℕ) → Tx Status Unit
  unfolding id_of
  write_inserts ids [] = pure tt
  write_inserts ids ((key, team, level) ∷ is) = elim (id_of ids key) [
    | none ↦ raise (status Code.internal (Detail.no_row_id key))
    | some (k, project) ↦ execute o (λ _. insert_grant project team level) >> write_inserts ids is
  ]

  unfoldable pub write : GrantPlan → List (Text × Text) → Tx Status Unit
  unfolding write_deletes write_updates write_inserts
  write p ids = do write_deletes p.deletes; write_updates p.updates; write_inserts ids p.inserts
