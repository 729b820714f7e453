-- ===== src/Status.antt =====
-- `tonic::Status` as the handlers build it, and the results that carry one. The text of a message
-- is not modelled: `Detail` names the message and holds the values that it interpolates.
use project_db.Base.{ℕ, String, Text, Option, Bool, true, false, ◌≡◌, refl, ◌⊎◌, inl, inr}
use project_db.Base.Int.{ℤ}

pub data Code : Type 0 where
  invalid_argument permission_denied failed_precondition already_exists not_found : Code
  unavailable aborted deadline_exceeded unimplemented internal : Code

pub data Detail : Type 0 where
  -- path.rs
  required : String → Detail
  too_long : String → ℕ → Detail
  edge_slash : String → Text → Detail
  illegal_segment : String → Text → Text → Detail
  reserved : String → Text → Detail
  -- sql.rs, pooled.rs
  scope_required : Detail
  pool_exhausted not_serialised storage_error no_connection_in_time : Detail
  -- write/sync.rs, write/grants.rs
  wrong_caller : String → Option Text → Detail
  seeder_scope_required : Detail
  principal_width : ℕ → Detail
  no_roots : Detail
  deep_root not_under_root declared_twice no_source_repo alias_path : Text → Detail
  private_path : String → Text → Detail
  wide_field : String → Text → ℕ → Detail
  mass_archive mass_revoke : ℕ → ℕ → Detail
  bad_level : Text → Text → ℤ → Detail
  bad_team_id granted_twice : Text → Text → Detail
  no_row_id : Text → Detail
  -- write/register.rs, idem.rs, write.rs
  wide_display_name : ℕ → Detail
  org_path owned_source_repo already_registered : Text → Detail
  no_account_segment : Detail
  foreign_root former_path : Text → Text → Detail
  key_of_other_operation key_of_other_request : Detail
  held_back no_per_row_archive : Detail
  -- read.rs
  nothing_registered no_project : Text → Detail
  unspecified_status : Detail
  not_a_status : ℤ → Detail
  -- write/touch.rs
  seen_at_required : Detail
  seen_at_range : ℤ → Detail
  no_paths : Detail
  too_many_paths : ℕ → Detail

pub record Status : Type 0 where
  pub code : Code
  pub detail : Detail

abbrev pub status : Code → Detail → Status
status c d = record { code = c; detail = d }

-- `Result<A, E>`.
pub data Result {ℓ} (E : Type ℓ) (A : Type ℓ) : Type ℓ where
  ok : A → Result E A
  err : E → Result E A

-- `?`: the first error ends the chain.
infixl 5 ◌>>=◌
abbrev pub ◌>>=◌ {ℓ} :
    {Err From To : Type ℓ} → Result Err From → (From → Result Err To) → Result Err To
err e >>= _ = err e
ok value >>= next = next value

-- A step whose value is dropped.
infixl 5 ◌>>◌
abbrev pub ◌>>◌ {ℓ} : {Err To : Type ℓ} → Result Err (Unit {ℓ}) → Result Err To → Result Err To
first >> next = first >>= (λ unused. next)

abbrev pub map_err {ℓ} : {E F A : Type ℓ} → (E → F) → Result E A → Result F A
map_err f (ok a) = ok a
map_err f (err e) = err (f e)

-- `if ok { Ok(()) } else { Err(status) }`
abbrev pub refuse_unless : Bool → Status → Result Status (Unit {0})
refuse_unless true s = ok tt
refuse_unless false s = err s

pub Result-cases {ℓ} :
    {E A : Type ℓ} (r : Result E A) → ((a : A) × (r ≡ ok a)) ⊎ ((e : E) × (r ≡ err e))
Result-cases (ok a) = inl (a, refl)
Result-cases (err e) = inr (e, refl)

-- What a chain of fallible steps returned, its first step returned.
pub >>=-eq-ok {ℓ} :
    {Err From To : Type ℓ} (first : Result Err From) (next : From → Result Err To) {last : To}
    → (first >>= next) ≡ ok last
    → (value : From) × (first ≡ ok value) × (next value ≡ ok last)
>>=-eq-ok (err e) next h = cc
>>=-eq-ok (ok value) next h = (value, refl, h)
