-- ===== src/Tests/Retry.antt =====
-- A registration retried.
use project_db.Base.{
  ℕ, suc, zero, Text, codes, text_eq, text_eq_refl, length, take, ◌≡◌, ◌≢◌, refl, ap, none, some,
  Option, List, [], ◌∷◌, ◌++◌, true,
}
use project_db.Status.{ok, err}
use project_db.Path
use project_db.Path.{
  Uuid, refuse_reserved_root, is_private_class, account_segment, is_under_own_root, strip_prefix,
}
use project_db.Sql.{Scope, scope_of}
use project_db.Store.{Store, insert_project, class_ok, at_path, has_id}
use project_db.Engine.{ci_eq}
use project_db.Pooled.{acquire, pool_acquire}
use project_db.Tx.{transact, settle, select, execute, statement, draw_uuid}
use project_db.Contract.{Meta, RegisterProjectRequest, RegisterProjectResponse}
use project_db.Idem.{Outcomes, present, claim, insert_write, put_response, has_key, record_outcome}
use project_db.Sync.Request.{is_caller}
use project_db.Register
use project_db.Register.{
  register_as, register, checked, class_of, body, payload, insert_new, alias_owner, meta_of,
  register_caller,
}
use project_db.Register.Holds.{IsSound, answer_of}
use project_db.Register.Replay.{register_as-replays}
use project_db.Register.Misused.{refusal, register_as-misused}
use project_db.Tests.Fixtures.{tables, apart, calm, ready, patient, seeder}

drop : ℕ → Text → Text
drop zero s = s
drop (suc n) [] = []
drop (suc n) (c ∷ s) = drop n s

take-length-append : (s t : Text) → take (length s) (s ++ t) ≡ s
take-length-append [] t = refl
take-length-append (c ∷ s) t = ap (λ u. c ∷ u) (take-length-append s t)

drop-length-append : (s t : Text) → drop (length s) (s ++ t) ≡ t
unfolding drop
drop-length-append [] t = refl
drop-length-append (c ∷ s) t = drop-length-append s t

-- Two lengths, then the id, the path and the actor.
abbrev flat : Option Meta → List ℕ
flat none = []
flat (some m) = length m.id ∷ length m.project_id ∷ (m.id ++ (m.project_id ++ m.created_by))

abbrev unflat : List ℕ → Option RegisterProjectResponse
unfolding drop
unflat [] = none
unflat (a ∷ []) = none
unflat (a ∷ b ∷ s) = some (answer_of (take a s) (take b (drop a s)) (drop b (drop a s)))

-- That codec, the identity for a digest, and keys compared byte for byte.
abbrev flat_codec : Outcomes RegisterProjectResponse
flat_codec = record {
  sha256 = λ bytes. bytes;
  encode = λ r. flat r.meta;
  decode = unflat;
  same = text_eq;
}

flat_codec-IsSound : IsSound flat_codec
unfolding drop meta_of
flat_codec-IsSound = record {
  round_trip = λ id path actor.
      rw
        (
          take-length-append id (path ++ actor),
          drop-length-append id (path ++ actor),
          take-length-append path actor,
          drop-length-append path actor,
        )
        refl;
  same_refl = text_eq_refl;
}

-- A parser that takes every text for a version 7 uuid in its own spelling.
abbrev trusting : Text → Option Uuid
trusting t = some (record { version_num = 7; is_rfc4122 = true; hyphenated = t })

abbrev draft : RegisterProjectRequest
draft = record {
  idempotency = some (record { key = codes "k1" });
  scope = some (record seeder { user_id = codes "yadgar:user:u7" });
  path = codes "local/u7/draft";
  display_name = codes "Draft";
  source_repo = [];
}

abbrev encoded : RegisterProjectRequest → List ℕ
encoded req = req.path

abbrev registered : Store
registered =
    (register_as calm flat_codec trusting encoded ready (some register_caller) draft patient
      tables).1

abbrev answer : RegisterProjectResponse
answer = answer_of (codes "yadgar:project:n") (codes "local/u7/draft") (codes "yadgar:user:u7")

registers :
    register_as calm flat_codec trusting encoded ready (some register_caller) draft patient tables
    ≡ (ok answer, registered)
unfolding register_as register Register.admit is_caller checked scope_of Path.validate
    refuse_reserved_root class_of is_private_class account_segment strip_prefix is_under_own_root
    text_eq acquire pool_acquire transact settle select execute statement draw_uuid body payload
    claim present insert_write has_key insert_new alias_owner insert_project class_ok at_path has_id
    meta_of record_outcome put_response ci_eq
registers = refl

key_present : present draft.idempotency ≡ some (codes "k1")
unfolding present
key_present = refl

served : acquire ready patient ≡ ok tt
unfolding acquire pool_acquire
served = refl

register_as-replays_example :
    register_as calm flat_codec trusting encoded ready
      (some register_caller)
      draft
      patient
      registered
    ≡ (ok answer, registered)
register_as-replays_example =
    register_as-replays calm calm flat_codec trusting encoded ready ready (some register_caller)
      draft patient patient tables registered (codes "k1") flat_codec-IsSound key_present registers
      served (λ n. refl)

-- Another path under the same key.
abbrev other_draft : RegisterProjectRequest
other_draft = record draft { path = codes "local/u7/other" }

abbrev u7 : Scope
u7 = record seeder { user_id = codes "yadgar:user:u7" }

abbrev private : Register.Class
private = record { owner_user_id = codes "yadgar:user:u7"; visibility = 1 }

draft_passes : checked trusting draft ≡ ok (u7, private)
unfolding checked scope_of Path.validate refuse_reserved_root class_of is_private_class
    account_segment strip_prefix is_under_own_root text_eq
draft_passes = refl

other_draft_passes : checked trusting other_draft ≡ ok (u7, private)
unfolding checked scope_of Path.validate refuse_reserved_root class_of is_private_class
    account_segment strip_prefix is_under_own_root text_eq
other_draft_passes = refl

drafts_differ : payload encoded draft ≢ payload encoded other_draft
unfolding payload text_eq
drafts_differ = apart (codes "local/u7/draft") (codes "local/u7/other") refl

register_as-misused_example :
    register_as calm flat_codec trusting encoded ready
      (some register_caller)
      other_draft
      patient
      registered
    ≡ (err refusal, registered)
register_as-misused_example =
    register_as-misused calm calm flat_codec trusting encoded ready ready (some register_caller)
      draft other_draft patient patient tables registered (codes "k1") u7 u7 private private
      flat_codec-IsSound key_present key_present draft_passes other_draft_passes refl refl
      drafts_differ registers served (λ n. refl)
