-- ===== src/Service/Gate.antt =====
-- The two rpcs that admit one caller: src/service.rs, src/write/sync.rs and src/write/register.rs.
use project_db.Base.{
  Text, codes, ◌≡◌, ◌≢◌, refl, ap, ◌⊎◌, inl, inr, false, text_eq, text_eq_iff, Bool-cases, Option,
  none, some,
}
use project_db.Status.{Code, Detail, Status, status, Result, err}
use project_db.Store.{Store}
use project_db.Pooled.{Deadline}
use project_db.Contract.{SyncProjectsRequest, RegisterProjectRequest}
use project_db.Sync.Request.{is_caller, sync_caller, admitted}
use project_db.Sync
use project_db.Sync.Apply.{sync_as, checked}
use project_db.Register
use project_db.Register.{register_as, register_caller}
use project_db.Service.{
  Request, sync_projects, register_project, Response, Given, World, written, synced, registered,
  handle,
}

other_caller :
    (caller : Option Text) (name : Text) → caller ≢ some name → is_caller caller name ≡ false
unfolding is_caller
other_caller none name h = refl
other_caller (some c) name h = elim (Bool-cases (text_eq c name)) [
  | inl same ↦ absurd (h (ap some ((text_eq_iff c name).0 same)))
  | inr other ↦ other
]

-- The refusal, before a connection is taken and with the tables as they were.
abbrev pub refused : Option Text → Store → Request → Result Status Response × Store
refused caller s (sync_projects q) =
    (err (status Code.permission_denied (Detail.wrong_caller "SyncProjects" caller)), s)
refused caller s q =
    (err (status Code.permission_denied (Detail.wrong_caller "RegisterProject" caller)), s)

checked-refused :
    (caller : Option Text) (req : SyncProjectsRequest)
    → is_caller caller sync_caller ≡ false
    → checked caller req
      ≡ err (status Code.permission_denied (Detail.wrong_caller "SyncProjects" caller))
unfolding checked admitted Sync.Request.admit
checked-refused caller req h = rw h

sync_as-refused :
    (w : World) (caller : Option Text) (deadline : Deadline) (req : SyncProjectsRequest) (s : Store)
    → is_caller caller sync_caller ≡ false
    → sync_as w.outside w.pool caller req deadline s
      ≡ (err (status Code.permission_denied (Detail.wrong_caller "SyncProjects" caller)), s)
unfolding sync_as
sync_as-refused w caller deadline req s h = rw (checked-refused caller req h, sync_as)

register_as-refused :
    (g : Given) (w : World) (caller : Option Text) (deadline : Deadline)
    (req : RegisterProjectRequest) (s : Store)
    → is_caller caller register_caller ≡ false
    → register_as w.outside g.outcomes g.try_parse g.encode_request w.pool caller req deadline s
      ≡ (err (status Code.permission_denied (Detail.wrong_caller "RegisterProject" caller)), s)
unfolding register_as Register.admit
register_as-refused g w caller deadline req s h = rw (h, register_as)

-- A sync or a registration, whatever it asks for, by a caller without a certificate or with another
-- common name than `project-caller` is refused for its caller and changes nothing.
pub handle-refused :
    (g : Given) (w : World) (caller : Option Text) (deadline : Deadline) (q : Request) (s : Store)
    → caller ≢ some (codes "project-caller")
    → ((sync : SyncProjectsRequest) × (q ≡ sync_projects sync))
      ⊎ ((register : RegisterProjectRequest) × (q ≡ register_project register))
    → handle g w caller deadline q s ≡ refused caller s q
unfolding handle
handle-refused g w caller deadline q s other gated =
    let no_name = other_caller caller (codes "project-caller") other in
    elim gated [
      | inl (sync, e) ↦
          rw e (ap (written synced) (sync_as-refused w caller deadline sync s no_name))
      | inr (register, e) ↦
          rw e
            (ap (written registered) (register_as-refused g w caller deadline register s no_name))
    ]
