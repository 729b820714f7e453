-- ===== src/Service.antt =====
-- src/service.rs: the eight rpcs, each handed to its handler, and what telemetry is given of a call.
pub mod Payload
pub mod History
pub mod Grants
pub mod Gate
use Prim.Native.Nat.{◌%◌, ◌^◌}
use project_db.Base.{
  ℕ, ◌+◌, Text, codes, length, Bool, true, false, Option, none, some, List, [], ◌∷◌, ◌++◌,
}
use project_db.Status.{Code, Status, Result, ok, err}
use project_db.Numbers.{decimal}
use project_db.Path.{Uuid}
use project_db.Sql.{Scope, Observed, tel_scope, request_id_of}
use project_db.Store.{Store}
use project_db.Pooled.{Deadline, Pool}
use project_db.Session.{Session}
use project_db.Tx.{Outside}
use project_db.Contract.{
  Meta, ProtoProject, RegisterProjectRequest, RegisterProjectResponse, ResolveProjectRequest,
  ResolveProjectResponse, GetProjectRequest, GetProjectResponse, ListProjectsRequest,
  ListProjectsResponse, TouchProjectsRequest, TouchProjectsResponse, SyncProjectsRequest,
  SyncProjectsResponse, RenameProjectRequest, RenameProjectResponse, ArchiveProjectRequest,
  ArchiveProjectResponse,
}
use project_db.Idem.{Outcomes}
use project_db.Sync.Request.{recorded_scope}
use project_db.Sync.Apply.{sync_as}
use project_db.Read.Resolve.{resolve}
use project_db.Read.Projects.{get}
use project_db.Read.Pages.{list}
use project_db.Register.{register_as, rename, archive}
use project_db.Touch.{touch}

abbrev pub service : Text
service = codes "project-db"

-- The request of an rpc, and the response.
pub data Request : Type 0 where
  register_project : RegisterProjectRequest → Request
  resolve_project : ResolveProjectRequest → Request
  get_project : GetProjectRequest → Request
  list_projects : ListProjectsRequest → Request
  touch_projects : TouchProjectsRequest → Request
  sync_projects : SyncProjectsRequest → Request
  rename_project : RenameProjectRequest → Request
  archive_project : ArchiveProjectRequest → Request

pub data Response : Type 0 where
  registered : RegisterProjectResponse → Response
  resolved : ResolveProjectResponse → Response
  found : GetProjectResponse → Response
  listed : ListProjectsResponse → Response
  flushed : TouchProjectsResponse → Response
  synced : SyncProjectsResponse → Response
  renamed : RenameProjectResponse → Response
  archived : ArchiveProjectResponse → Response

-- A `Meta` and a `Project` as the payload carries them.
unfoldable pub meta_words : Option Meta → Text
meta_words none = []
meta_words (some m) = m.id ++ (codes " " ++ m.project_id)

abbrev pub id_or_empty : Option Meta → Text
id_or_empty none = []
id_or_empty (some m) = m.id

unfoldable pub project_words : ProtoProject → Text
project_words p = id_or_empty p.meta ++ (codes " " ++ p.path)

abbrev pub words_of : Option ProtoProject → Text
words_of none = []
words_of (some p) = project_words p

-- `.map(project_words)....join(" ")`
abbrev pub joined_words : List ProtoProject → Text
joined_words [] = []
joined_words (p ∷ []) = project_words p
joined_words (p ∷ q ∷ ps) = project_words p ++ (codes " " ++ joined_words (q ∷ ps))

-- `Display` of a `bool`.
abbrev pub bool_text : Bool → Text
bool_text true = codes "true"
bool_text false = codes "false"

unfoldable pub rendered : Response → Text
unfolding meta_words project_words decimal
rendered (registered r) = meta_words r.meta
rendered (renamed r) = meta_words r.meta
rendered (archived r) = meta_words r.meta
rendered (found r) = words_of r.project
rendered (listed r) = joined_words r.projects
rendered (resolved r) =
    r.resolved_path
    ++ (codes " exact="
        ++ (bool_text r.exact
            ++ (codes " via_alias="
                ++ (bool_text r.via_alias
                    ++ (codes " status=" ++ (decimal r.status ++ (codes " " ++ r.source_repo)))))))
rendered (synced r) =
    codes "inserted="
    ++ (decimal r.inserted
        ++ (codes " updated="
            ++ (decimal r.updated
                ++ (codes " archived="
                    ++ (decimal r.archived
                        ++ (codes " reactivated="
                            ++ (decimal r.reactivated
                                ++ (codes " unchanged=" ++ decimal r.unchanged))))))))
rendered (flushed r) = codes "TouchProjectsResponse"

-- `yadgar_telemetry::observe::Outcome`, the fields that depend on the call: its class is a constant.
pub record Outcome : Type 0 where
  pub status : Text
  pub payload : Text
  pub encoded_bytes : Option ℕ
  pub rows : ℕ

-- `prost` measures a message.
unfoldable pub envelope : (Response → ℕ) → Response → ℕ → Outcome
unfolding rendered
envelope encoded_len r rows = record {
  status = codes "OK";
  payload = rendered r;
  encoded_bytes = some (encoded_len r);
  rows = rows;
}

abbrev pub u32 : ℕ → ℕ
u32 n = n % 2 ^ 32

-- The row count, of the request and of its response.
unfoldable pub rows_of : Request → Response → ℕ
rows_of (touch_projects req) r = u32 (length req.paths)
rows_of q (listed r) = u32 (length r.projects)
rows_of q (synced r) = u32 (r.inserted + r.updated + r.archived + r.reactivated + r.unchanged)
rows_of q r = 1

pub data Kind : Type 0 where
  read write : Kind

-- `Call::start`
pub record Call : Type 0 where
  pub service : Text
  pub rpc : Text
  pub kind : Kind
  pub scope : Observed

-- A request as it arrives: the common name on the caller's certificate, the request id in its header,
-- and the time that is left.
pub record Incoming : Type 0 where
  pub caller : Option Text
  pub header : Option Text
  pub deadline : Deadline
  pub message : Request

abbrev pub call : Text → Kind → Observed → Call
call rpc kind scope = record { service = service; rpc = rpc; kind = kind; scope = scope }

abbrev pub started_for : Option Text → Text → Request → Call
started_for caller id (register_project q) =
    call (codes "RegisterProject") write (tel_scope q.scope id)
started_for caller id (resolve_project q) =
    call (codes "ResolveProject") read (tel_scope q.scope id)
started_for caller id (get_project q) = call (codes "GetProject") read (tel_scope q.scope id)
started_for caller id (list_projects q) = call (codes "ListProjects") read (tel_scope q.scope id)
started_for caller id (touch_projects q) = call (codes "TouchProjects") write (tel_scope q.scope id)
started_for caller id (sync_projects q) =
    call (codes "SyncProjects") write (recorded_scope caller q.scope id)
started_for caller id (rename_project q) = call (codes "RenameProject") write (tel_scope q.scope id)
started_for caller id (archive_project q) =
    call (codes "ArchiveProject") write (tel_scope q.scope id)

unfoldable pub started : Incoming → Call
unfolding request_id_of tel_scope recorded_scope
started i = started_for i.caller (request_id_of i.header) i.message

-- What a call meets: the engine, the snapshots of its reads, the pool.
pub record World : Type 0 where
  pub outside : Outside
  pub session : Session
  pub pool : Pool

-- What the process takes from elsewhere: SHA-256 and the codecs, and the uuid parser.
pub record Given : Type 0 where
  pub outcomes : Outcomes RegisterProjectResponse
  pub try_parse : Text → Option Uuid
  pub encode_request : RegisterProjectRequest → List ℕ

abbrev pub answered : {A : Type 0} → (A → Response) → Result Status A → Result Status Response
answered f (ok a) = ok (f a)
answered f (err e) = err e

-- The answer of a handler that writes, as the response.
abbrev pub written :
    {A : Type 0} → (A → Response) → Result Status A × Store → Result Status Response × Store
written f r = (answered f r.0, r.1)

-- The rpc's own handler.
unfoldable pub handle :
    Given → World → Option Text → Deadline → Request → Store → Result Status Response × Store
unfolding register_as resolve get list touch sync_as rename archive
handle g w caller deadline (register_project q) s =
    written registered
      (register_as w.outside g.outcomes g.try_parse g.encode_request w.pool caller q deadline s)
handle g w caller deadline (resolve_project q) s =
    (answered resolved (resolve w.session w.pool q deadline), s)
handle g w caller deadline (get_project q) s = (answered found (get w.session w.pool q deadline), s)
handle g w caller deadline (list_projects q) s =
    (answered listed (list w.session w.pool q deadline), s)
handle g w caller deadline (touch_projects q) s =
    written flushed (touch w.outside w.pool q deadline s)
handle g w caller deadline (sync_projects q) s =
    written synced (sync_as w.outside w.pool caller q deadline s)
handle g w caller deadline (rename_project q) s = written renamed (rename q s)
handle g w caller deadline (archive_project q) s = written archived (archive q s)

-- `Call::run` of the telemetry crate: it is given the handler's answer, what to record of a response
-- and the name of a status, and gives the answer on.
pub record Telemetry : Type 1 where
  pub Record : Type 0
  pub status_name : Code → Text
  pub run :
      Call
      → Result Status Response
      → (Response → Outcome)
      → (Code → Text)
      → Result Status Response × Record

module _ (g : Given) (t : Telemetry) (encoded_len : Response → ℕ) where
  unfoldable pub serve : World → Incoming → Store → (Result Status Response × t.Record) × Store
  unfolding started handle envelope rows_of
  serve w i s =
      let (answer, after) = handle g w i.caller i.deadline i.message s in
      (
        t.run (started i) answer (λ r. envelope encoded_len r (rows_of i.message r)) t.status_name,
        after,
      )
