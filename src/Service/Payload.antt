-- ===== src/Service/Payload.antt =====
-- What the payload of a telemetry record can tell: `rendered` of src/service.rs.
use project_db.Base.{Option, none, some, [], map}
use project_db.Contract.{Meta, ProtoProject}
use project_db.Service.{
  Response, registered, resolved, found, listed, flushed, synced, renamed, archived,
}

-- A message without its user ids.
abbrev pub anonymous : Option Meta → Option Meta
anonymous none = none
anonymous (some m) = some (record m { owner_user_id = []; created_by = []; updated_by = [] })

abbrev pub anonymous_project : ProtoProject → ProtoProject
anonymous_project p = record p { meta = anonymous p.meta }

abbrev pub anonymous_option : Option ProtoProject → Option ProtoProject
anonymous_option none = none
anonymous_option (some p) = some (anonymous_project p)

unfoldable pub anonymised : Response → Response
anonymised (registered r) = registered (record r { meta = anonymous r.meta })
anonymised (renamed r) = renamed (record r { meta = anonymous r.meta })
anonymised (archived r) = archived (record r { meta = anonymous r.meta })
anonymised (found r) = found (record r { project = anonymous_option r.project })
anonymised (listed r) = listed (record r { projects = map anonymous_project r.projects })
anonymised (resolved r) = resolved r
anonymised (synced r) = synced r
anonymised (flushed r) = flushed r
