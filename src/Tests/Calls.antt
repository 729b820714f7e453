-- ===== src/Tests/Calls.antt =====
-- Calls of the service on the sample tables.
use project_db.Base.{
  ℕ, Text, codes, text_eq, ◌≡◌, ◌≢◌, refl, sym, ap, ◌∙◌, ◌⊎◌, inl, inr, true, false, Option, none,
  some, List, [], ◌∷◌, In, length,
}
use project_db.Status.{Code, Detail, status, err}
use project_db.Store.{Store, Project}
use project_db.Store.Valid.{IsValid}
use project_db.Contract.{RenameProjectRequest}
use project_db.Sync.Invariant.{Survives}
use project_db.Register.{rename}
use project_db.Service.{
  Request, Response, registered, synced, sync_projects, rename_project, touch_projects, World,
  Given, Telemetry, Incoming, handle, serve, rendered,
}
use project_db.Service.History.{start, next, History-lasts, handle-err}
use project_db.Service.Gate.{refused, handle-refused}
use project_db.Tests.Fixtures.{
  tables, tables-IsValid, calm, calm_session, ready, patient, declaration, seeder,
}

abbrev written_by : Text → Response
written_by actor = registered (record {
  meta = some (record {
    id = codes "yadgar:project:n";
    version = 1;
    project_id = codes "local/u7/draft";
    owner_user_id = actor;
    team_id = [];
    visibility = 0;
    created_by = actor;
    updated_by = actor;
    created_at = none;
    updated_at = none;
    deleted_at = none;
    derived_from = [];
  });
})

-- What a sync's record says.
counts_rendered :
    rendered (
      synced (record {
        inserted = 0;
        updated = 12;
        archived = 1;
        reactivated = 0;
        unchanged = 305;
        grants_declared = 0;
        grants_inserted = 0;
        grants_deleted = 0;
        grants_unchanged = 0;
      }))
    ≡ codes "inserted=0 updated=12 archived=1 reactivated=0 unchanged=305"
unfolding rendered
counts_rendered = refl

abbrev pub calm_world : World
calm_world = record { outside = calm; session = calm_session; pool = ready }

abbrev pub given : Given
given = record {
  outcomes = record { sha256 = λ b. b; encode = λ r. []; decode = λ b. none; same = text_eq };
  try_parse = λ t. none;
  encode_request = λ q. [];
}

-- Telemetry that keeps nothing.
abbrev pub quiet : Telemetry
quiet = record {
  Record = Unit;
  status_name = λ c. [];
  run = λ call answer outcome name. (answer, tt);
}

abbrev pub arriving : Option Text → Request → Incoming
arriving caller q = record { caller = caller; header = none; deadline = patient; message = q }

abbrev pub flush : Request
flush = touch_projects (record {
  scope = some seeder;
  paths = codes "acme" ∷ [];
  seen_at =
      some (record { seconds = project_db.Base.Int.pos 50; nanos = project_db.Base.Int.pos 0 });
})

abbrev pub first : Incoming
first = arriving (some (codes "project-caller")) (sync_projects declaration)

abbrev pub second : Incoming
second = arriving none flush

abbrev last : Store
last =
    (serve given quiet (λ r. 0) calm_world second
      (serve given quiet (λ r. 0) calm_world first tables).1).1

History-lasts_example : IsValid last × ((r : Project) → In r tables.projects → Survives r last)
History-lasts_example =
    History-lasts given quiet (λ r. 0) (next calm_world second (next calm_world first start))
      tables-IsValid

abbrev renaming : RenameProjectRequest
renaming = record {
  idempotency = none;
  scope = none;
  from_path = codes "acme/web";
  to_path = codes "acme/site";
  expect_version = 3;
}

held_back :
    handle given calm_world none patient (rename_project renaming) tables
    ≡ (err (status Code.unimplemented Detail.held_back), tables)
unfolding handle rename
held_back = refl

handle-err_example : (◌≡◌ {A = Store} tables tables) ⊎ (calm.commit_lands ≡ true)
handle-err_example =
    handle-err given calm_world none patient (rename_project renaming) tables tables held_back

nobody : ◌≢◌ {A = Option Text} none (some (codes "project-caller"))
nobody h = cc

handle-refused_example :
    handle given calm_world none patient (sync_projects declaration) tables
    ≡ refused none tables (sync_projects declaration)
handle-refused_example =
    handle-refused given calm_world none patient (sync_projects declaration) tables nobody
      (inl (declaration, refl))
