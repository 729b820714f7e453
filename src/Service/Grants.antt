-- ===== src/Service/Grants.antt =====
-- The keys of the grants over any history of calls to the service.
use project_db.Base.{ℕ, Text, ◌≡◌, refl, sym, subst, Option, some, List, In}
use project_db.Status.{ok}
use project_db.Store.{Store}
use project_db.Store.Granted.{
  IsGranted, IsGranted-same_grants, insert_project-IsGranted, update_projects-IsGranted,
  delete_grant-IsGranted, update_grant-IsGranted, insert_grant-IsGranted,
}
use project_db.Pooled.{Deadline}
use project_db.Contract.{RegisterProjectResponse}
use project_db.Idem.{Outcomes}
use project_db.Sync.Keeps.{SyncSafe, sync_as-keeps}
use project_db.Register.{rename, archive}
use project_db.Register.Keeps.{RegisterSafe, register_as-keeps}
use project_db.Register.Invariant.{insert_write-same, fetch_write-same, put_response-same}
use project_db.Touch.{advance}
use project_db.Touch.Forward.{touch-keeps}
use project_db.Service.{
  Request, register_project, resolve_project, get_project, list_projects, touch_projects,
  sync_projects, rename_project, archive_project, Response, World, Given, Telemetry, handle,
}
use project_db.Service.History.{History, start, next, serve-store}

IsGranted-safe : SyncSafe IsGranted
IsGranted-safe = record {
  rows = record {
    inserts = λ row now s t a h. insert_project-IsGranted (row now) h;
    updates = λ p f same now s t a h. update_projects-IsGranted p (f now) (λ r. (same now r).id) h;
  };
  grants = record {
    deletes = λ p t now s s' a h. delete_grant-IsGranted p t s s' h;
    updates = λ p t l now s s' a h. update_grant-IsGranted p t l s s' h;
    inserts = λ p t l now s s' a h. insert_grant-IsGranted p t l s s' h;
  };
}

-- A statement on `project_write` leaves the rows and the grants alone.
same-IsGranted :
    (s t : Store) → t.projects ≡ s.projects → t.grants ≡ s.grants → IsGranted s → IsGranted t
same-IsGranted s t e k v = IsGranted-same_grants k (λ r m. (r, subst (In r) (sym e) m, refl)) v

IsGranted-RegisterSafe :
    (x : Outcomes RegisterProjectResponse) → RegisterSafe x IsGranted (λ _. Unit)
IsGranted-RegisterSafe x = record {
  claims = λ w now s t a h. let (e, k) = insert_write-same x w s t a h in same-IsGranted s t e k;
  reads = λ p u k now s t a h v. subst IsGranted (sym (fetch_write-same x p u k s t a h)) v;
  records = λ p u k bytes now s t a h.
      let (e, f) = put_response-same x p u k bytes s t a h in same-IsGranted s t e f;
  inserts = λ row mine now s t a h. insert_project-IsGranted (row now) h;
}

advance-IsGranted :
    (paths : List Text) (at : ℕ) (t u : Store)
    → advance paths at t ≡ ok (tt, u)
    → IsGranted t
    → IsGranted u
unfolding advance
advance-IsGranted paths at t u h =
    update_projects-IsGranted _ (λ r. record r { last_seen_at = some at }) (λ r. refl) h

handle-IsGranted :
    (g : Given) (w : World) (caller : Option Text) (deadline : Deadline) (q : Request) (s : Store)
    → IsGranted s
    → IsGranted (handle g w caller deadline q s).1
unfolding handle rename archive
handle-IsGranted g w caller deadline (register_project q) s v =
    register_as-keeps (IsGranted-RegisterSafe g.outcomes) w.outside g.try_parse g.encode_request
      w.pool caller q deadline s (λ scope class h id now. tt) v
handle-IsGranted g w caller deadline (resolve_project q) s v = v
handle-IsGranted g w caller deadline (get_project q) s v = v
handle-IsGranted g w caller deadline (list_projects q) s v = v
handle-IsGranted g w caller deadline (touch_projects q) s v =
    touch-keeps w.outside w.pool q deadline s
      (λ paths at now t u a h. advance-IsGranted paths at t u h) v
handle-IsGranted g w caller deadline (sync_projects q) s v =
    sync_as-keeps IsGranted-safe w.outside w.pool caller q deadline s v
handle-IsGranted g w caller deadline (rename_project q) s v = v
handle-IsGranted g w caller deadline (archive_project q) s v = v

-- Whatever calls are made, and whatever the engine does in each: if every grant is on a stored row
-- and no team has two grants on one row, so it stays.
pub History-IsGranted :
    (g : Given) (t : Telemetry) (encoded_len : Response → ℕ) {s u : Store}
    → History g t encoded_len s u
    → IsGranted s
    → IsGranted u
History-IsGranted g t encoded_len start v = v
History-IsGranted g t encoded_len (next {u} w i h) v =
    subst IsGranted (sym (serve-store g t encoded_len w i u))
      (handle-IsGranted g w i.caller i.deadline i.message u (History-IsGranted g t encoded_len h v))
