-- ===== src/Service/History.antt =====
-- What holds of the tables over any history of calls to the service.
use project_db.Base.{
  ℕ, Text, ◌≡◌, refl, sym, ap, subst, ◌⊎◌, inl, inr, true, Option, some, List, In, arith,
}
use project_db.Status.{Status, Result, ok, err, Result-cases}
use project_db.Store.{Store, Project}
use project_db.Store.Valid.{IsValid, update_projects-IsValid}
use project_db.Pooled.{Deadline, Pool, acquire}
use project_db.Tx.{Outside}
use project_db.Tx.Atomic.{transact-err}
use project_db.Contract.{TouchProjectsRequest}
use project_db.Sync.Keeps.{SameIdentity}
use project_db.Sync.Invariant.{
  sync_as-IsValid, sync_as-Survives, Survives, SameIdentity-refl, SameIdentity-trans,
}
use project_db.Sync.Outcome.{sync_as-err}
use project_db.Register.{rename, archive}
use project_db.Register.Invariant.{register_as-IsValid, register_as-Extends}
use project_db.Register.Replay.{register_as-err}
use project_db.Touch.{touch, checked, deduplicated, advance, body}
use project_db.Touch.Forward.{touch-keeps, touch-Forward}
use project_db.Service.{
  Request, register_project, resolve_project, get_project, list_projects, touch_projects,
  sync_projects, rename_project, archive_project, Response, World, Given, Telemetry, Incoming,
  written, handle, serve,
}

advance-IsValid :
    (paths : List Text) (at : ℕ) (t u : Store)
    → advance paths at t ≡ ok (tt, u)
    → IsValid t
    → IsValid u
unfolding advance
advance-IsValid paths at t u h =
    update_projects-IsValid _ (λ r. record r { last_seen_at = some at }) (λ r. refl) (λ r. refl) h

touch-IsValid :
    (o : Outside) (pool : Pool) (req : TouchProjectsRequest) (deadline : Deadline) (s : Store)
    → IsValid s
    → IsValid (touch o pool req deadline s).1
touch-IsValid o pool req deadline s =
    touch-keeps o pool req deadline s λ paths at now t u a h. advance-IsValid paths at t u h

touch-err :
    (o : Outside) (pool : Pool) (req : TouchProjectsRequest) (deadline : Deadline) (s : Store)
    {e : Status} {t : Store}
    → touch o pool req deadline s ≡ (err e, t)
    → (t ≡ s) ⊎ (o.commit_lands ≡ true)
unfolding touch
touch-err o pool req deadline s h = elim (Result-cases (checked req)) [
  | inr (e, c) ↦ inl (sym (ap (λ p. p.1) (rw (c, touch) at h)))
  | inl (at, c) ↦ elim (Result-cases (acquire pool deadline)) [
    | inr (e, a) ↦ inl (sym (ap (λ p. p.1) (rw (c, touch, a) at h)))
    | inl (_, a) ↦ transact-err o (body o (deduplicated req.paths) at) s (rw (c, touch, a) at h)
  ]
]

touch-Survives :
    (o : Outside) (pool : Pool) (req : TouchProjectsRequest) (deadline : Deadline) (s : Store)
    (r : Project)
    → In r s.projects
    → Survives r (touch o pool req deadline s).1
touch-Survives o pool req deadline s r m =
    let (q, n, a) = (touch-Forward o pool req deadline s).kept r m in
    (
      q,
      n,
      subst (SameIdentity r) (sym a.same) (record {
        id = refl;
        path = refl;
        owner = refl;
        created_by = refl;
        created_at = refl;
        version = omega arith;
      }),
    )

module _ (g : Given) (w : World) (caller : Option Text) (deadline : Deadline) where
  pub handle-IsValid :
      (q : Request) (s : Store) → IsValid s → IsValid (handle g w caller deadline q s).1
  unfolding handle rename archive
  handle-IsValid (register_project q) s v =
      register_as-IsValid w.outside g.outcomes g.try_parse g.encode_request w.pool caller q deadline
        s v
  handle-IsValid (resolve_project q) s v = v
  handle-IsValid (get_project q) s v = v
  handle-IsValid (list_projects q) s v = v
  handle-IsValid (touch_projects q) s v = touch-IsValid w.outside w.pool q deadline s v
  handle-IsValid (sync_projects q) s v = sync_as-IsValid w.outside w.pool caller q deadline s v
  handle-IsValid (rename_project q) s v = v
  handle-IsValid (archive_project q) s v = v

  pub handle-Survives :
      (q : Request) (s : Store) (r : Project)
      → In r s.projects
      → Survives r (handle g w caller deadline q s).1
  unfolding handle rename archive
  handle-Survives (register_project q) s r m = (
    r,
    (register_as-Extends w.outside g.outcomes g.try_parse g.encode_request w.pool caller q deadline
          s).kept
        r m,
    SameIdentity-refl r,
  )
  handle-Survives (resolve_project q) s r m = (r, m, SameIdentity-refl r)
  handle-Survives (get_project q) s r m = (r, m, SameIdentity-refl r)
  handle-Survives (list_projects q) s r m = (r, m, SameIdentity-refl r)
  handle-Survives (touch_projects q) s r m = touch-Survives w.outside w.pool q deadline s r m
  handle-Survives (sync_projects q) s r m =
      sync_as-Survives w.outside w.pool caller q deadline s r m
  handle-Survives (rename_project q) s r m = (r, m, SameIdentity-refl r)
  handle-Survives (archive_project q) s r m = (r, m, SameIdentity-refl r)

answered-err :
    {A : Type 0} (f : A → Response) (r : Result Status A × Store) {e : Status} {t : Store}
    → written f r ≡ (err e, t)
    → r ≡ (err e, t)
answered-err f (ok a, s) h = absurd (not_err (ap (λ p. p.0) h))
  where
    not_err : {A : Type 0} {a : A} {e : Status} → ◌≡◌ {A = Result Status A} (ok a) (err e) → ⊥
    not_err h = cc
answered-err {A} f (err x, s) h =
    ap (λ (p : Result Status A × Store). p) (pair (ap (λ p. p.0) h) (ap (λ p. p.1) h))
  where
    pair :
        {e : Status} {t : Store}
        → ◌≡◌ {A = Result Status Response} (err x) (err e)
        → s ≡ t
        → ◌≡◌ {A = Result Status A × Store} (err x, s) (err e, t)
    pair h k = cc

-- A call of any rpc that is answered with an error has left every table as it was, unless the engine
-- took a commit that it did not acknowledge.
pub handle-err :
    (g : Given) (w : World) (caller : Option Text) (deadline : Deadline) (q : Request) (s t : Store)
    {e : Status}
    → handle g w caller deadline q s ≡ (err e, t)
    → (t ≡ s) ⊎ (w.outside.commit_lands ≡ true)
unfolding handle rename archive
handle-err g w caller deadline (register_project q) s t h =
    register_as-err w.outside g.outcomes g.try_parse g.encode_request w.pool caller q deadline s t
      (answered-err _ _ h)
handle-err g w caller deadline (resolve_project q) s t h = inl (sym (ap (λ p. p.1) h))
handle-err g w caller deadline (get_project q) s t h = inl (sym (ap (λ p. p.1) h))
handle-err g w caller deadline (list_projects q) s t h = inl (sym (ap (λ p. p.1) h))
handle-err g w caller deadline (touch_projects q) s t h =
    touch-err w.outside w.pool q deadline s (answered-err _ _ h)
handle-err g w caller deadline (sync_projects q) s t h =
    sync_as-err w.outside w.pool caller q deadline s t (answered-err _ _ h)
handle-err g w caller deadline (rename_project q) s t h = inl (sym (ap (λ p. p.1) h))
handle-err g w caller deadline (archive_project q) s t h = inl (sym (ap (λ p. p.1) h))

module _ (g : Given) (t : Telemetry) (encoded_len : Response → ℕ) where
  abbrev after : World → Incoming → Store → Store
  after w i s = (serve g t encoded_len w i s).1

  -- The tables after any number of calls, each in a world of its own.
  pub data History (s : Store) : Store → Type 0 where
    start : History s s
    next : {u : Store} (w : World) (i : Incoming) → History s u → History s (after w i u)

  pub serve-store :
      (w : World) (i : Incoming) (s : Store)
      → after w i s ≡ (handle g w i.caller i.deadline i.message s).1
  unfolding serve
  serve-store w i s = refl

  -- Whatever calls are made, in whatever order, by whomever, and whatever the engine, the pool and the
  -- clock do in each: valid tables stay valid, and a row that once stood stands with its id, path,
  -- owner, creator and creation time, at a version that is not lower.
  pub History-lasts :
      {s u : Store}
      → History s u
      → IsValid s
      → IsValid u × ((r : Project) → In r s.projects → Survives r u)
  History-lasts start v = (v, λ r m. (r, m, SameIdentity-refl r))
  History-lasts (next {u} w i h) v =
      let (valid, stand) = History-lasts h v in
      let e = serve-store w i u in
      (
        subst IsValid (sym e) (handle-IsValid g w i.caller i.deadline i.message u valid),
        λ r m.
            let (q, n, same) = stand r m in
            let (p, k, also) = handle-Survives g w i.caller i.deadline i.message u q n in
            subst (Survives r) (sym e) (p, k, SameIdentity-trans same also),
      )
