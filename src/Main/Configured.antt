-- ===== src/Main/Configured.antt =====
-- What the boot in src/main.rs has read of its configuration by the time of each of its steps.
use project_db.Base.{Text, codes, ◌≡◌, refl, Option, [], In, All, All-In}
use project_db.Status.{Result, ok, err}
use project_db.Boot
use project_db.Main.{
  Libraries, Event, read_secret, hashed, connected, satisfied, closed, pooled, migrated, exporter,
  exported_not_after, armed, listening, Refusal, boot, missing, library, address, Boot, ◌>>=◌, try,
  note, ended, required, serve, probe, migrate, run,
}
use project_db.Main
use project_db.Main.Sequence.{All-append}

module _ (l : Libraries) where
  done :
      {E A B : Type 0} (e : Event l) (why : E → Refusal l) (r : Result E A) (f : A → Boot l B)
      → In e (Main.◌>>=◌ l (try l why r) f).1
      → (a : A) × (r ≡ ok a) × In e (f a).1
  unfolding ◌>>=◌ try
  done e why (ok a) f m = (a, refl, m)
  done e why (err x) f m = absurd m

  -- The variable is set, and its text is the address.
  abbrev pub IsAddress : Boot.Env → Text → l.Addr → Type 0
  IsAddress env key addr =
      (value : Text) × (Boot.env_required env key ≡ ok value)
      × (Boot.parse_listen_addr l.parse_addr key value ≡ ok addr)

  abbrev pub HasSchedule : Type 0
  HasSchedule = (schedule : l.Schedule) × (l.schedule l.mounted ≡ ok schedule)

  -- What is read after the secret, by the time of a step: the schedule before the engine is reached,
  -- and each address before it is served on.
  abbrev pub IsReadBy : Boot.Env → Event l → Type 0
  IsReadBy env (read_secret p) = Unit
  IsReadBy env (hashed i) = Unit
  IsReadBy env (exporter addr r) = HasSchedule × IsAddress env (codes "METRICS_LISTEN") addr
  IsReadBy env (listening addr) = HasSchedule × IsAddress env Boot.listen addr
  IsReadBy env _ = HasSchedule

  abbrev Every : {A : Type 0} → Boot.Env → Boot l A → Type 0
  Every env m = All (IsReadBy env) m.1

  module _ (env : Boot.Env) where
    step-Every :
        {B : Type 0} (e : Event l) (f : Unit → Boot l B)
        → IsReadBy env e
        → Every env (f tt)
        → Every env (Main.◌>>=◌ l (note l e) f)
    unfolding ◌>>=◌ note
    step-Every e f p k = (p, k)

    try-Every :
        {E A B : Type 0} (why : E → Refusal l) (r : Result E A) (f : A → Boot l B)
        → ((a : A) → r ≡ ok a → Every env (f a))
        → Every env (Main.◌>>=◌ l (try l why r) f)
    unfolding ◌>>=◌ try
    try-Every why (ok a) f k = k a refl
    try-Every why (err e) f k = tt

    bind-Every :
        {A B : Type 0} (m : Boot l A) (f : A → Boot l B)
        → Every env m
        → ((a : A) → Every env (f a))
        → Every env (Main.◌>>=◌ l m f)
    unfolding ◌>>=◌
    bind-Every (ok a, es) f h k = All-append (IsReadBy env) es (f a).1 h (k a)
    bind-Every (err e, es) f h k = All-append (IsReadBy env) es [] h tt

    ended-Every : (addr : l.Addr) (d : Main.Drain l.Error) → Every env (ended l addr d)
    unfolding try
    ended-Every addr (Main.finished r) = tt
    ended-Every addr Main.overran = tt

    module _ (read : HasSchedule) where
      serve-Every : (server : l.Server) (opened : l.Pool) → Every env (serve l env server opened)
      unfolding serve
      serve-Every server opened = try-Every missing _ _ λ metrics m. try-Every address _ _ λ at a.
          step-Every (exporter at (l.install_prometheus at)) _ (read, (metrics, m, a))
            (step-Every exported_not_after _ read (
              try-Every missing _ _ λ value v. try-Every address _ _ λ addr b.
                try-Every boot (Main.shutdown l) _ λ _ _. step-Every armed _ read (
                  step-Every (listening addr) _ (read, (value, v, b))
                    (ended-Every addr (l.drain server opened addr)))))

      probe-Every :
          (config : Boot.PoolConfig l.Mode) (credential : l.Secret)
          → Every env (probe l config credential)
      unfolding probe note
      probe-Every config credential = try-Every boot _ _ λ options _.
          try-Every library _ _ λ conn _. step-Every (connected options) _ read (
            try-Every library _ _ λ report _.
              try-Every library _ _ λ _ _.
                step-Every (satisfied report) _ read (try-Every library _ _ λ _ _. (read, tt)))

      migrate-Every :
          (config : Boot.PoolConfig l.Mode) (credential : l.Secret) (lock : l.Lock)
          → Every env (migrate l config credential lock)
      unfolding migrate
      migrate-Every config credential lock = try-Every library _ _ λ opened _.
          step-Every pooled _ read (
            try-Every library _ _
              λ set _. try-Every library _ _ λ applied _. step-Every (migrated applied) _ read tt)

    run-Every : Every env (run l env)
    unfolding run
    run-Every = try-Every boot _ _ λ config _. try-Every boot _ _ λ lock _.
        try-Every boot _ _ λ tls _. try-Every boot _ _ λ limits _. try-Every boot _ _ λ server _.
          try-Every missing _ _ λ password _. try-Every library _ _ λ credential _.
            step-Every (read_secret password) _ tt (
              step-Every (hashed (Main.watch_set l tls password config.ssl_ca l.mounted)) _ tt (
                try-Every library _ _ λ schedule s.
                  let read : HasSchedule = (schedule, s) in
                  bind-Every (probe l config credential) _ (probe-Every read config credential) λ _.
                    bind-Every (migrate l config credential lock) _
                      (migrate-Every read config credential lock)
                      λ opened. serve-Every read server opened))

  -- A boot that has done anything has read and accepted what `run` reads ahead of the secret: the
  -- pool's knobs, the migration lock's, the listener's transport and limits, the server that they
  -- build, and the path of the password. By the time that it reaches the engine it has the rotation
  -- schedule too; when it installs the exporter, on an address that it read from `METRICS_LISTEN`; and
  -- when it listens, on an address that it read from `LISTEN`.
  pub run-Configured :
      (env : Boot.Env) (e : Event l)
      → In e (run l env).1
      → (config : Boot.PoolConfig l.Mode) × (lock : l.Lock) × (tls : Option l.ServerTls)
        × (limits : l.Limits) × (server : l.Server) × (password : Text) × (Boot.pool_config l.widths
              l.parse_ssl_mode env
            ≡ ok config)
        × (Boot.migration_lock l.lock_options env ≡ ok lock)
        × (Main.listener l env ≡ ok tls)
        × (Main.limits l env ≡ ok limits)
        × (Main.build l tls limits ≡ ok server)
        × (Boot.env_required env (codes "DB_PASSWORD_FILE") ≡ ok password)
        × IsReadBy env e
  unfolding run
  run-Configured env e m =
      let (config, c, m₁) = done e boot (Boot.pool_config l.widths l.parse_ssl_mode env) _ m in
      let (lock, k, m₂) = done e boot (Boot.migration_lock l.lock_options env) _ m₁ in
      let (tls, t, m₃) = done e boot (Main.listener l env) _ m₂ in
      let (limits, i, m₄) = done e boot (Main.limits l env) _ m₃ in
      let (server, s, m₅) = done e boot (Main.build l tls limits) _ m₄ in
      let (password, p, m₆) =
        done e missing (Boot.env_required env (codes "DB_PASSWORD_FILE")) _ m₅ in
      (
        config,
        lock,
        tls,
        limits,
        server,
        password,
        c,
        k,
        t,
        i,
        s,
        p,
        All-In (IsReadBy env) (run l env).1 (run-Every env) e m,
      )
