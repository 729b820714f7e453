-- ===== src/Main.antt =====
-- src/main.rs and `watch_set` of src/rotate.rs: the boot sequence, with what it has done so far. The
-- libraries that it calls are parameters.
pub mod Configured
pub mod Sequence
use project_db.Base.{ℕ, Text, codes, Option, List, [], ◌∷◌, ◌++◌}
use project_db.Base.Int.{ℤ}
use project_db.Status.{Result, ok, err, map_err}
use project_db.Boot.{
  Env, Missing, env_required, BootError, listener_tls, listener_limits, signal_handler, pool,
  PoolConfig, Widths, pool_config, migration_lock, parse_listen_addr, listen,
}

abbrev pub service : Text
service = codes "project-db"

pub data Capability : Type 0 where
  transactions row_locking : Capability

abbrev pub required : List Capability
required = transactions ∷ row_locking ∷ []

-- How serving ended, within the drain budget or past it.
pub data Drain (E : Type 0) : Type 0 where
  finished : Result E Unit → Drain E
  overran : Drain E

-- What the process calls: the crates of the organisation, sqlx, tonic, the metrics exporter, and the
-- operating system behind them.
pub record Libraries : Type 1 where
  pub Error : Type 0
  pub Mode : Type 0
  pub Lock : Type 0
  pub ServerTls : Type 0
  pub Limits : Type 0
  pub Server : Type 0
  pub Secret : Type 0
  pub Configuration : Type 0
  pub Schedule : Type 0
  pub Options : Type 0
  pub Conn : Type 0
  pub Report : Type 0
  pub Pool : Type 0
  pub Migrations : Type 0
  pub Addr : Type 0
  pub widths : Widths
  pub parse_ssl_mode : Text → Result Error Mode
  pub lock_options : ℤ → Result Error Lock
  pub tls_from_lookup : Text → Text → Env → Result Error (Option ServerTls)
  pub limits_from_lookup : Text → Text → Env → Result Error Limits
  pub server : Option ServerTls → Limits → Result Error Server
  pub resolve : Text → Result Error Secret
  pub mounted : Configuration
  pub schedule : Configuration → Result Error Schedule
  pub connect_options : PoolConfig Mode → Secret → Result Error Options
  pub connect : Options → Result Error Conn
  pub probe : Conn → Result Error Report
  pub satisfies : Report → List Capability → Result Error Unit
  pub close : Conn → Result Error Unit
  pub pool_connect : PoolConfig Mode → Secret → Result Error Pool
  pub migrations : Result Error Migrations
  pub apply : Pool → Migrations → Lock → Result Error ℕ
  pub parse_addr : Text → Result Error Addr
  pub install_prometheus : Addr → Result Error Unit
  pub shutdown : Result Error Unit
  pub drain : Server → Pool → Addr → Drain Error

module _ (l : Libraries) where
  -- The members of the watch set, as `Inputs::of` is given them.
  pub record Inputs : Type 0 where
    pub service : Text
    pub listener : Option l.ServerTls
    pub db_password : Text
    pub db_ssl_ca : Option Text
    pub config : l.Configuration

  unfoldable pub watch_set : Option l.ServerTls → Text → Option Text → l.Configuration → Inputs
  watch_set tls password ca config = record {
    service = service;
    listener = tls;
    db_password = password;
    db_ssl_ca = ca;
    config = config;
  }

  -- What the process has done.
  pub data Event : Type 0 where
    read_secret : Text → Event
    hashed : Inputs → Event
    connected : l.Options → Event
    satisfied : l.Report → Event
    closed pooled : Event
    migrated : ℕ → Event
    exporter : l.Addr → Result l.Error Unit → Event
    exported_not_after armed : Event
    listening : l.Addr → Event

  -- Why it ended with a failure.
  pub data Refusal : Type 0 where
    boot : BootError l.Error → Refusal
    missing : Missing → Refusal
    library : l.Error → Refusal
    address : Text × l.Error → Refusal
    stopped : l.Addr → l.Error → Refusal

  abbrev pub Boot : Type 0 → Type 0
  Boot A = Result Refusal A × List Event

  abbrev pub continue : {A B : Type 0} → Result Refusal A → (A → Boot B) → Boot B
  continue (ok a) f = f a
  continue (err e) f = (err e, [])

  -- `?` in `run`, with the events in their order.
  infixl 10 ◌>>=◌ ◌>>◌
  unfoldable pub ◌>>=◌ : {A B : Type 0} → Boot A → (A → Boot B) → Boot B
  m >>= f = let next = continue m.0 f in (next.0, m.1 ++ next.1)

  abbrev pub ◌>>◌ : {B : Type 0} → Boot Unit → Boot B → Boot B
  m >> k = m >>= λ _. k

  unfoldable pub try : {E A : Type 0} → (E → Refusal) → Result E A → Boot A
  try f r = (map_err f r, [])

  unfoldable pub note : Event → Boot Unit
  note e = (ok tt, e ∷ [])

  -- `boot::listener_tls`, `listener_limits` and `server`: the crate's refusals, as this binary's.
  unfoldable pub listener : Env → Result (BootError l.Error) (Option l.ServerTls)
  listener env = map_err listener_tls (l.tls_from_lookup listen (codes "tls") env)

  unfoldable pub limits : Env → Result (BootError l.Error) l.Limits
  limits env = map_err listener_limits (l.limits_from_lookup listen (codes "server.limits") env)

  unfoldable pub build : Option l.ServerTls → l.Limits → Result (BootError l.Error) l.Server
  build tls limits = map_err listener_tls (l.server tls limits)

  unfoldable pub probe_connect_options :
      PoolConfig l.Mode → l.Secret → Result (BootError l.Error) l.Options
  probe_connect_options config secret = map_err pool (l.connect_options config secret)

  unfoldable pub shutdown : Result (BootError l.Error) Unit
  shutdown = map_err signal_handler l.shutdown

  abbrev pub ended : l.Addr → Drain l.Error → Boot Unit
  ended addr (finished r) = try (stopped addr) r
  ended addr overran = (ok tt, [])

  -- The third phase. An exporter that is not installed is logged and ignored.
  unfoldable pub serve : Env → l.Server → l.Pool → Boot Unit
  unfolding env_required parse_listen_addr shutdown
  serve env server opened = do
    metrics ← try missing (env_required env (codes "METRICS_LISTEN"))
    metrics_addr ← try address (parse_listen_addr l.parse_addr (codes "METRICS_LISTEN") metrics)
    note (exporter metrics_addr (l.install_prometheus metrics_addr))
    note exported_not_after
    value ← try missing (env_required env listen)
    addr ← try address (parse_listen_addr l.parse_addr listen value)
    try boot shutdown
    note armed
    note (listening addr)
    ended addr (l.drain server opened addr)

  -- Probe, on a connection of its own.
  unfoldable pub probe : PoolConfig l.Mode → l.Secret → Boot Unit
  unfolding probe_connect_options
  probe config secret = do
    options ← try boot (probe_connect_options config secret)
    conn ← try library (l.connect options)
    note (connected options)
    report ← try library (l.probe conn)
    try library (l.satisfies report required)
    note (satisfied report)
    try library (l.close conn)
    note closed

  unfoldable pub migrate : PoolConfig l.Mode → l.Secret → l.Lock → Boot l.Pool
  migrate config secret lock = do
    opened ← try library (l.pool_connect config secret)
    note pooled
    set ← try library l.migrations
    applied ← try library (l.apply opened set lock)
    note (migrated applied)
    (ok opened, [])

  unfoldable pub run : Env → Boot Unit
  unfolding pool_config migration_lock listener limits build env_required watch_set probe migrate
      serve
  run env = do
    config ← try boot (pool_config l.widths l.parse_ssl_mode env)
    migration_lock ← try boot (migration_lock l.lock_options env)
    tls ← try boot (listener env)
    limits ← try boot (limits env)
    server ← try boot (build tls limits)
    password ← try missing (env_required env (codes "DB_PASSWORD_FILE"))
    secret ← try library (l.resolve password)
    note (read_secret password)
    note (hashed (watch_set tls password config.ssl_ca l.mounted))
    schedule ← try library (l.schedule l.mounted)
    probe config secret
    opened ← migrate config secret migration_lock
    serve env server opened

  abbrev exit_of : Result Refusal Unit → ℕ
  exit_of (ok u) = 0
  exit_of (err e) = 1

  -- The exit status, and what was done.
  unfoldable pub main : Env → ℕ × List Event
  unfolding run
  main env = (exit_of (run env).0, (run env).1)
