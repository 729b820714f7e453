-- ===== src/Boot.antt =====
-- src/boot.rs, src/boot/lock.rs and src/boot/serve_tls.rs: what is read from the environment before
-- anything is opened, and the refusals.
pub mod Knobs
pub mod Names
use project_db.Base.{
  ℕ, Text, codes, Bool, ◌&&◌, ◌||◌, Option, none, some, List, [], ◌∷◌, ◌++◌, leb, ◌==◌,
  if◌then◌else◌,
}
use project_db.Base.Int.{ℤ}
use project_db.Status.{Result, ok, err, ◌>>=◌, map_err}
use project_db.Numbers.{ParseIntError, parse_unsigned, parse_i32}

-- The environment: a lookup that is passed in.
abbrev pub Env : Type 0
Env = Text → Option Text

-- A variable, and the chart value that renders it.
pub record Knob : Type 0 where
  pub key : Text
  pub chart_key : Text

abbrev pub knob : Text → Text → Knob
knob key chart_key = record { key = key; chart_key = chart_key }

-- The two sentences of `env_required`.
pub data Missing : Type 0 where
  not_set set_but_empty : Text → Missing

-- Why a wait is refused: a parse, or the lock's own refusal.
pub data Reason (E : Type 0) : Type 0 where
  unreadable : ParseIntError → Reason E
  unusable : E → Reason E

-- `BootError`; the errors of the libraries are parameters.
pub data BootError (E : Type 0) : Type 0 where
  listener_tls listener_limits signal_handler pool : E → BootError E
  missing_knob : Missing → Text → BootError E
  migration_lock_wait : Text → Reason E → BootError E
  unparsable : Knob → Text → ParseIntError → BootError E

abbrev pub listen : Text
listen = codes "LISTEN"

abbrev pub required : Text → Option Text → Result Missing Text
required key none = err (not_set key)
required key (some []) = err (set_but_empty key)
required key (some (c ∷ value)) = ok (c ∷ value)

unfoldable pub env_required : Env → Text → Result Missing Text
env_required env key = required key (env key)

unfoldable pub env_required_chart : {E : Type 0} → Env → Knob → Result (BootError E) Text
unfolding env_required
env_required_chart env k = map_err (λ m. missing_knob m k.chart_key) (env_required env k.key)

abbrev pub parsed : {E : Type 0} → Knob → Text → Result ParseIntError ℕ → Result (BootError E) ℕ
parsed k raw (ok n) = ok n
parsed k raw (err e) = err (unparsable k raw e)

unfoldable pub parse_knob : {E : Type 0} → ℕ → Text → Knob → Result (BootError E) ℕ
unfolding parse_unsigned
parse_knob bits raw k = parsed k raw (parse_unsigned bits raw)

-- `char::is_whitespace`: the characters with the property White_Space.
unfoldable pub is_whitespace : ℕ → Bool
is_whitespace c =
    leb 0x9 c && leb c 0xd
    || (c == 0x20
        || (c == 0x85
            || (c == 0xa0
                || (c == 0x1680
                    || (leb 0x2000 c && leb c 0x200a
                        || (c == 0x2028
                            || (c == 0x2029 || (c == 0x202f || (c == 0x205f || c == 0x3000)))))))))

unfoldable pub trim_start : Text → Text
unfolding is_whitespace
trim_start [] = []
trim_start (c ∷ s) = let rest = trim_start s in if is_whitespace c then rest else c ∷ s

abbrev pub only_if_blank : ℕ → Text → Text
only_if_blank c [] = if is_whitespace c then [] else c ∷ []
only_if_blank c (d ∷ s) = c ∷ d ∷ s

unfoldable pub trim_end : Text → Text
unfolding is_whitespace
trim_end [] = []
trim_end (c ∷ s) = only_if_blank c (trim_end s)

unfoldable pub trim : Text → Text
unfolding trim_start trim_end
trim s = trim_start (trim_end s)

abbrev nonempty : Text → Option Text
nonempty [] = none
nonempty (c ∷ s) = some (c ∷ s)

-- The authority that is named: absent, empty and blank are alike.
unfoldable pub ssl_ca_of : Option Text → Option Text
unfolding trim
ssl_ca_of none = none
ssl_ca_of (some value) = nonempty (trim value)

-- The required variables, in the order in which they are read.

abbrev pub db_host : Knob
db_host = knob (codes "DB_HOST") (codes "database.host")

abbrev pub db_port : Knob
db_port = knob (codes "DB_PORT") (codes "database.port")

abbrev pub db_name : Knob
db_name = knob (codes "DB_NAME") (codes "database.name")

abbrev pub db_user : Knob
db_user = knob (codes "DB_USER") (codes "database.user")

abbrev pub db_max_connections : Knob
db_max_connections = knob (codes "DB_MAX_CONNECTIONS") (codes "database.maxConnections")

abbrev pub replicas : Knob
replicas =
    knob (codes "REPLICAS")
      (codes "replicaCount (or autoscaling.maxReplicas when autoscaling.enabled is true)")

abbrev pub db_engine_max_connections : Knob
db_engine_max_connections =
    knob (codes "DB_ENGINE_MAX_CONNECTIONS") (codes "database.engineMaxConnections")

abbrev pub operator_reserve : Knob
operator_reserve =
    knob (codes "DB_ENGINE_OPERATOR_RESERVE") (codes "database.engineOperatorReserve")

abbrev pub acquire_timeout : Knob
acquire_timeout = knob (codes "DB_ACQUIRE_TIMEOUT_SECONDS") (codes "database.acquireTimeoutSeconds")

abbrev pub idle_timeout : Knob
idle_timeout = knob (codes "DB_IDLE_TIMEOUT_SECONDS") (codes "database.idleTimeoutSeconds")

abbrev pub max_lifetime : Knob
max_lifetime = knob (codes "DB_MAX_LIFETIME_SECONDS") (codes "database.maxLifetimeSeconds")

abbrev pub ssl_mode_knob : Knob
ssl_mode_knob = knob (codes "DB_SSL_MODE") (codes "database.sslMode")

abbrev pub lock_timeout : Knob
lock_timeout =
    knob (codes "DB_MIGRATION_LOCK_TIMEOUT_SECONDS") (codes "database.migrationLockTimeoutSeconds")

abbrev pub ssl_ca_key : Text
ssl_ca_key = codes "DB_SSL_CA_FILE"

-- `PoolConfig` of the store crate, whose transport modes are a parameter.
pub record PoolConfig (Mode : Type 0) : Type 0 where
  pub host : Text
  pub port : ℕ
  pub database : Text
  pub username : Text
  pub max_connections : ℕ
  pub replicas : ℕ
  pub engine_max_connections : ℕ
  pub operator_reserve : ℕ
  pub acquire_timeout : ℕ
  pub idle_timeout : ℕ
  pub max_lifetime : ℕ
  pub ssl_mode : Mode
  pub ssl_ca : Option Text

-- How wide the crate's numbers are, in bits; a `Duration`'s seconds take 64.
pub record Widths : Type 0 where
  pub port : ℕ
  pub max_connections : ℕ
  pub replicas : ℕ
  pub engine_max_connections : ℕ
  pub operator_reserve : ℕ

-- A number that is read.
unfoldable pub number : {E : Type 0} → Env → ℕ → Knob → Result (BootError E) ℕ
unfolding env_required_chart parse_knob
number env bits k = env_required_chart env k >>= λ raw. parse_knob bits raw k

module _ {E Mode : Type 0} (widths : Widths) (parse_ssl_mode : Text → Result E Mode) where
  unfoldable pub pool_config : Env → Result (BootError E) (PoolConfig Mode)
  unfolding number ssl_ca_of
  pool_config env = do
    host ← env_required_chart env db_host
    port ← number env widths.port db_port
    database ← env_required_chart env db_name
    username ← env_required_chart env db_user
    max_connections ← number env widths.max_connections db_max_connections
    replica_count ← number env widths.replicas replicas
    engine_max_connections ← number env widths.engine_max_connections db_engine_max_connections
    reserve ← number env widths.operator_reserve operator_reserve
    acquire ← number env 64 acquire_timeout
    idle ← number env 64 idle_timeout
    lifetime ← number env 64 max_lifetime
    mode ← env_required_chart env ssl_mode_knob
    ssl_mode ← map_err pool (parse_ssl_mode mode)
    ok (record {
      host = host;
      port = port;
      database = database;
      username = username;
      max_connections = max_connections;
      replicas = replica_count;
      engine_max_connections = engine_max_connections;
      operator_reserve = reserve;
      acquire_timeout = acquire;
      idle_timeout = idle;
      max_lifetime = lifetime;
      ssl_mode = ssl_mode;
      ssl_ca = ssl_ca_of (env ssl_ca_key);
    })

-- `migration_lock`: the seconds as an `i32`, and `LockOptions::new`.
unfoldable pub migration_lock :
    {E Lock : Type 0} → (ℤ → Result E Lock) → Env → Result (BootError E) Lock
unfolding env_required parse_i32
migration_lock new env =
    map_err (λ m. missing_knob m lock_timeout.chart_key) (env_required env lock_timeout.key)
    >>= λ raw. map_err (λ e. migration_lock_wait raw (unreadable e)) (parse_i32 raw) >>= λ seconds.
        map_err (λ e. migration_lock_wait raw (unusable e)) (new seconds)

-- `parse_listen_addr`: the refusal names the variable.
unfoldable pub parse_listen_addr :
    {E Addr : Type 0} → (Text → Result E Addr) → Text → Text → Result (Text × E) Addr
parse_listen_addr parse key value = map_err (λ e. (key, e)) (parse value)
