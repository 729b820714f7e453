-- ===== src/Tests/Boots.antt =====
-- Boots on small environments.
use Prim.Native.Nat.{◌^◌}
use project_db.Base.{
  ◌-◌, ◌≤◌, ℕ, Text, codes, text_eq, ◌≡◌, refl, ◌↔◌, inl, inr, Option, none, some, List, [], ◌∷◌,
  In, if◌then◌else◌,
}
use project_db.Base.Int.{ℤ, negsuc}
use project_db.Status.{Result, ok, err}
use project_db.Numbers.{decimal, parse_i32, pos_overflow, neg_overflow}
use project_db.Boot.{
  Env, Widths, PoolConfig, pool_config, env_required, parse_knob, BootError, unparsable, db_port,
  migration_lock,
}
use project_db.Boot.Knobs.{Reads, pool_config-ok_iff, parse_knob-decimal}
use project_db.Boot.Names.{Blames, pool_config-Blames}
use project_db.Main.{Libraries, Event, run, main, closed, pooled, listening, overran}
use project_db.Main
use project_db.Main.Sequence.{Follows, sequence, run-Follows}
use project_db.Main.Configured.{IsReadBy, run-Configured}

abbrev variables : List (Text × Text)
variables =
    (codes "DB_HOST", codes "db")
    ∷ (codes "DB_PORT", codes "3306")
    ∷ (codes "DB_NAME", codes "registry")
    ∷ (codes "DB_USER", codes "app")
    ∷ (codes "DB_MAX_CONNECTIONS", codes "+10")
    ∷ (codes "REPLICAS", codes "2")
    ∷ (codes "DB_ENGINE_MAX_CONNECTIONS", codes "100")
    ∷ (codes "DB_ENGINE_OPERATOR_RESERVE", codes "5")
    ∷ (codes "DB_ACQUIRE_TIMEOUT_SECONDS", codes "5")
    ∷ (codes "DB_IDLE_TIMEOUT_SECONDS", codes "60")
    ∷ (codes "DB_MAX_LIFETIME_SECONDS", codes "600")
    ∷ (codes "DB_SSL_MODE", codes "required")
    ∷ (codes "DB_SSL_CA_FILE", codes "  ")
    ∷ (codes "DB_MIGRATION_LOCK_TIMEOUT_SECONDS", codes "60")
    ∷ (codes "DB_PASSWORD_FILE", codes "/secret")
    ∷ (codes "METRICS_LISTEN", codes "0.0.0.0:9090")
    ∷ (codes "LISTEN", codes "0.0.0.0:50051")
    ∷ []

abbrev value_of : List (Text × Text) → Env
value_of [] key = none
value_of ((k, v) ∷ vs) key = if text_eq k key then some v else value_of vs key

abbrev widths : Widths
widths = record {
  port = 16;
  max_connections = 32;
  replicas = 32;
  engine_max_connections = 32;
  operator_reserve = 32;
}

-- Every transport mode is taken as it is written.
abbrev any_mode : Text → Result Unit Text
any_mode raw = ok raw

abbrev good : Env
good = value_of variables

-- Where it listens.
abbrev served_at : Text
served_at = codes "0.0.0.0:50051"

abbrev config : PoolConfig Text
config = record {
  host = codes "db";
  port = 3306;
  database = codes "registry";
  username = codes "app";
  max_connections = 10;
  replicas = 2;
  engine_max_connections = 100;
  operator_reserve = 5;
  acquire_timeout = 5;
  idle_timeout = 60;
  max_lifetime = 600;
  ssl_mode = codes "required";
  ssl_ca = none;
}

good_config : pool_config widths any_mode good ≡ ok config
unfolding pool_config text_eq
good_config = refl

pool_config-ok_iff_example :
    (pool_config widths any_mode good ≡ ok config) ↔ Reads widths any_mode good config
pool_config-ok_iff_example = pool_config-ok_iff widths any_mode good config

-- A port that does not fit 16 bits.
abbrev wide_port : Env
wide_port = value_of ((codes "DB_PORT", codes "65536") ∷ variables)

wide_port_refused :
    pool_config widths any_mode wide_port ≡ err (unparsable db_port (codes "65536") pos_overflow)
unfolding pool_config text_eq
wide_port_refused = refl

pool_config-Blames_example :
    Blames widths any_mode wide_port (unparsable db_port (codes "65536") pos_overflow)
pool_config-Blames_example = pool_config-Blames widths any_mode wide_port wide_port_refused

least_i32 : parse_i32 (codes "-2147483648") ≡ ok (negsuc 2147483647)
unfolding parse_i32
least_i32 = refl

below_i32 : parse_i32 (codes "-2147483649") ≡ err neg_overflow
unfolding parse_i32
below_i32 = refl

-- Libraries that answer every call.
abbrev calm_libraries : Libraries
calm_libraries = record {
  Error = Unit;
  Mode = Text;
  Lock = ℤ;
  ServerTls = Unit;
  Limits = Unit;
  Server = Unit;
  Secret = Text;
  Configuration = Unit;
  Schedule = Unit;
  Options = Unit;
  Conn = Unit;
  Report = Unit;
  Pool = Unit;
  Migrations = Unit;
  Addr = Text;
  widths = widths;
  parse_ssl_mode = any_mode;
  lock_options = λ z. ok z;
  tls_from_lookup = λ prefix chart env. ok none;
  limits_from_lookup = λ prefix chart env. ok tt;
  server = λ tls limits. ok tt;
  resolve = λ path. ok path;
  mounted = tt;
  schedule = λ c. ok tt;
  connect_options = λ c s. ok tt;
  connect = λ o. ok tt;
  probe = λ c. ok tt;
  satisfies = λ r cs. ok tt;
  close = λ c. ok tt;
  pool_connect = λ c s. ok tt;
  migrations = ok tt;
  apply = λ p m k. ok 7;
  parse_addr = λ a. ok a;
  install_prometheus = λ a. err tt;
  shutdown = ok tt;
  drain = λ s p a. overran;
}

-- A drain that overran ends well all the same, and so does a boot without an exporter.
exit_status : (main calm_libraries good).0 ≡ 0
unfolding main text_eq Main.◌>>=◌ Main.try Main.note
exit_status = refl

-- A port that does not parse ends the boot before anything is done.
refused_early : main calm_libraries wide_port ≡ (1, [])
unfolding main text_eq Main.◌>>=◌ Main.try Main.note
refused_early = refl

run-Follows_example : Follows calm_libraries (run calm_libraries good) sequence
run-Follows_example = run-Follows calm_libraries good

-- It listens on what `LISTEN` says.
serves : In (listening served_at) (run calm_libraries good).1
unfolding run text_eq Main.◌>>=◌ Main.try Main.note
serves = inr (inr (inr (inr (inr (inr (inr (inr (inr (inr (inl refl))))))))))

run-Configured_example :
    (c : PoolConfig Text) × (lock : ℤ) × (tls : Option Unit) × (limits : Unit) × (server : Unit)
    × (password : Text) × (pool_config widths any_mode good ≡ ok c)
    × (migration_lock {E = Unit {0}} (λ z. ok z) good ≡ ok lock)
    × (Main.listener calm_libraries good ≡ ok tls)
    × (Main.limits calm_libraries good ≡ ok limits)
    × (Main.build calm_libraries tls limits ≡ ok server)
    × (env_required good (codes "DB_PASSWORD_FILE") ≡ ok password)
    × IsReadBy calm_libraries good (listening served_at)
run-Configured_example = run-Configured calm_libraries good (listening served_at) serves

parse_knob-decimal_example :
    (3306 ≤ 2 ^ 16 - 1)
    ↔ (◌≡◌ {A = Result (BootError Unit) ℕ} (parse_knob 16 (decimal 3306) db_port) (ok 3306))
parse_knob-decimal_example = parse_knob-decimal 16 3306 db_port
