-- ===== src/Boot/Knobs.antt =====
-- When `pool_config` of src/boot.rs accepts an environment.
use Prim.Native.Nat.{◌^◌}
use project_db.Base.{
  ℕ, ◌-◌, ◌≤◌, Text, ◌≡◌, ◌≢◌, refl, sym, ap, subst, ◌↔◌, Option, none, some, [], ◌∷◌, arith,
}
use project_db.Status.{Result, ok, map_err, >>=-eq-ok}
use project_db.Numbers.{parse_unsigned, decimal}
use project_db.Numbers.Fits.{parse_unsigned-le}
use project_db.Numbers.Decimal.{parse_unsigned-decimal}
use project_db.Boot.{
  Env, Knob, required, env_required_chart, parse_knob, number, BootError, pool, missing_knob,
  PoolConfig, Widths, pool_config, ssl_ca_of, ssl_ca_key, db_host, db_port, db_name, db_user,
  db_max_connections, replicas, db_engine_max_connections, operator_reserve, acquire_timeout,
  idle_timeout, max_lifetime, ssl_mode_knob,
}

-- The variable holds a text that is not empty.
abbrev pub Holds : Env → Knob → Text → Type 0
Holds env k value = (env k.key ≡ some value) × (value ≢ [])

-- The variable holds a number of that width.
abbrev pub HoldsNumber : Env → Knob → ℕ → ℕ → Type 0
HoldsNumber env k bits n = (raw : Text) × Holds env k raw × (parse_unsigned bits raw ≡ ok n)

-- The twelve required variables, and the one that is not, as the configuration has them.
pub record Reads {E Mode : Type 0} (widths : Widths) (parse_ssl_mode : Text → Result E Mode)
    (env : Env) (c : PoolConfig Mode) : Type 0 where
  pub host : Holds env db_host c.host
  pub port : HoldsNumber env db_port widths.port c.port
  pub database : Holds env db_name c.database
  pub username : Holds env db_user c.username
  pub max_connections : HoldsNumber env db_max_connections widths.max_connections c.max_connections
  pub replicas : HoldsNumber env replicas widths.replicas c.replicas
  pub engine :
      HoldsNumber env db_engine_max_connections widths.engine_max_connections
        c.engine_max_connections
  pub reserve : HoldsNumber env operator_reserve widths.operator_reserve c.operator_reserve
  pub acquire : HoldsNumber env acquire_timeout 64 c.acquire_timeout
  pub idle : HoldsNumber env idle_timeout 64 c.idle_timeout
  pub lifetime : HoldsNumber env max_lifetime 64 c.max_lifetime
  pub mode : (raw : Text) × Holds env ssl_mode_knob raw × (parse_ssl_mode raw ≡ ok c.ssl_mode)
  pub ca : c.ssl_ca ≡ ssl_ca_of (env ssl_ca_key)

ok_eq : {E A : Type 0} {a b : A} → ◌≡◌ {A = Result E A} (ok a) (ok b) → a ≡ b
ok_eq h = cc

required-Holds :
    {E : Type 0} (k : Knob) (o : Option Text) (v : Text)
    → (◌≡◌ {A = Result (BootError E) Text}
        (map_err (λ m. missing_knob m k.chart_key) (required k.key o))
        (ok v))
      ↔ ((o ≡ some v) × (v ≢ []))
required-Holds k none v = (λ h. ground arith, λ h. ground arith)
required-Holds k (some []) v = (λ h. ground arith, λ h. absurd (h.1 (ground arith)))
required-Holds k (some (c ∷ s)) v = (λ h. (ap some (ok_eq h), λ e. ground arith), λ h. ground arith)

pub chart-Holds :
    {E : Type 0} (env : Env) (k : Knob) (v : Text)
    → (◌≡◌ {A = Result (BootError E) Text} (env_required_chart env k) (ok v)) ↔ Holds env k v
unfolding env_required_chart
chart-Holds env k v = required-Holds k (env k.key) v

parsed-ok :
    {E : Type 0} (bits : ℕ) (k : Knob) (raw : Text) {n : ℕ}
    → ◌≡◌ {A = Result (BootError E) ℕ} (parse_knob bits raw k) (ok n)
    → parse_unsigned bits raw ≡ ok n
unfolding parse_knob
parsed-ok bits k raw h = ground arith

pub number-Holds :
    {E : Type 0} (env : Env) (bits : ℕ) (k : Knob) (n : ℕ)
    → (◌≡◌ {A = Result (BootError E) ℕ} (number env bits k) (ok n)) ↔ HoldsNumber env k bits n
unfolding number
number-Holds env bits k n = (
  λ h.
      let (raw, e, p) = >>=-eq-ok (env_required_chart env k) (λ raw. parse_knob bits raw k) h in
      (raw, (chart-Holds env k raw).0 e, parsed-ok bits k raw p),
  λ h. let (raw, e, p) = h in rw ((chart-Holds env k raw).1 e) (unfold parse_knob in rw p),
)

module _ {E Mode : Type 0} (widths : Widths) (parse_ssl_mode : Text → Result E Mode) where
  mode-ok :
      (raw : Text) {m : Mode}
      → ◌≡◌ {A = Result (BootError E) Mode} (map_err pool (parse_ssl_mode raw)) (ok m)
      → parse_ssl_mode raw ≡ ok m
  mode-ok raw h = ground arith

  accepted :
      (env : Env) {c : PoolConfig Mode}
      → pool_config widths parse_ssl_mode env ≡ ok c
      → Reads widths parse_ssl_mode env c
  unfolding pool_config
  accepted env {c} h =
      let (v₁, e₁, h₁) = >>=-eq-ok (env_required_chart env db_host) _ h in
      let (v₂, e₂, h₂) = >>=-eq-ok (number env widths.port db_port) _ h₁ in
      let (v₃, e₃, h₃) = >>=-eq-ok (env_required_chart env db_name) _ h₂ in
      let (v₄, e₄, h₄) = >>=-eq-ok (env_required_chart env db_user) _ h₃ in
      let (v₅, e₅, h₅) = >>=-eq-ok (number env widths.max_connections db_max_connections) _ h₄ in
      let (v₆, e₆, h₆) = >>=-eq-ok (number env widths.replicas replicas) _ h₅ in
      let (v₇, e₇, h₇) =
        >>=-eq-ok (number env widths.engine_max_connections db_engine_max_connections) _ h₆ in
      let (v₈, e₈, h₈) = >>=-eq-ok (number env widths.operator_reserve operator_reserve) _ h₇ in
      let (v₉, e₉, h₉) = >>=-eq-ok (number env 64 acquire_timeout) _ h₈ in
      let (w₁, f₁, g₁) = >>=-eq-ok (number env 64 idle_timeout) _ h₉ in
      let (w₂, f₂, g₂) = >>=-eq-ok (number env 64 max_lifetime) _ g₁ in
      let (w₃, f₃, g₃) = >>=-eq-ok (env_required_chart env ssl_mode_knob) _ g₂ in
      let (w₄, f₄, g₄) = >>=-eq-ok (map_err pool (parse_ssl_mode w₃)) _ g₃ in
      subst (Reads widths parse_ssl_mode env) (ok_eq g₄) (record {
        host = (chart-Holds env db_host v₁).0 e₁;
        port = (number-Holds env widths.port db_port v₂).0 e₂;
        database = (chart-Holds env db_name v₃).0 e₃;
        username = (chart-Holds env db_user v₄).0 e₄;
        max_connections = (number-Holds env widths.max_connections db_max_connections v₅).0 e₅;
        replicas = (number-Holds env widths.replicas replicas v₆).0 e₆;
        engine = (number-Holds env widths.engine_max_connections db_engine_max_connections v₇).0 e₇;
        reserve = (number-Holds env widths.operator_reserve operator_reserve v₈).0 e₈;
        acquire = (number-Holds env 64 acquire_timeout v₉).0 e₉;
        idle = (number-Holds env 64 idle_timeout w₁).0 f₁;
        lifetime = (number-Holds env 64 max_lifetime w₂).0 f₂;
        mode = (w₃, (chart-Holds env ssl_mode_knob w₃).0 f₃, mode-ok w₃ f₄);
        ca = refl;
      })

  accepts :
      (env : Env) (c : PoolConfig Mode)
      → Reads widths parse_ssl_mode env c
      → pool_config widths parse_ssl_mode env ≡ ok c
  unfolding pool_config
  accepts env c r =
      let (raw, m, p) = r.mode in
      rw
        (
          (chart-Holds {E = E} env db_host c.host).1 r.host,
          (number-Holds {E = E} env widths.port db_port c.port).1 r.port,
          (chart-Holds {E = E} env db_name c.database).1 r.database,
          (chart-Holds {E = E} env db_user c.username).1 r.username,
          (number-Holds {E = E} env widths.max_connections db_max_connections c.max_connections).1
              r.max_connections,
          (number-Holds {E = E} env widths.replicas replicas c.replicas).1 r.replicas,
          (number-Holds {E = E} env widths.engine_max_connections db_engine_max_connections
                c.engine_max_connections).1
              r.engine,
          (number-Holds {E = E} env widths.operator_reserve operator_reserve c.operator_reserve).1
              r.reserve,
          (number-Holds {E = E} env 64 acquire_timeout c.acquire_timeout).1 r.acquire,
          (number-Holds {E = E} env 64 idle_timeout c.idle_timeout).1 r.idle,
          (number-Holds {E = E} env 64 max_lifetime c.max_lifetime).1 r.lifetime,
          (chart-Holds {E = E} env ssl_mode_knob raw).1 m,
          p,
        )
        (ap (λ ca. ok (record c { ssl_ca = ca })) (sym r.ca))

  -- An environment is accepted exactly when every one of the twelve required variables holds a text
  -- that is not empty, the eight numbers among them parse within their widths and the store crate
  -- takes the transport mode; the configuration then holds what they say, and names as its authority
  -- the trimmed text of the thirteenth, unless that is absent or blank.
  pub pool_config-ok_iff :
      (env : Env) (c : PoolConfig Mode)
      → (pool_config widths parse_ssl_mode env ≡ ok c) ↔ Reads widths parse_ssl_mode env c
  pool_config-ok_iff env c = (accepted env, accepts env c)

-- A number in decimal is read as itself exactly when it fits the width of its knob.
pub parse_knob-decimal :
    {E : Type 0} (bits n : ℕ) (k : Knob)
    → (n ≤ 2 ^ bits - 1) ↔ (◌≡◌ {A = Result (BootError E) ℕ} (parse_knob bits (decimal n) k) (ok n))
unfolding parse_knob
parse_knob-decimal bits n k = (
  λ h. rw (parse_unsigned-decimal bits n h),
  λ h. parse_unsigned-le bits (decimal n) (parsed-ok bits k (decimal n) h),
)
