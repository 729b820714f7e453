-- ===== src/Boot/Names.antt =====
-- What a refusal of `pool_config` and `migration_lock` (src/boot.rs, src/boot/lock.rs) names.
use project_db.Base.{
  ℕ, ◌≤◌, ◌-◌, ◌≢◌, ap, ◌∙◌, In-map, Text, ◌≡◌, refl, sym, ◌⊎◌, inl, inr, Option, none, some, List,
  [], ◌∷◌, In, arith,
}
use project_db.Status.{Result, ok, err, ◌>>=◌, map_err}
use Prim.Native.Nat.{◌^◌}
use project_db.Numbers.{ParseIntError, parse_unsigned, decimal}
use project_db.Numbers.Decimal.{parse_unsigned-decimal}
use project_db.Boot.Knobs.{chart-Holds}
use project_db.Boot.{
  Env, Knob, Missing, not_set, set_but_empty, required, env_required, env_required_chart, parsed,
  parse_knob, number, BootError, pool, missing_knob, unparsable, Widths, pool_config, db_host,
  db_port, db_name, db_user, db_max_connections, replicas, db_engine_max_connections,
  operator_reserve, acquire_timeout, idle_timeout, max_lifetime, ssl_mode_knob,
}

-- The variables whose numbers are read.
abbrev pub numbers : List Knob
numbers =
    db_port ∷ db_max_connections ∷ replicas ∷ db_engine_max_connections ∷ operator_reserve
    ∷ acquire_timeout ∷ idle_timeout ∷ max_lifetime ∷ []

-- The same, each with the bits that its number has.
abbrev pub sized : Widths → List (ℕ × Knob)
sized widths =
    (widths.port, db_port)
    ∷ (widths.max_connections, db_max_connections)
    ∷ (widths.replicas, replicas)
    ∷ (widths.engine_max_connections, db_engine_max_connections)
    ∷ (widths.operator_reserve, operator_reserve)
    ∷ (64, acquire_timeout)
    ∷ (64, idle_timeout)
    ∷ (64, max_lifetime)
    ∷ []

-- All that are required.
abbrev pub knobs : List Knob
knobs = db_host ∷ db_name ∷ db_user ∷ ssl_mode_knob ∷ numbers

-- The variable is absent or empty, and the sentence says which.
abbrev pub Lacks : Env → Text → Missing → Type 0
Lacks env key m =
    ((env key ≡ none) × (m ≡ not_set key)) ⊎ ((env key ≡ some []) × (m ≡ set_but_empty key))

-- What a refusal says, and why it is true.
pub data Blames {E Mode : Type 0} (widths : Widths) (parse_ssl_mode : Text → Result E Mode)
    (env : Env) (e : BootError E) : Type 0 where
  lacking :
      (k : Knob) (m : Missing)
      → In k knobs
      → Lacks env k.key m
      → e ≡ missing_knob m k.chart_key
      → Blames widths parse_ssl_mode env e
  no_number :
      (bits : ℕ) (k : Knob) (raw : Text) (why : ParseIntError)
      → In (bits, k) (sized widths)
      → env k.key ≡ some raw
      → parse_unsigned bits raw ≡ err why
      → ((n : ℕ) → n ≤ 2 ^ bits - 1 → raw ≢ decimal n)
      → e ≡ unparsable k raw why
      → Blames widths parse_ssl_mode env e
  bad_mode :
      (raw : Text) (why : E)
      → env ssl_mode_knob.key ≡ some raw
      → parse_ssl_mode raw ≡ err why
      → e ≡ pool why
      → Blames widths parse_ssl_mode env e

-- The errors of a step are as a predicate says.
abbrev Fails : {E A : Type 0} → (E → Type 0) → Result E A → Type 0
Fails {E} P r = (e : E) → r ≡ err e → P e

Fails-bind :
    {E A B : Type 0} {P : E → Type 0} (m : Result E A) (f : A → Result E B)
    → Fails P m
    → ((a : A) → m ≡ ok a → Fails P (f a))
    → Fails P (m >>= f)
Fails-bind (ok a) f h k e q = k a refl e q
Fails-bind (err x) f h k e q = h e (err_eq q)
  where
    err_eq :
        {E A B : Type 0} {x y : E}
        → ◌≡◌ {A = Result E B} (err x) (err y)
        → ◌≡◌ {A = Result E A} (err x) (err y)
    err_eq h = cc

map_err-err :
    {E F A : Type 0} (f : E → F) (r : Result E A) {e : F}
    → map_err f r ≡ err e
    → (x : E) × (r ≡ err x) × (e ≡ f x)
map_err-err f (ok a) h = absurd (not_err h)
  where
    not_err : {F A : Type 0} {a : A} {e : F} → ◌≡◌ {A = Result F A} (ok a) (err e) → ⊥
    not_err h = cc
map_err-err f (err x) h = (x, refl, sym (err_eq h))
  where
    err_eq : {F A : Type 0} {x y : F} → ◌≡◌ {A = Result F A} (err x) (err y) → x ≡ y
    err_eq h = cc

required-Lacks :
    (key : Text) (o : Option Text) {m : Missing}
    → required key o ≡ err m
    → ((o ≡ none) × (m ≡ not_set key)) ⊎ ((o ≡ some []) × (m ≡ set_but_empty key))
required-Lacks key none h = inl (refl, ground arith)
required-Lacks key (some []) h = inr (refl, ground arith)
required-Lacks key (some (c ∷ v)) h = cc

env_required-Lacks :
    (env : Env) (key : Text) {m : Missing} → env_required env key ≡ err m → Lacks env key m
unfolding env_required
env_required-Lacks env key h = required-Lacks key (env key) h

parsed-err :
    {E : Type 0} (k : Knob) (raw : Text) (r : Result ParseIntError ℕ) {e : BootError E}
    → parsed k raw r ≡ err e
    → (why : ParseIntError) × (r ≡ err why) × (e ≡ unparsable k raw why)
parsed-err k raw (ok n) h = absurd (ground arith)
parsed-err k raw (err why) h = (why, refl, ground arith)

-- A text that is refused is the decimal form of no number that fits.
refused-decimal :
    (bits : ℕ) (raw : Text) {why : ParseIntError}
    → parse_unsigned bits raw ≡ err why
    → (n : ℕ) → n ≤ 2 ^ bits - 1
    → raw ≢ decimal n
refused-decimal bits raw h n fits is =
    not_err (sym (parse_unsigned-decimal bits n fits) ∙ ap (parse_unsigned bits) (sym is) ∙ h)
  where
    not_err : {a : ℕ} {e : ParseIntError} → ◌≡◌ {A = Result ParseIntError ℕ} (ok a) (err e) → ⊥
    not_err h = cc

module _ {E Mode : Type 0} (widths : Widths) (parse_ssl_mode : Text → Result E Mode)
    (env : Env) where
  chart-Fails :
      (k : Knob)
      → In k knobs
      → Fails (Blames widths parse_ssl_mode env) (env_required_chart {E = E} env k)
  unfolding env_required_chart
  chart-Fails k m e h =
      let (x, q, same) = map_err-err (λ m. missing_knob m k.chart_key) (env_required env k.key) h in
      lacking k x m (env_required-Lacks env k.key q) same

  number-Fails :
      (k : Knob) (bits : ℕ)
      → In (bits, k) (sized widths)
      → Fails (Blames widths parse_ssl_mode env) (number {E = E} env bits k)
  unfolding number parse_knob
  number-Fails k bits m =
      Fails-bind (env_required_chart env k) (λ raw. parse_knob bits raw k)
        (chart-Fails k
          (inr (inr (inr (inr (In-map (λ (x : ℕ × Knob). x.1) (bits, k) (sized widths) m))))))
        λ raw set e h.
          let (why, bad, same) = parsed-err k raw (parse_unsigned bits raw) h in
          no_number bits k raw why m ((chart-Holds env k raw).0 set).0 bad
            (refused-decimal bits raw bad) same

  -- A configuration that is refused is refused for what one of the twelve required variables holds:
  -- the refusal names the variable and its chart value and says whether it is absent or empty; or it
  -- quotes the text in it, with the reason that it does not parse as a number of the variable's width,
  -- and the text is the decimal form of no number that fits; or it is the store crate's refusal of
  -- the transport mode that was set.
  pub pool_config-Blames :
      {e : BootError E}
      → pool_config widths parse_ssl_mode env ≡ err e
      → Blames widths parse_ssl_mode env e
  unfolding pool_config
  pool_config-Blames {e} h =
      Fails-bind _ _ (chart-Fails db_host (inl refl))
        (λ _ _. Fails-bind _ _ (number-Fails db_port widths.port (inl refl)) λ _ _.
          Fails-bind _ _ (chart-Fails db_name (inr (inl refl))) λ _ _.
            Fails-bind _ _ (chart-Fails db_user (inr (inr (inl refl)))) λ _ _.
              Fails-bind _ _
                (number-Fails db_max_connections widths.max_connections (inr (inl refl)))
                λ _ _.
                  Fails-bind _ _ (number-Fails replicas widths.replicas (inr (inr (inl refl))))
                    λ _ _.
                      Fails-bind _ _
                        (number-Fails db_engine_max_connections widths.engine_max_connections
                          (inr (inr (inr (inl refl)))))
                        λ _ _.
                          Fails-bind _ _
                            (number-Fails operator_reserve widths.operator_reserve
                              (inr (inr (inr (inr (inl refl))))))
                            λ _ _.
                              Fails-bind _ _
                                (number-Fails acquire_timeout 64
                                  (inr (inr (inr (inr (inr (inl refl)))))))
                                λ _ _.
                                  Fails-bind _ _
                                    (number-Fails idle_timeout 64
                                      (inr (inr (inr (inr (inr (inr (inl refl))))))))
                                    λ _ _.
                                      Fails-bind _ _
                                        (number-Fails max_lifetime 64
                                          (inr (inr (inr (inr (inr (inr (inr (inl refl)))))))))
                                        λ _ _.
                                          Fails-bind _ _
                                            (chart-Fails ssl_mode_knob (inr (inr (inr (inl refl)))))
                                            λ raw set.
                                              Fails-bind (map_err pool (parse_ssl_mode raw)) _
                                                (λ e q.
                                                  let (why, bad, same) =
                                                    map_err-err pool (parse_ssl_mode raw) q in
                                                  bad_mode raw why
                                                    ((chart-Holds env ssl_mode_knob raw).0 set).0
                                                    bad same)
                                                λ _ _ e q. absurd (not_err q))
        e h
    where
      not_err : {F A : Type 0} {a : A} {e : F} → ◌≡◌ {A = Result F A} (ok a) (err e) → ⊥
      not_err h = cc
