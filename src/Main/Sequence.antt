-- ===== src/Main/Sequence.antt =====
-- The order of the boot in src/main.rs, and what each of its steps rests on.
use project_db.Base.{◌≡◌, refl, sym, ap, ◌∙◌, subst, List, [], ◌∷◌, ◌++◌, map, All}
use project_db.Status.{Result, ok, err, Result-cases}
use project_db.Main.{
  Libraries, Event, read_secret, hashed, connected, satisfied, closed, pooled, migrated, exporter,
  exported_not_after, armed, listening, Refusal, boot, missing, library, address, signal_handler,
  ended, Boot, continue, ◌>>=◌, try, note, required, serve, probe, migrate, run,
}
use project_db.Main

-- The steps of the boot, in their order.
pub data Phase : Type 0 where
  secret watched engine capabilities probe_closed pool_open schema metrics leaf_age signals : Phase
  serving : Phase

abbrev pub probing : List Phase
probing = Phase.engine ∷ capabilities ∷ probe_closed ∷ []

abbrev pub migrating : List Phase
migrating = pool_open ∷ schema ∷ []

abbrev pub starting : List Phase
starting = metrics ∷ leaf_age ∷ signals ∷ serving ∷ []

abbrev pub sequence : List Phase
sequence = secret ∷ watched ∷ probing ++ (migrating ++ starting)

abbrev pub Prefix : List Phase → List Phase → Type 0
Prefix [] ys = Unit
Prefix (x ∷ xs) [] = ⊥
Prefix (x ∷ xs) (y ∷ ys) = (x ≡ y) × Prefix xs ys

Prefix-append : (xs ys zs : List Phase) → Prefix ys zs → Prefix (xs ++ ys) (xs ++ zs)
Prefix-append [] ys zs h = h
Prefix-append (x ∷ xs) ys zs h = (refl, Prefix-append xs ys zs h)

Prefix-weaken : (xs ys zs : List Phase) → Prefix xs ys → Prefix xs (ys ++ zs)
Prefix-weaken [] ys zs h = tt
Prefix-weaken (x ∷ xs) [] zs h = absurd h
Prefix-weaken (x ∷ xs) (y ∷ ys) zs h = (h.0, Prefix-weaken xs ys zs h.1)

map-append : {A B : Type 0} (f : A → B) (xs ys : List A) → map f (xs ++ ys) ≡ map f xs ++ map f ys
map-append f [] ys = refl
map-append f (x ∷ xs) ys = ap (λ zs. f x ∷ zs) (map-append f xs ys)

pub All-append :
    {A : Type 0} (P : A → Type 0) (xs ys : List A) → All P xs → All P ys → All P (xs ++ ys)
All-append P [] ys h k = k
All-append P (x ∷ xs) ys h k = (h.0, All-append P xs ys h.1 k)

append-nil : {A : Type 0} (xs : List A) → xs ++ [] ≡ xs
append-nil [] = refl
append-nil (x ∷ xs) = ap (λ zs. x ∷ zs) (append-nil xs)

module _ (l : Libraries) where
  abbrev pub phase : Event l → Phase
  phase (read_secret p) = secret
  phase (hashed i) = watched
  phase (connected o) = Phase.engine
  phase (satisfied r) = capabilities
  phase closed = probe_closed
  phase pooled = pool_open
  phase (migrated n) = schema
  phase (exporter a r) = metrics
  phase exported_not_after = leaf_age
  phase armed = signals
  phase (listening a) = serving

  -- What a step that was done rests on.
  abbrev pub Justified : Event l → Type 0
  Justified (satisfied r) = l.satisfies r required ≡ ok tt
  Justified (migrated n) = (p : l.Pool) × (m : l.Migrations) × (k : l.Lock) × (l.apply p m k ≡ ok n)
  Justified armed = l.shutdown ≡ ok tt
  Justified _ = Unit

  -- What was done is a beginning of the steps, all of them when nothing was refused, and each step
  -- rests on what the libraries answered.
  pub record Follows {A : Type 0} (m : Boot l A) (steps : List Phase) : Type 0 where
    pub begins : Prefix (map phase m.1) steps
    pub ends : (a : A) → m.0 ≡ ok a → map phase m.1 ≡ steps
    pub rests : All Justified m.1

  Follows-pure : {A : Type 0} (r : Result (Refusal l) A) → Follows (r, []) []
  Follows-pure r = record { begins = tt; ends = λ a h. refl; rests = tt }

  Follows-note : (e : Event l) → Justified e → Follows (note l e) (phase e ∷ [])
  unfolding note
  Follows-note e j = record { begins = (refl, tt); ends = λ a h. refl; rests = (j, tt) }

  Follows-bind :
      {A B : Type 0} (m : Boot l A) (f : A → Boot l B) (xs ys : List Phase)
      → Follows m xs
      → ((a : A) → m.0 ≡ ok a → Follows (f a) ys)
      → Follows (Main.◌>>=◌ l m f) (xs ++ ys)
  unfolding ◌>>=◌
  Follows-bind (ok a, es) f xs ys h k =
      let next = k a refl in
      let same = h.ends a refl in
      record {
        begins =
            subst (λ p. Prefix p (xs ++ ys))
              (sym (map-append phase es (f a).1 ∙ ap (λ p. p ++ map phase (f a).1) same))
              (Prefix-append xs _ ys next.begins);
        ends = λ b q.
            map-append phase es (f a).1
            ∙ ap (λ p. p ++ map phase (f a).1) same
            ∙ ap (λ p. xs ++ p) (next.ends b q);
        rests = All-append Justified es (f a).1 h.rests next.rests;
      }
  Follows-bind (err e, es) f xs ys h k = record {
    begins =
        subst (λ p. Prefix (map phase p) (xs ++ ys)) (sym (append-nil es))
          (Prefix-weaken (map phase es) xs ys h.begins);
    ends = λ b q. absurd (not_ok q);
    rests = subst (All Justified) (sym (append-nil es)) h.rests;
  }
    where
      not_ok : {E A : Type 0} {e : E} {a : A} → ◌≡◌ {A = Result E A} (err e) (ok a) → ⊥
      not_ok h = cc

  pub map_err-ok :
      {E F A : Type 0} (f : E → F) (r : Result E A) {a : A}
      → project_db.Status.map_err f r ≡ ok a
      → r ≡ ok a
  map_err-ok f (ok a) h = cc
  map_err-ok f (err e) h = cc

  Follows-try :
      {E A B : Type 0} (why : E → Refusal l) (r : Result E A) (f : A → Boot l B) (ys : List Phase)
      → ((a : A) → r ≡ ok a → Follows (f a) ys)
      → Follows (Main.◌>>=◌ l (try l why r) f) ys
  Follows-try why r f ys k =
      Follows-bind (try l why r) f [] ys (unfold try in Follows-pure _)
        λ a e. k a (map_err-ok why r (unfold try in e))

  Follows-step :
      {B : Type 0} (e : Event l) (f : Unit → Boot l B) (ys : List Phase)
      → Justified e
      → Follows (f tt) ys
      → Follows (Main.◌>>=◌ l (note l e) f) (phase e ∷ ys)
  Follows-step e f ys j k = Follows-bind (note l e) f (phase e ∷ []) ys (Follows-note e j) λ u q. k

  ended-Follows : (addr : l.Addr) (d : Main.Drain l.Error) → Follows (ended l addr d) []
  ended-Follows addr (Main.finished r) = unfold try in Follows-pure _
  ended-Follows addr Main.overran = Follows-pure _

  serve-Follows :
      (env : project_db.Boot.Env) (server : l.Server) (opened : l.Pool)
      → Follows (serve l env server opened) starting
  unfolding serve
  serve-Follows env server opened = Follows-try missing _ _ _ λ metrics _.
      Follows-try address _ _ _ λ metrics_addr _.
        Follows-step (exporter metrics_addr (l.install_prometheus metrics_addr)) _ _ tt (
          Follows-step exported_not_after _ _ tt (
            Follows-try missing _ _ _ λ value _. Follows-try address _ _ _ λ addr _.
              Follows-try boot (Main.shutdown l) _ _ λ u ready.
                Follows-step armed _ _
                  (unfold Main.shutdown in map_err-ok signal_handler l.shutdown ready)
                  (Follows-step (listening addr) _ _ tt
                    (ended-Follows addr (l.drain server opened addr)))))

  probe-Follows :
      (config : project_db.Boot.PoolConfig l.Mode) (credential : l.Secret)
      → Follows (probe l config credential) probing
  unfolding probe
  probe-Follows config credential = Follows-try boot _ _ _ λ options _.
      Follows-try library _ _ _ λ conn _. Follows-step (connected options) _ _ tt (
        Follows-try library _ _ _ λ report _. Follows-try library _ _ _ λ _ meets.
          Follows-step (satisfied report) _ _ meets
            (Follows-try library _ _ _ λ _ _. Follows-note closed tt))

  migrate-Follows :
      (config : project_db.Boot.PoolConfig l.Mode) (credential : l.Secret) (lock : l.Lock)
      → Follows (migrate l config credential lock) migrating
  unfolding migrate
  migrate-Follows config credential lock = Follows-try library _ _ _ λ opened _.
      Follows-step pooled _ _ tt (
        Follows-try library _ _ _ λ set _. Follows-try library _ _ _ λ applied done.
          Follows-step (migrated applied) _ _ (opened, set, lock, done) (Follows-pure _))

  -- Whatever the environment holds and the libraries answer, what the boot has done is a beginning of
  -- one sequence: secret read, files hashed, engine reached, capabilities found, probe closed, pool
  -- opened, schema migrated, metrics exporter, leaf age, signals armed, serving; it is the whole
  -- sequence when the run ends without a refusal; and the capabilities, the schema and the signals are
  -- each recorded only after the library has answered so.
  pub run-Follows : (env : project_db.Boot.Env) → Follows (run l env) sequence
  unfolding run
  run-Follows env = Follows-try boot _ _ _ λ config _. Follows-try boot _ _ _ λ lock _.
      Follows-try boot _ _ _ λ tls _. Follows-try boot _ _ _ λ limits _.
        Follows-try boot _ _ _ λ server _. Follows-try missing _ _ _ λ password _.
          Follows-try library _ _ _ λ credential _. Follows-step (read_secret password) _ _ tt (
            Follows-step (hashed (Main.watch_set l tls password config.ssl_ca l.mounted)) _ _ tt (
              Follows-try library _ _ _ λ schedule _.
                Follows-bind (probe l config credential) _ probing (migrating ++ starting)
                  (probe-Follows config credential)
                  λ _ _.
                    Follows-bind (migrate l config credential lock) _ migrating starting
                      (migrate-Follows config credential lock)
                      λ opened _. serve-Follows env server opened))
