-- ===== src/Schema/Reruns.antt =====
-- Migrations that a boot may run again after they stopped half way: src/schema.rs.
use project_db.Base.{
  codes, ℕ, ◌≤◌, Text, text_eq, text_eq_iff, ◌≡◌, refl, sym, ap, ◌∙◌, subst, inl, inr, true,
  Bool-cases, opposed, both_true, ◌==◌, ==_iff, List, ◌++◌, any, In, arith,
}
use project_db.Status.{Result, ok}
use project_db.Schema.Alter.{
  ok_eq, not_ok, Named, Idempotent, alter-settles, alter-spares, altering-ok, altering-quiet,
}
use project_db.Schema.Columns.{self_named, any-append_last, longer}
use project_db.Schema.Clauses.{
  modified-Named, modified-Idempotent, widened-Named, widened-Idempotent, constrained-Named,
  constrained-Idempotent, widened-constrained, constrained-constrained,
}
use project_db.Schema.Migrations.{
  Migration, pin_the_path_collation, project_sync_lock, project_class_columns, project_class,
  project_class_path, class_columns, all,
}
use project_db.Schema.{
  Table, Database, DdlError, Contents, Statement, create_table, insert_ignore, is_table, is_seed,
  altering, execute, run,
}
use project_db.Schema.Stable.{Quiet, Settles, Spares, Stable, rerun}

module _ (x : Contents) where
  -- An alteration that keeps the table's name and may be repeated.
  alter_settles :
      (n : Text) (f : Table → Result DdlError Table)
      → Named f
      → Idempotent f
      → (d e : Database) → altering n f d ≡ ok e
      → altering n f e ≡ ok e
  alter_settles n f named again d e h =
      altering-quiet n f e
        (alter-settles n f named again d.tables e.tables (altering-ok n f d e h).0)

  alter_spares :
      (n : Text) (f : Table → Result DdlError Table) (m : Text) (g : Table → Result DdlError Table)
      → Named g
      → ((t u : Table) → n ≡ m → f t ≡ ok t → g t ≡ ok u → f u ≡ ok u)
      → (d e : Database) → altering n f d ≡ ok d
      → altering m g d ≡ ok e
      → altering n f e ≡ ok e
  alter_spares n f m g named both d e h k = altering-quiet n f e (
      alter-spares n f m g named both d.tables e.tables (altering-ok n f d d h).0
        (altering-ok m g d e k).0)

  create_table-Settles : (t : Table) → Settles x (create_table true t)
  unfolding execute
  create_table-Settles t d e h = elim (Bool-cases (any (is_table t.name) d.tables)) [
    | inl there ↦ subst (Quiet x (create_table true t)) (ok_eq (rw there at h)) (rw there)
    | inr new ↦
        subst (Quiet x (create_table true t)) (ok_eq (rw new at h))
          (rw (any-append_last (is_table t.name) d.tables t (self_named t.name)))
  ]

  insert_ignore-Settles : (n : Text) (v : ℕ) → Settles x (insert_ignore n v)
  unfolding execute
  insert_ignore-Settles n v d e h = elim (Bool-cases (any (is_table n) d.tables)) [
    | inr gone ↦ absurd (not_ok (rw gone at h))
    | inl there ↦ elim (Bool-cases (any (is_seed n v) d.seeded)) [
      | inl held ↦
          subst (Quiet x (insert_ignore n v)) (ok_eq (rw (there, held) at h)) (rw (there, held))
      | inr new ↦
          subst (Quiet x (insert_ignore n v)) (ok_eq (rw (there, new) at h))
            (rw (there, any-append_last (is_seed n v) d.seeded (n, v) own))
    ]
  ]
    where
      own : is_seed n v (n, v) ≡ true
      own = both_true (text_eq n n) (v == v) (self_named n) ((==_iff v v).1 refl)

  create_table-there :
      (t : Table) (d : Database)
      → Quiet x (create_table true t) d
      → any (is_table t.name) d.tables ≡ true
  unfolding execute
  create_table-there t d h = elim (Bool-cases (any (is_table t.name) d.tables)) [
    | inl there ↦ there
    | inr new ↦ absurd (longer d.tables t (ap (λ (y : Database). y.tables) (ok_eq (rw new at h))))
  ]

  insert_ignore-tables :
      (n : Text) (v : ℕ) (d e : Database)
      → execute x (insert_ignore n v) d ≡ ok e
      → e.tables ≡ d.tables
  unfolding execute
  insert_ignore-tables n v d e h = elim (Bool-cases (any (is_table n) d.tables)) [
    | inr gone ↦ absurd (not_ok (rw gone at h))
    | inl there ↦ elim (Bool-cases (any (is_seed n v) d.seeded)) [
      | inl held ↦ ap (λ (y : Database). y.tables) (sym (ok_eq (rw (there, held) at h)))
      | inr new ↦ ap (λ (y : Database). y.tables) (sym (ok_eq (rw (there, new) at h)))
    ]
  ]

  -- A row inserted leaves the tables.
  create_table-Spares :
      (t : Table) (n : Text) (v : ℕ) → Spares x (create_table true t) (insert_ignore n v)
  unfolding execute
  create_table-Spares t n v d e h k =
      rw (ap (any (is_table t.name)) (insert_ignore-tables n v d e k) ∙ create_table-there t d h)

  pin-Stable : Stable x pin_the_path_collation.statements
  unfolding execute
  pin-Stable = (
    alter_settles _ _ (modified-Named x _ _) (modified-Idempotent x _ _),
    (alter_spares _ _ _ _ (modified-Named x _ _) (λ t u same. absurd (apart same)), tt),
    (alter_settles _ _ (modified-Named x _ _) (modified-Idempotent x _ _), tt, tt),
  )
    where
      apart : codes "project" ≡ codes "project_alias" → ⊥
      apart h = opposed ((text_eq_iff (codes "project") (codes "project_alias")).1 h) refl

  class_columns-Stable : Stable x project_class_columns.statements
  unfolding execute
  class_columns-Stable = (
    alter_settles _ _ (widened-Named class_columns) (widened-Idempotent class_columns),
    (
      alter_spares _ _ _ _ (constrained-Named x _ _)
          (λ t u same. widened-constrained x _ project_class class_columns t u),
      (
        alter_spares _ _ _ _ (constrained-Named x _ _)
            (λ t u same. widened-constrained x _ project_class_path class_columns t u),
        tt,
      ),
    ),
    (
      alter_settles _ _ (constrained-Named x _ _) (constrained-Idempotent x _ _),
      (
        alter_spares _ _ _ _ (constrained-Named x _ _)
            (λ t u same. constrained-constrained x _ project_class project_class_path t u),
        tt,
      ),
      (alter_settles _ _ (constrained-Named x _ _) (constrained-Idempotent x _ _), tt, tt),
    ),
  )

  sync_lock-Stable : Stable x project_sync_lock.statements
  sync_lock-Stable =
      (create_table-Settles _, (create_table-Spares _ _ _, tt), (insert_ignore-Settles _ _, tt, tt))

  -- Every migration from the fourth on.
  later-Stable : (m : Migration) → In m all → 4 ≤ m.version → Stable x m.statements
  later-Stable m at late = elim at [
    | inl e ↦ absurd (omega (arith, late, ap (λ (y : Migration). y.version) e))
    | inr (inl e) ↦ absurd (omega (arith, late, ap (λ (y : Migration). y.version) e))
    | inr (inr (inl e)) ↦ absurd (omega (arith, late, ap (λ (y : Migration). y.version) e))
    | inr (inr (inr (inl e))) ↦ subst (λ (y : Migration). Stable x y.statements) (sym e) pin-Stable
    | inr (inr (inr (inr (inl e)))) ↦
        subst (λ (y : Migration). Stable x y.statements) (sym e) sync_lock-Stable
    | inr (inr (inr (inr (inr (inl e))))) ↦
        subst (λ (y : Migration). Stable x y.statements) (sym e) class_columns-Stable
    | inr (inr (inr (inr (inr (inr (inl e)))))) ↦
        subst (λ (y : Migration). Stable x y.statements) (sym e) (create_table-Settles _, tt, tt)
    | inr (inr (inr (inr (inr (inr (inr n)))))) ↦ absurd n
  ]

  -- A migration from the fourth on that stopped after any of its statements, and is run again from
  -- its beginning by the next boot on tables whose rows nobody changed, comes to what it would have
  -- come to without the stop, on whatever schema it began, its refusal included.
  pub later-reruns :
      (m : Migration)
      → In m all
      → 4 ≤ m.version
      → (done rest : List Statement) → m.statements ≡ done ++ rest
      → (d e : Database) → run x done d ≡ ok e
      → run x m.statements e ≡ run x m.statements d
  later-reruns m at late done rest split d e h =
      let stable = subst (Stable x) split (later-Stable m at late) in
      ap (λ ss. run x ss e) split
      ∙ rerun x done rest stable d e h
      ∙ ap (λ ss. run x ss d) (sym split)
