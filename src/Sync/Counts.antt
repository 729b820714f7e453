-- ===== src/Sync/Counts.antt =====
-- The counts that a sync answers with, and what its two guards let through: src/write/sync.rs and
-- src/write/grants.rs.
use project_db.Base.{
  ℕ, suc, ◌+◌, ◌*◌, ◌≤◌, Text, ◌≡◌, refl, sym, ap, ◌∙◌, subst, ◌⊎◌, inl, inr, Bool, true, false,
  not, ◌&&◌, Bool-cases, Option, none, some, List, [], ◌∷◌, length, keep, keep-keep, In, leb,
  leb→le, arith,
}
use project_db.Status.{Status, Result, ok}
use project_db.Store.Valid.{IsValid}
use project_db.Store.Granted.{IsGranted}
use project_db.Sync.Invariant.{Survives, sync_as-IsValid, sync_as-Survives}
use project_db.Sync.Converge.{Converged}
use project_db.Sync.Outcome.{sync_as-Converged}
use project_db.Sync.Granted.{Granted, sync_as-Granted}
use project_db.Sync.Told.{is_live, is_put_away, is_gone, to_archive-length, deletes-length}
use project_db.Pooled.{Deadline, Pool}
use project_db.Store.{Store, Project, is_org}
use project_db.Tx.{Outside, Conn, pure}
use project_db.Tx.Laws.{>>=-returns}
use project_db.Contract.{SyncProjectsRequest, SyncProjectsResponse}
use project_db.Declared.{Declared}
use project_db.Grants
use project_db.Sync.Request.{validate}
use project_db.Sync.Apply.{
  sync_as, u32, stored_rows, by_key, to_archive, guard, is_active, differs, reactivating, insert,
  overwrite, write_one, write_rows, count_overwritten, no_counts,
}
use project_db.Sync.Ran.{sync_as-Ran}

-- The rows counted, each under one of four heads.
abbrev pub total : SyncProjectsResponse → ℕ
total r = r.inserted + r.updated + r.reactivated + r.unchanged

-- One row more, as counters of 32 bits hold it.
abbrev OneMore : SyncProjectsResponse → SyncProjectsResponse → Type 0
OneMore r q = u32 (total q) ≡ u32 (suc (total r))

counts_overwritten : (b : Bool) (r : SyncProjectsResponse) → OneMore r (count_overwritten b r)
counts_overwritten true r = omega arith
counts_overwritten false r = omega arith

pure-value : {E A : Type 0} {a b : A} {c d : Conn} → pure {E = E} a c ≡ (ok b, d) → a ≡ b
pure-value h = cc (ap (λ p. p.0) h)

module _ (o : Outside) (actor : Text) where
  write_one-OneMore :
      (d : Declared) (found : Option Project) (r : SyncProjectsResponse) (c : Conn)
      {one : Text × SyncProjectsResponse} {c' : Conn}
      → write_one o actor d found r c ≡ (ok one, c')
      → OneMore r one.1
  unfolding write_one
  write_one-OneMore d none r c {one} h =
      let (id, c₁, _, h₁) = >>=-returns (insert o actor d) _ c h in
      subst (λ (x : Text × SyncProjectsResponse). OneMore r x.1) (pure-value h₁) (omega arith)
  write_one-OneMore d (some s) r c {one} h =
      elim (Bool-cases (not (differs d s) && not (reactivating s))) [
        | inl same ↦
            subst (λ (x : Text × SyncProjectsResponse). OneMore r x.1) (pure-value (rw same at h))
              (omega arith)
        | inr changed ↦
            let (_, c₁, _, h₁) = >>=-returns (overwrite o actor d s) _ c (rw changed at h) in
            subst (λ (x : Text × SyncProjectsResponse). OneMore r x.1) (pure-value h₁)
              (counts_overwritten (reactivating s) r)
      ]

  write_rows-total :
      (stored : List Project) (ds : List Declared) (r : SyncProjectsResponse) (c : Conn)
      {all : List (Text × Text) × SyncProjectsResponse} {c' : Conn}
      → write_rows o actor stored ds r c ≡ (ok all, c')
      → u32 (total all.1) ≡ u32 (length ds + total r)
  unfolding write_rows
  write_rows-total stored [] r c h =
      ap (λ (x : List (Text × Text) × SyncProjectsResponse). u32 (total x.1)) (sym (pure-value h))
      ∙ omega arith
  write_rows-total stored (d ∷ ds) r c {all} h =
      let (one, c₁, e₁, h₁) = >>=-returns (write_one o actor d (by_key stored d.key) r) _ c h in
      let (more, c₂, e₂, h₂) = >>=-returns (write_rows o actor stored ds one.1) _ c₁ h₁ in
      let here = write_one-OneMore d (by_key stored d.key) r c e₁ in
      let rest = write_rows-total stored ds one.1 c₁ e₂ in
      ap (λ (x : List (Text × Text) × SyncProjectsResponse). u32 (total x.1)) (sym (pure-value h₂))
      ∙ omega (arith, here, rest)

guard-ok :
    (archiving active_count : ℕ) (allowed : Bool)
    → guard archiving active_count allowed ≡ ok tt
    → (allowed ≡ true) ⊎ (archiving * 2 ≤ active_count)
unfolding guard
guard-ok n m true h = inl refl
guard-ok n m false h = elim (Bool-cases (leb (n * 2) m)) [
  | inl le ↦ inr (leb→le (n * 2) m le)
  | inr more ↦ cc (rw more at h)
]

revoke_guard-ok :
    (deleting stored : ℕ) (allowed : Bool)
    → Grants.revoke_guard deleting stored allowed ≡ ok tt
    → (allowed ≡ true) ⊎ (deleting * 2 ≤ stored)
unfolding Grants.revoke_guard
revoke_guard-ok n m true h = inl refl
revoke_guard-ok n m false h = elim (Bool-cases (leb (n * 2) m)) [
  | inl le ↦ inr (leb→le (n * 2) m le)
  | inr more ↦ cc (rw more at h)
]

-- What the answer to a sync that took the tables from `s` to `t` counts, and the two majorities.
pub record Counted (req : SyncProjectsRequest) (rows : List Declared) (s t : Store)
    (r : SyncProjectsResponse) : Type 0 where
  pub each : u32 (total r) ≡ u32 (length rows)
  pub archived : r.archived ≡ u32 (length (keep (is_put_away t) s.projects))
  pub most_stay :
      (req.allow_mass_archive ≡ true)
      ⊎ (length (keep (is_put_away t) s.projects) * 2 ≤ length (keep is_live s.projects))
  pub revoked : r.grants_deleted ≡ u32 (length (keep (is_gone t) (Grants.stored_of s)))
  pub most_hold :
      (req.allow_mass_revoke ≡ true)
      ⊎ (length (keep (is_gone t) (Grants.stored_of s)) * 2 ≤ length (Grants.stored_of s))

live-length :
    (s : Store) → length (keep is_active (stored_rows s)) ≡ length (keep is_live s.projects)
unfolding stored_rows
live-length s = ap length (keep-keep is_active is_org s.projects)

-- When a sync on valid tables, with the keys of the grants kept, is answered, its four row counters
-- add up to the declared rows, as 32 bits hold them. `archived` counts the organisation's rows that
-- were active before and that the tables after it hold as not active, and `grants_deleted` the
-- grants on organisation's rows before it whose row and team the tables after it hold no grant for;
-- and unless the request allows it, those are no more than half of the organisation's rows that were
-- active, and no more than half of the organisation's grants.
pub sync_as-Counted :
    (o : Outside) (pool : Pool) (caller : Option Text) (req : SyncProjectsRequest)
    (deadline : Deadline) (s t : Store) {response : SyncProjectsResponse}
    → sync_as o pool caller req deadline s ≡ (ok response, t)
    → IsValid s
    → IsGranted s
    → (rows : List Declared) × (validate req ≡ ok rows) × Counted req rows s t response
sync_as-Counted o pool caller req deadline s t {response} h v holds =
    let (actor, rows, valid, ran) = sync_as-Ran o pool caller req deadline s t h in
    let ends = ap (λ p. p.1) h in
    let w : IsValid t = subst IsValid ends (sync_as-IsValid o pool caller req deadline s v) in
    let survive : (r : Project) → In r s.projects → Survives r t =
      λ r m. subst (Survives r) ends (sync_as-Survives o pool caller req deadline s r m) in
    let (rows', valid', converged) = sync_as-Converged o pool caller req deadline s t h v in
    let (rows'', valid'', granted) = sync_as-Granted o pool caller req deadline s t h v holds in
    let met : Converged rows t =
      subst (λ ds. Converged ds t) (same_rows (sym valid' ∙ valid)) converged in
    let held : Granted rows t =
      subst (λ ds. Granted ds t) (same_rows (sym valid'' ∙ valid)) granted in
    let away = to_archive-length rows s t w met survive in
    let gone = deletes-length rows s t w met survive held in
    let stay = guard-ok _ _ req.allow_mass_archive ran.archiving in
    let hold = revoke_guard-ok _ _ req.allow_mass_revoke ran.revoking in
    let sum = write_rows-total o actor (stored_rows s) rows no_counts ran.c₀ ran.wrote in
    (
      rows,
      valid,
      subst (Counted req rows s t) (sym ran.answered) (record {
        each = sum ∙ ap u32 (omega arith);
        archived = ap u32 away;
        most_stay =
            subst
              (λ n. (req.allow_mass_archive ≡ true) ⊎ (n * 2 ≤ length (keep is_live s.projects)))
              away
              (subst
                (λ n.
                  (req.allow_mass_archive ≡ true)
                  ⊎ (length (to_archive rows (stored_rows s)) * 2 ≤ n))
                (live-length s) stay);
        revoked = ap u32 gone;
        most_hold =
            subst (λ n. (req.allow_mass_revoke ≡ true) ⊎ (n * 2 ≤ length (Grants.stored_of s))) gone
              hold;
      }),
    )
  where
    same_rows :
        {a b : List Declared} → ◌≡◌ {A = Result Status (List Declared)} (ok a) (ok b) → a ≡ b
    same_rows h = cc
