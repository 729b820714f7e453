-- ===== src/Sql/Holes.antt =====
-- The marks that `holes` of src/sql.rs renders for an `IN` list.
use project_db.Base.{ℕ, zero, suc, ◌*◌, ◌≡◌, refl, ap, length, keep, ◌==◌, arith}
use project_db.Sql.{holes}

-- As many marks as bound values, and two characters between each and the next.
holes-length :
    (n : ℕ)
    → (length (keep (λ c. c == b'?') (holes n)) ≡ n) × (length (holes (suc n)) ≡ suc (n * 3))
holes-length zero = (refl, refl)
holes-length (suc zero) = (refl, refl)
holes-length (suc (suc n)) =
    let (marks, wide) = holes-length (suc n) in (ap suc marks, omega (arith, wide))
