-- ===== src/Tests/Plans.antt =====
-- Grants declared and stored.
use project_db.Base.{ℕ, Text, codes, In, All, ◌≡◌, refl, ◌↔◌, List, [], ◌∷◌}
use project_db.Base.Distinct.{Distinct}
use project_db.Status.{ok}
use project_db.Grants
use project_db.Grants.Exact.{IsGrant, validate-IsGrant}
use project_db.Grants.Planned.{size, Undeclared, plan-Undeclared}
use project_db.Tests.Fixtures.{web_row}
use project_db.Tests.Writes.{rows}

abbrev stored_grants : List Grants.StoredGrant
stored_grants =
    record {
      project_id = codes "p2";
      path = codes "acme/web";
      team_id = codes "yadgar:team:core";
      level = 1;
    }
    ∷ record {
      project_id = codes "p2";
      path = codes "acme/web";
      team_id = codes "yadgar:team:ops";
      level = 2;
    }
    ∷ []

plan-Undeclared_example :
    (size (Grants.plan rows stored_grants) ≡ 2)
    × ((d : Text × Text)
        → In d (Grants.plan rows stored_grants).deletes ↔ Undeclared rows stored_grants d)
plan-Undeclared_example = plan-Undeclared rows stored_grants

web_grants : Grants.validate web_row ≡ ok ((codes "yadgar:team:core", 2) ∷ [])
unfolding Grants.validate
web_grants = refl

validate-IsGrant_example :
    All IsGrant ((codes "yadgar:team:core", 2) ∷ [])
    × Distinct (λ (g : Text × ℕ). g.0) ((codes "yadgar:team:core", 2) ∷ [])
validate-IsGrant_example = validate-IsGrant web_row web_grants
