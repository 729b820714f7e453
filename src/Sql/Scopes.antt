-- ===== src/Sql/Scopes.antt =====
-- How wide the request id that `request_id_of` of src/sql.rs yields is.
use project_db.Base.{
  ℕ, zero, suc, ◌+◌, ◌≤◌, Text, length, length-append, take, Option, none, some, [], ◌∷◌, arith,
  ltb, Bool-cases, inl, inr,
}
use project_db.Sql.{capped, request_id_of, request_id_cap, cut_marker}

length-take : (n : ℕ) (s : Text) → length (take n s) ≤ n
length-take zero s = omega arith
length-take (suc n) [] = omega arith
length-take (suc n) (c ∷ s) = omega (arith, length-take n s)

-- Whatever a caller puts in the header, the request id that telemetry records for it has at most
-- the cap's 256 characters and the three of the cut marker.
pub request_id_of-bounds :
    (header : Option Text) → length (request_id_of header) ≤ request_id_cap + 3
unfolding request_id_of capped
request_id_of-bounds none = omega arith
request_id_of-bounds (some v) = elim (Bool-cases (ltb request_id_cap (length v))) [
  | inl over ↦ rw over (
      rw (length-append (take request_id_cap v) cut_marker)
        (omega (arith, length-take request_id_cap v)))
  | inr fits ↦ rw fits (ground arith)
]
