-- ===== src/Pooled/Begin.antt =====
-- `Pooled::begin` and `Drop` of src/pooled.rs: what the server holds when a connection goes back.
use project_db.Base.{
  Bool, true, false, Bool-cases, opposed, ◌≡◌, refl, ◌⊎◌, inl, inr, if◌then◌else◌,
}

-- A pooled connection: the mark that it is closed on drop, whether a BEGIN was issued that has not
-- returned, whether sqlx counts a transaction, and whether the server holds the connection inside
-- one. The last three are what sqlx and the server do; the program keeps only the mark.
pub record Pooled : Type 0 where
  pub armed : Bool
  pub issued : Bool
  pub counted : Bool
  pub in_transaction : Bool

-- `Pooled::new`
abbrev pub taken : Pooled
taken = record { armed = false; issued = false; counted = false; in_transaction = false }

-- `begin` up to its await: the mark is set and the BEGIN issued.
unfoldable pub call_begin : Pooled → Pooled
call_begin p = record p { armed = true; issued = true }

-- `begin` after its await: sqlx has counted the transaction, and the mark is cleared.
unfoldable pub end_begin : Pooled → Pooled
end_begin p = record p { armed = false; issued = false; counted = true }

-- What may happen while a call holds the connection, which may be dropped after any of it. The
-- server may act on an issued BEGIN at any time until it has returned, and a BEGIN that fails stays
-- issued, since what the server did with it is unknown.
pub data Step : Pooled → Pooled → Type 0 where
  begins : (p : Pooled) → p.counted ≡ false → Step p (call_begin p)
  server_begins : (p : Pooled) → p.issued ≡ true → Step p (record p { in_transaction = true })
  begin_returns : (p : Pooled) → p.issued ≡ true → p.in_transaction ≡ true → Step p (end_begin p)
  finish :
      (p : Pooled)
      → p.counted ≡ true
      → Step p (record p { counted = false; in_transaction = false })

pub data Reach : Pooled → Type 0 where
  start : Reach taken
  next : {p q : Pooled} → Reach p → Step p q → Reach q

-- Where a dropped connection ends: closed, or back in the pool, after the rollback that sqlx
-- queues when it counts a transaction.
pub data Fate : Type 0 where
  closed : Fate
  pooled : (in_transaction : Bool) → Fate

unfoldable pub drop : Pooled → Fate
drop p = if p.armed then closed else pooled (if p.counted then false else p.in_transaction)

-- A BEGIN in flight is marked, and the server holds a transaction only of a BEGIN in flight or one
-- that sqlx counts.
record IsKept (p : Pooled) : Type 0 where
  marked : p.issued ≡ true → p.armed ≡ true
  known : p.in_transaction ≡ true → (p.issued ≡ true) ⊎ (p.counted ≡ true)

Step-IsKept : {p q : Pooled} → Step p q → IsKept p → IsKept q
unfolding call_begin end_begin
Step-IsKept (begins p h) k = record { marked = λ _. refl; known = λ _. inl refl }
Step-IsKept (server_begins p h) k = record { marked = k.marked; known = λ _. inl h }
Step-IsKept (begin_returns p h i) k = record { marked = λ e. cc; known = λ _. inr refl }
Step-IsKept (finish p h) k = record { marked = k.marked; known = λ e. cc }

Reach-IsKept : {p : Pooled} → Reach p → IsKept p
Reach-IsKept start = record { marked = λ e. cc; known = λ e. cc }
Reach-IsKept (next r s) = Step-IsKept s (Reach-IsKept r)

-- Where a connection in that state ends.
clean : {p : Pooled} → IsKept p → (drop p ≡ closed) ⊎ (drop p ≡ pooled false)
unfolding drop
clean {p} k = elim (Bool-cases p.armed) [
  | inl armed ↦ inl (rw armed)
  | inr unmarked ↦ elim (Bool-cases p.counted) [
    | inl counted ↦ inr (rw (unmarked, counted))
    | inr free ↦ elim (Bool-cases p.in_transaction) [
      | inr out ↦ inr (rw (unmarked, free, out))
      | inl held ↦ elim (k.known held) [
        | inl issued ↦ absurd (opposed (k.marked issued) unmarked)
        | inr counted ↦ absurd (opposed counted free)
      ]
    ]
  ]
]

-- However far a call has come when it is dropped, in or around its BEGIN, and whatever the server has
-- done with that BEGIN, its connection is closed or goes back outside every transaction.
pub drop_clean : {p : Pooled} → Reach p → (drop p ≡ closed) ⊎ (drop p ≡ pooled false)
drop_clean r = clean (Reach-IsKept r)
