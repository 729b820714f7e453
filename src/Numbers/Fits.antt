-- ===== src/Numbers/Fits.antt =====
-- What a whole number that was parsed satisfies.
use Prim.Native.Nat.{◌^◌}
use project_db.Base.{ℕ, ◌+◌, ◌-◌, ◌*◌, ◌≤◌, Text, ◌≡◌, [], ◌∷◌, arith}
use project_db.Status.{ok}
use project_db.Numbers.{ParseIntError, pos_overflow, digits, unsigned_digits, parse_unsigned}

pub digits-le :
    (most : ℕ) (over : ParseIntError) (n : ℕ) (cs : Text) {k : ℕ}
    → digits most over n cs ≡ ok k
    → n ≤ most
    → k ≤ most
unfolding digits
digits-le most over n [] h le = ground arith
digits-le most over n (c ∷ cs) {k} h le =
    ground (arith, digits-le most over (n * 10 + (c - b'0')) cs {k = k})

unsigned_digits-le : (most : ℕ) (cs : Text) {k : ℕ} → unsigned_digits most cs ≡ ok k → k ≤ most
unsigned_digits-le most [] h = cc
unsigned_digits-le most (c ∷ cs) h = digits-le most pos_overflow 0 (c ∷ cs) h (omega arith)

-- A number that was parsed fits its width.
pub parse_unsigned-le :
    (bits : ℕ) (s : Text) {k : ℕ} → parse_unsigned bits s ≡ ok k → k ≤ 2 ^ bits - 1
unfolding parse_unsigned
parse_unsigned-le bits [] h = cc
parse_unsigned-le bits (c ∷ cs) {k} h = ground (
  arith,
  unsigned_digits-le (2 ^ bits - 1) cs {k = k},
  digits-le (2 ^ bits - 1) pos_overflow 0 (c ∷ cs) {k = k},
)
