-- ===== src/Numbers.antt =====
-- Rust's `str::parse` for whole numbers of a given width, which src/boot.rs and src/boot/lock.rs use,
-- and their decimal form, which `format!` writes in src/service.rs.
pub mod Fits
pub mod Decimal
use Prim.Native.Nat.{◌^◌, ◌/◌, ◌%◌}
use project_db.Base.{
  ℕ, zero, suc, ◌+◌, ◌-◌, ◌*◌, Text, Bool, ◌&&◌, List, [], ◌∷◌, ltb, leb, ◌==◌, if◌then◌else◌,
}
use project_db.Base.Int.{ℤ, pos, negsuc}
use project_db.Status.{Result, ok, err, map_err}

-- `core::num::IntErrorKind`
pub data ParseIntError : Type 0 where
  empty invalid_digit pos_overflow neg_overflow : ParseIntError

abbrev pub is_digit : ℕ → Bool
is_digit c = leb b'0' c && leb c b'9'

-- The loop over the digits: a magnitude that must not pass `most`, with the error for one that does.
unfoldable pub digits : ℕ → ParseIntError → ℕ → Text → Result ParseIntError ℕ
digits most over n [] = ok n
digits most over n (c ∷ cs) =
    let rest = digits most over (n * 10 + (c - b'0')) cs in
    if is_digit c
    then if leb (n * 10 + (c - b'0')) most then rest else err over
    else err invalid_digit

abbrev pub unsigned_digits : ℕ → Text → Result ParseIntError ℕ
unsigned_digits most [] = err invalid_digit
unsigned_digits most (c ∷ cs) = digits most pos_overflow 0 (c ∷ cs)

-- `parse` into an unsigned type of `bits` bits: one leading plus is taken.
unfoldable pub parse_unsigned : ℕ → Text → Result ParseIntError ℕ
unfolding digits
parse_unsigned bits [] = err empty
parse_unsigned bits (c ∷ cs) =
    if c == b'+' then unsigned_digits (2 ^ bits - 1) cs else unsigned_digits (2 ^ bits - 1) (c ∷ cs)

abbrev pub negated : ℕ → ℤ
negated zero = pos 0
negated (suc n) = negsuc n

abbrev pub signed_digits : ℕ → ParseIntError → (ℕ → ℤ) → Text → Result ParseIntError ℤ
signed_digits most over sign [] = err invalid_digit
signed_digits most over sign (c ∷ cs) = elim (digits most over 0 (c ∷ cs)) [
  | err e ↦ err e
  | ok n ↦ ok (sign n)
]

-- `parse` into an `i32`: one leading sign is taken.
unfoldable pub parse_i32 : Text → Result ParseIntError ℤ
unfolding digits
parse_i32 [] = err empty
parse_i32 (c ∷ cs) =
    if c == b'+'
    then signed_digits 2147483647 pos_overflow pos cs
    else if c == b'-'
    then signed_digits 2147483648 neg_overflow negated cs
    else signed_digits 2147483647 pos_overflow pos (c ∷ cs)

-- The digits of a number before those that are there; a number is at least as large as the count of
-- its digits less one, so its successor is fuel enough.
unfoldable pub decimal_on : ℕ → ℕ → Text → Text
decimal_on zero n text = text
decimal_on (suc fuel) n text =
    let more = decimal_on fuel (n / 10) ((b'0' + n % 10) ∷ text) in
    if ltb n 10 then (b'0' + n) ∷ text else more

unfoldable pub decimal : ℕ → Text
unfolding decimal_on
decimal n = decimal_on (suc n) n []
