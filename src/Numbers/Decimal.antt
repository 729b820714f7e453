-- ===== src/Numbers/Decimal.antt =====
-- Numbers in decimal are read back.
use Prim.Native.Nat.{◌^◌, ◌/◌, ◌%◌}
use project_db.Base.{
  ℕ, zero, suc, ◌+◌, ◌-◌, ◌*◌, ◌≤◌, ◌<◌, Text, ◌≡◌, ap, ◌∙◌, true, false, inl, inr, Bool-cases, [],
  ◌∷◌, ltb, ◌==◌, arith,
}
use project_db.Status.{ok}
use project_db.Numbers.{
  ParseIntError, pos_overflow, digits, is_digit, parse_unsigned, decimal_on, decimal,
}

-- A digit extends what was read by itself.
digits-cons :
    (most : ℕ) (over : ParseIntError) (n d : ℕ) (cs : Text)
    → d < 10
    → n * 10 + d ≤ most
    → digits most over n ((b'0' + d) ∷ cs) ≡ digits most over (n * 10 + d) cs
unfolding digits
digits-cons most over n d cs small le = let e : 48 + d - 48 ≡ d = omega arith in rw e (ground arith)

-- What was written in front is read first.
digits-decimal_on :
    (most : ℕ) (over : ParseIntError) (fuel n : ℕ) (text : Text)
    → n < fuel
    → n ≤ most
    → digits most over 0 (decimal_on fuel n text) ≡ digits most over n text
unfolding decimal_on
digits-decimal_on most over zero n text h le = absurd (omega arith)
digits-decimal_on most over (suc fuel) n text h le = elim (Bool-cases (ltb n 10)) [
  | inl small ↦ rw small (
      digits-cons most over 0 n text (ground arith) (omega arith)
      ∙ ap (λ k. digits most over k text) (omega arith))
  | inr large ↦
      let ten : 10 ≤ n = ground arith in
      let whole : n / 10 * 10 + n % 10 ≡ n = omega arith in
      rw large (
        digits-decimal_on most over fuel (n / 10) ((b'0' + n % 10) ∷ text) (omega arith)
          (omega arith)
        ∙ digits-cons most over (n / 10) (n % 10) text (omega arith) (omega arith)
        ∙ ap (λ k. digits most over k text) whole)
]

-- A decimal form starts with a digit.
abbrev StartsWithDigit : Text → Type 0
StartsWithDigit [] = ⊥
StartsWithDigit (c ∷ cs) = is_digit c ≡ true

decimal_on-StartsWithDigit :
    (fuel n : ℕ) (text : Text) → n < fuel → StartsWithDigit (decimal_on fuel n text)
unfolding decimal_on
decimal_on-StartsWithDigit zero n text h = absurd (omega arith)
decimal_on-StartsWithDigit (suc fuel) n text h = elim (Bool-cases (ltb n 10)) [
  | inl small ↦ rw (small, StartsWithDigit) (ground arith)
  | inr large ↦
      let ten : 10 ≤ n = ground arith in
      rw (large, StartsWithDigit)
        (decimal_on-StartsWithDigit fuel (n / 10) ((b'0' + n % 10) ∷ text) (omega arith))
]

parse-digits :
    (bits : ℕ) (s : Text) (n : ℕ)
    → StartsWithDigit s
    → digits (2 ^ bits - 1) pos_overflow 0 s ≡ ok n
    → parse_unsigned bits s ≡ ok n
unfolding parse_unsigned
parse-digits bits [] n h k = absurd h
parse-digits bits (c ∷ cs) n h k = let other : (c == b'+') ≡ false = ground arith in rw other k

-- Every number that fits a width is read back from its decimal form.
pub parse_unsigned-decimal :
    (bits n : ℕ) → n ≤ 2 ^ bits - 1 → parse_unsigned bits (decimal n) ≡ ok n
unfolding decimal digits
parse_unsigned-decimal bits n h =
    parse-digits bits (decimal n) n (decimal_on-StartsWithDigit (suc n) n [] (omega arith))
      (digits-decimal_on (2 ^ bits - 1) pos_overflow (suc n) n [] (omega arith) h)
