-- ===== src/Path/Check.antt =====
-- `is_private_class` of src/path.rs and the CHECK constraint `ck_project_class_path` of src/schema.rs.
use project_db.Base.{
  ℕ, leb, subst, opposed, String, Text, codes, slash, lower, split, ◌≡◌, refl, sym, ◌∙◌, ◌↔◌, ◌⊎◌,
  inl, inr, Bool, true, ◌&&◌, List, [], ◌∷◌, any, In, All, In-All, All-In, Bool-cases, ◌==◌, ==_iff,
  arith,
}
use project_db.Status.{ok}
use project_db.Engine.{
  weight, Token, any_run, any_char, char, suffixes, matches, like_under, like, tokens,
}
use project_db.Engine.Fold.{weight-eq_iff}
use project_db.Path.{is_private_class, validate}
use project_db.Path.Grammar.{
  IsSegmentChar, IsSegment, validate_iff, split_of_slash, split_of_other, All-grow,
}
use project_db.Path.Class.{is_private_class-like}

-- What stands in a path.
abbrev pub IsPathChar : ℕ → Type 0
IsPathChar c = IsSegmentChar c ⊎ (c ≡ slash)

-- A collation that, among the characters that stand in a path, folds ASCII case and nothing else.
abbrev pub FoldsCase : (ℕ → ℕ) → Type 0
FoldsCase w = (c d : ℕ) → IsPathChar c → IsPathChar d → (w c ≡ w d) ↔ (lower c ≡ lower d)

abbrev Plain : Token → Type 0
Plain any_run = Unit
Plain any_char = Unit
Plain (char c) = IsPathChar c

any-cong :
    {A : Type 0} (f g : A → Bool) (xs : List A)
    → ((x : A) → In x xs → f x ≡ g x)
    → any f xs ≡ any g xs
any-cong f g [] h = refl
any-cong f g (x ∷ xs) h = rw (h x (inl refl), any-cong f g xs (λ y m. h y (inr m)))

suffixes-All : (P : ℕ → Type 0) (t : Text) → All P t → (s : Text) → In s (suffixes t) → All P s
unfolding suffixes
suffixes-All P [] h s (inl e) = subst (All P) (sym e) tt
suffixes-All P [] h s (inr m) = absurd m
suffixes-All P (c ∷ t) h s (inl e) = subst (All P) (sym e) h
suffixes-All P (c ∷ t) h s (inr m) = suffixes-All P t h.1 s m

same_test : (a b c d : ℕ) → (a ≡ b) ↔ (c ≡ d) → (a == b) ≡ (c == d)
same_test a b c d (to, from) = elim (Bool-cases (a == b)) [
  | inl t ↦ t ∙ sym ((==_iff c d).1 (to ((==_iff a b).0 t)))
  | inr n ↦ elim (Bool-cases (c == d)) [
    | inr m ↦ n ∙ sym m
    | inl t ↦ absurd (opposed ((==_iff a b).1 (from ((==_iff c d).0 t))) n)
  ]
]

module _ (w : ℕ → ℕ) (folds : FoldsCase w) where
  weight-same : (c d : ℕ) → IsPathChar c → IsPathChar d → (w c == w d) ≡ (weight c == weight d)
  weight-same c d p q =
      let (to, from) = folds c d p q in
      let (into, back) = weight-eq_iff c d in
      same_test (w c) (w d) (weight c) (weight d) (λ e. back (to e), λ e. from (into e))

  matches-same :
      (ts : List Token) (t : Text)
      → All Plain ts
      → All IsPathChar t
      → matches w ts t ≡ matches weight ts t
  unfolding matches
  matches-same [] [] a b = refl
  matches-same [] (d ∷ t) a b = refl
  matches-same (any_run ∷ ts) t a b =
      any-cong (matches w ts) (matches weight ts) (suffixes t)
        (λ s m. matches-same ts s a.1 (suffixes-All IsPathChar t b s m))
  matches-same (any_char ∷ ts) [] a b = refl
  matches-same (any_char ∷ ts) (d ∷ t) a b = matches-same ts t a.1 b.1
  matches-same (char c ∷ ts) [] a b = refl
  matches-same (char c ∷ ts) (d ∷ t) a b = rw (weight-same c d a.0 b.0, matches-same ts t a.1 b.1)

path_chars : (p : Text) → All (All IsSegmentChar) (split p) → All IsPathChar p
path_chars [] h = tt
path_chars (c ∷ s) h = elim (Bool-cases (c == slash)) [
  | inl is ↦ (inr ((==_iff c slash).0 is), path_chars s (rw (split_of_slash c s is) at h).1)
  | inr isnt ↦
      let (one, more) = All-grow c (split s) (rw (split_of_other c s isnt) at h) in
      (inl one, path_chars s more)
]

letter : (c : ℕ) → (leb b'a' c && leb c b'z') ≡ true → IsPathChar c
letter c h = inl (inr (inl (ground arith)))

-- The constraint's pattern.
plain : All Plain (tokens (codes "local/%"))
unfolding tokens
plain = (
  letter b'l' refl,
  (
    letter b'o' refl,
    (letter b'c' refl, (letter b'a' refl, (letter b'l' refl, (inr refl, (tt, tt))))),
  ),
)

-- On every path that validation accepts, and under every collation that folds ASCII case and nothing
-- else among the characters that stand in a path, the program's test for the private class is the
-- one of the table's CHECK constraint, `path LIKE 'local/%'`.
pub is_private_class-like_under :
    (w : ℕ → ℕ)
    → FoldsCase w
    → (what : String) (p : Text) → validate what p ≡ ok tt
    → is_private_class p ≡ like_under w p (codes "local/%")
unfolding like like_under tokens
is_private_class-like_under w folds what p h =
    let path = (validate_iff what p).0 h in
    let chars =
      path_chars p
        (In-All (All IsSegmentChar) (split p) (λ s m. (All-In IsSegment (split p) path.1 s m).3)) in
    is_private_class-like p ∙ sym (matches-same w folds (tokens (codes "local/%")) p plain chars)
