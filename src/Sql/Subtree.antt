-- ===== src/Sql/Subtree.antt =====
-- What a `LIKE` with the pattern of `subtree` (src/sql.rs) matches.
use project_db.Base.{
  ℕ, Text, codes, slash, ◌≡◌, refl, ap, ◌↔◌, inl, inr, true, false, List, [], ◌∷◌, ◌++◌, map, any,
  arith, ◌==◌, ==_iff, Bool-cases, and-left, and-right,
}
use project_db.Engine.{
  weight, collate, Token, any_run, char, tokens, suffixes, matches, like_under, like, backslash,
}
use project_db.Sql.{is_meta, like_escape, subtree}

-- `q` lies strictly beneath `p` by whole segments, with ASCII case folded as the column folds it.
pub record IsBeneath (p q : Text) : Type 0 where
  pub root : Text
  pub rest : Text
  pub cut : q ≡ root ++ slash ∷ rest
  pub same : collate root ≡ collate p

tokens_of_plain : (c : ℕ) (p : Text) → is_meta c ≡ false → tokens (c ∷ p) ≡ char c ∷ tokens p
unfolding tokens is_meta
tokens_of_plain c [] h = ground arith
tokens_of_plain c (d ∷ p) h = ground arith

tokens_of_escaped : (c : ℕ) (p : Text) → tokens (backslash ∷ c ∷ p) ≡ char c ∷ tokens p
unfolding tokens
tokens_of_escaped c p = refl

-- Whatever the value holds, its escaped form stands for its characters.
tokens-like_escape : (s rest : Text) → tokens (like_escape s ++ rest) ≡ map char s ++ tokens rest
unfolding like_escape
tokens-like_escape [] rest = refl
tokens-like_escape (c ∷ s) rest = elim (Bool-cases (is_meta c)) [
  | inl meta ↦
      rw (meta, tokens_of_escaped c (like_escape s ++ rest))
        (ap (λ t. char c ∷ t) (tokens-like_escape s rest))
  | inr plain ↦
      rw (plain, tokens_of_plain c (like_escape s ++ rest) plain)
        (ap (λ t. char c ∷ t) (tokens-like_escape s rest))
]

any_suffix : (t : Text) → any (matches weight []) (suffixes t) ≡ true
unfolding suffixes matches
any_suffix [] = refl
any_suffix (c ∷ t) = any_suffix t

abbrev beneath : Text → List Token
beneath p = map char p ++ char slash ∷ any_run ∷ []

weight-slash : (d : ℕ) → weight slash ≡ weight d → d ≡ slash
unfolding weight
weight-slash d h = ground arith

matches-IsBeneath : (p q : Text) → matches weight (beneath p) q ≡ true → IsBeneath p q
unfolding matches collate
matches-IsBeneath [] [] h = cc
matches-IsBeneath [] (d ∷ q) h = record {
  root = [];
  rest = q;
  cut =
      ap (λ (c : ℕ). c ∷ q)
        (weight-slash d ((==_iff (weight slash) (weight d)).0 (and-left _ _ h)));
  same = refl;
}
matches-IsBeneath (c ∷ p) [] h = cc
matches-IsBeneath (c ∷ p) (d ∷ q) h =
    let b = matches-IsBeneath p q (and-right (weight c == weight d) _ h) in
    record {
      root = d ∷ b.root;
      rest = b.rest;
      cut = ap (λ s. d ∷ s) b.cut;
      same = cc ((==_iff (weight c) (weight d)).0 (and-left _ _ h), b.same);
    }

IsBeneath-matches :
    (p root rest : Text)
    → collate root ≡ collate p
    → matches weight (beneath p) (root ++ slash ∷ rest) ≡ true
unfolding matches collate
IsBeneath-matches [] [] rest h = any_suffix rest
IsBeneath-matches [] (d ∷ root) rest h = cc
IsBeneath-matches (c ∷ p) [] rest h = cc
IsBeneath-matches (c ∷ p) (d ∷ root) rest h = ground (arith, IsBeneath-matches p root rest)

-- The pattern of a path matches exactly what lies strictly beneath that path, whatever characters
-- the path has: no `%`, `_` or backslash in it acts as a wildcard.
pub like-subtree_iff : (p q : Text) → (like q (subtree p) ≡ true) ↔ IsBeneath p q
unfolding like like_under subtree tokens
like-subtree_iff p q =
    let tokenised : tokens (subtree p) ≡ beneath p = tokens-like_escape p (codes "/%") in
    (
      λ h. matches-IsBeneath p q (rw tokenised at h),
      λ b. rw (tokenised, b.cut) (IsBeneath-matches p b.root b.rest b.same),
    )
