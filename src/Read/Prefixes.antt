-- ===== src/Read/Prefixes.antt =====
-- Texts above one path by whole segments, and their lengths in bytes.
use project_db.Base.{
  ℕ, ◌+◌, ◌<◌, Text, slash, utf8_len, lower, to_ascii_lowercase, byte_len, ◌≡◌, refl, sym, ap, ◌∙◌,
  ◌⊎◌, inl, inr, true, [], ◌∷◌, ◌++◌, arith,
}
use project_db.Engine.{ci_eq}
use project_db.Engine.Fold.{ci_eq_iff}
use project_db.Path.Ancestors.{IsAbove}

-- Two texts above one path lie above one another.
comparable :
    (q r t u : Text) → q ++ slash ∷ t ≡ r ++ slash ∷ u → (q ≡ r) ⊎ IsAbove q r ⊎ IsAbove r q
comparable [] [] t u e = inl refl
comparable [] (d ∷ r) t u e = inr (inl (r, ap (λ (c : ℕ). c ∷ r) (sym (head_of e))))
  where
    head_of : {c d : ℕ} {s t : Text} → ◌≡◌ {A = Text} (c ∷ s) (d ∷ t) → c ≡ d
    head_of h = cc
comparable (c ∷ q) [] t u e = inr (inr (q, ap (λ (d : ℕ). d ∷ q) (head_of e)))
  where
    head_of : {c d : ℕ} {s t : Text} → ◌≡◌ {A = Text} (c ∷ s) (d ∷ t) → c ≡ d
    head_of h = cc
comparable (c ∷ q) (d ∷ r) t u e =
    let (same, rest) = parts e in
    elim (comparable q r t u rest) [
      | inl k ↦ inl (cc (same, k))
      | inr (inl (v, k)) ↦ inr (inl (v, cc (same, k)))
      | inr (inr (v, k)) ↦ inr (inr (v, cc (same, k)))
    ]
  where
    parts : {c d : ℕ} {s t : Text} → ◌≡◌ {A = Text} (c ∷ s) (d ∷ t) → (c ≡ d) × (s ≡ t)
    parts h = (cc, cc)

abbrev pub IsAncestor : Text → Text → Type 0
IsAncestor q p = (q ≡ p) ⊎ IsAbove q p

pub ancestors_comparable :
    (p q r : Text) → IsAncestor q p → IsAncestor r p → (q ≡ r) ⊎ IsAbove q r ⊎ IsAbove r q
ancestors_comparable p q r (inl e) (inl k) = inl (e ∙ sym k)
ancestors_comparable p q r (inl e) (inr (t, k)) = inr (inr (t, e ∙ k))
ancestors_comparable p q r (inr (t, e)) (inl k) = inr (inl (t, k ∙ e))
ancestors_comparable p q r (inr (t, e)) (inr (u, k)) = comparable q r t u (sym e ∙ k)

-- Bytes, as `matched.len()` counts them.
byte_len-append : (s t : Text) → byte_len (s ++ t) ≡ byte_len s + byte_len t
unfolding byte_len
byte_len-append [] t = omega arith
byte_len-append (c ∷ s) t = omega (arith, byte_len-append s t)

pub byte_len-IsAbove : (q p : Text) → IsAbove q p → byte_len q < byte_len p
unfolding byte_len utf8_len
byte_len-IsAbove q p (t, e) = rw e (rw (byte_len-append q (slash ∷ t)) (omega arith))

utf8_len-lower : (c : ℕ) → utf8_len (lower c) ≡ utf8_len c
unfolding utf8_len lower
utf8_len-lower c = ground arith

byte_len-to_ascii_lowercase : (s : Text) → byte_len (to_ascii_lowercase s) ≡ byte_len s
unfolding byte_len to_ascii_lowercase
byte_len-to_ascii_lowercase [] = refl
byte_len-to_ascii_lowercase (c ∷ s) = omega (arith, utf8_len-lower c, byte_len-to_ascii_lowercase s)

pub byte_len-of_ci_eq : (s t : Text) → ci_eq s t ≡ true → byte_len s ≡ byte_len t
byte_len-of_ci_eq s t h =
    sym (byte_len-to_ascii_lowercase s)
    ∙ ap byte_len ((ci_eq_iff s t).0 h)
    ∙ byte_len-to_ascii_lowercase t
