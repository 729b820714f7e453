-- ===== src/Base/Distinct.antt =====
-- Lists whose entries differ in a key.
use project_db.Base.Lists.{In, All, All-In, In-All, In-append_cases}
use mathlib.Core.Path.{◌≡◌, refl, sym, ap, ◌∙◌}
use mathlib.Core.Logic.{◌≢◌, ◌⊎◌, inl, inr}
use mathlib.Core.List.{List, [], ◌∷◌, ◌++◌}

module _ {A K : Type 0} (key : A → K) where
  abbrev pub Distinct : List A → Type 0
  Distinct [] = Unit
  Distinct (x ∷ xs) = All (λ y. key x ≢ key y) xs × Distinct xs

  -- In such a list a key determines its entry.
  pub Distinct-unique :
      (xs : List A) → Distinct xs → (a b : A) → In a xs → In b xs → key a ≡ key b → a ≡ b
  Distinct-unique [] h a b m n e = absurd m
  Distinct-unique (x ∷ xs) h a b (inl p) (inl q) e = p ∙ sym q
  Distinct-unique (x ∷ xs) h a b (inl p) (inr n) e =
      absurd (All-In (λ y. key x ≢ key y) xs h.0 b n (ap key (sym p) ∙ e))
  Distinct-unique (x ∷ xs) h a b (inr m) (inl q) e =
      absurd (All-In (λ y. key x ≢ key y) xs h.0 a m (ap key (sym q) ∙ sym e))
  Distinct-unique (x ∷ xs) h a b (inr m) (inr n) e = Distinct-unique xs h.1 a b m n e

  pub Distinct-snoc :
      (xs : List A) (a : A)
      → Distinct xs
      → ((x : A) → In x xs → key x ≢ key a)
      → Distinct (xs ++ a ∷ [])
  Distinct-snoc [] a h n = (tt, tt)
  Distinct-snoc (x ∷ xs) a h n = (
    In-All (λ y. key x ≢ key y) (xs ++ a ∷ []) (λ y m. apart y (In-append_cases y xs (a ∷ []) m)),
    Distinct-snoc xs a h.1 (λ y m. n y (inr m)),
  )
    where
      apart : (y : A) → In y xs ⊎ In y (a ∷ []) → key x ≢ key y
      apart y (inl m) = All-In (λ z. key x ≢ key z) xs h.0 y m
      apart y (inr (inl e)) = λ k. n x (inl refl) (k ∙ ap key e)
      apart y (inr (inr m)) = absurd m
