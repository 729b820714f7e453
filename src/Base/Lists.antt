-- ===== src/Base/Lists.antt =====
-- Lists over the native numbers: measures, searches with Boolean tests, membership.
use Prim.Native.Nat.{ℕ, zero, suc, ◌+◌, ◌≤◌}
use mathlib.Core.Path.{◌≡◌, refl, sym, ap, ◌∙◌, subst}
use mathlib.Core.Logic.{◌⊎◌, inl, inr}
use mathlib.Core.Bool.{Bool, true, false, ◌&&◌, ◌||◌}
use mathlib.Core.List.{List, [], ◌∷◌, ◌++◌, map}
use mathlib.Core.Option.{Option, none, some}
use native.Mathlib.Omega.{arith}
use project_db.Base.Tests.{if◌then◌else◌, Bool-cases, Option-cases}

module _ {ℓ} {A : Type ℓ} where
  abbrev pub length : List A → ℕ
  length [] = 0
  length (x ∷ xs) = suc (length xs)

  abbrev pub take : ℕ → List A → List A
  take zero xs = []
  take (suc n) [] = []
  take (suc n) (x ∷ xs) = x ∷ take n xs

  abbrev pub any : (A → Bool) → List A → Bool
  any p [] = false
  any p (x ∷ xs) = p x || any p xs

  abbrev pub all : (A → Bool) → List A → Bool
  all p [] = true
  all p (x ∷ xs) = p x && all p xs

  -- `iter().filter(p)`
  abbrev pub keep : (A → Bool) → List A → List A
  keep p [] = []
  keep p (x ∷ xs) = if p x then x ∷ keep p xs else keep p xs

  -- `iter().find(p)`
  abbrev pub find : (A → Bool) → List A → Option A
  find p [] = none
  find p (x ∷ xs) = if p x then some x else find p xs

  -- The entry that a map collected from the list holds under a key: the last one that fits.
  abbrev pub find_last : (A → Bool) → List A → Option A
  find_last p [] = none
  find_last p (x ∷ xs) = elim (find_last p xs) [
    | some y ↦ some y
    | none ↦ if p x then some x else none
  ]

  pub length-append : (xs ys : List A) → length (xs ++ ys) ≡ length xs + length ys
  length-append [] ys = omega arith
  length-append (x ∷ xs) ys = omega (arith, length-append xs ys)

  pub length-keep : (p : A → Bool) (xs : List A) → length (keep p xs) ≤ length xs
  length-keep p [] = omega arith
  length-keep p (x ∷ xs) = ground (arith, length-keep p xs)

-- Membership and "for all" by recursion: they compute to sums and tuples.
abbrev pub In : {A : Type 0} → A → List A → Type 0
In a [] = ⊥
In a (x ∷ xs) = (a ≡ x) ⊎ In a xs

module _ {ℓ κ} {A : Type ℓ} (P : A → Type κ) where
  abbrev pub All : List A → Type κ
  All [] = Unit
  All (x ∷ xs) = P x × All xs

module _ {A : Type 0} where
  pub All-In : (P : A → Type 0) (xs : List A) → All P xs → (a : A) → In a xs → P a
  All-In P [] h a m = absurd m
  All-In P (x ∷ xs) h a (inl e) = subst P (sym e) h.0
  All-In P (x ∷ xs) h a (inr m) = All-In P xs h.1 a m

  pub In-All : (P : A → Type 0) (xs : List A) → ((a : A) → In a xs → P a) → All P xs
  In-All P [] h = tt
  In-All P (x ∷ xs) h = (h x (inl refl), In-All P xs (λ a m. h a (inr m)))

  pub In-append_left : (a : A) (xs ys : List A) → In a xs → In a (xs ++ ys)
  In-append_left a [] ys m = absurd m
  In-append_left a (x ∷ xs) ys (inl e) = inl e
  In-append_left a (x ∷ xs) ys (inr m) = inr (In-append_left a xs ys m)

  pub In-append_right : (a : A) (xs ys : List A) → In a ys → In a (xs ++ ys)
  In-append_right a [] ys m = m
  In-append_right a (x ∷ xs) ys m = inr (In-append_right a xs ys m)

  pub In-append_cases : (a : A) (xs ys : List A) → In a (xs ++ ys) → In a xs ⊎ In a ys
  In-append_cases a [] ys m = inr m
  In-append_cases a (x ∷ xs) ys (inl e) = inl (inl e)
  In-append_cases a (x ∷ xs) ys (inr m) = elim (In-append_cases a xs ys m) [
    | inl l ↦ inl (inr l)
    | inr r ↦ inr r
  ]

  pub In-map : {B : Type 0} (f : A → B) (a : A) (xs : List A) → In a xs → In (f a) (map f xs)
  In-map f a [] m = absurd m
  In-map f a (x ∷ xs) (inl e) = inl (ap f e)
  In-map f a (x ∷ xs) (inr m) = inr (In-map f a xs m)

  -- What `keep` keeps passes the test and was in the list, and the other way round.
  pub In-keep : (p : A → Bool) (a : A) (xs : List A) → In a xs → p a ≡ true → In a (keep p xs)
  In-keep p a [] m h = absurd m
  In-keep p a (x ∷ xs) (inl e) h = rw (ap p (sym e) ∙ h) (inl e)
  In-keep p a (x ∷ xs) (inr m) h = elim (Bool-cases (p x)) [
    | inl t ↦ rw t (inr (In-keep p a xs m h))
    | inr f ↦ rw f (In-keep p a xs m h)
  ]

  pub In_of_keep : (p : A → Bool) (a : A) (xs : List A) → In a (keep p xs) → In a xs × (p a ≡ true)
  In_of_keep p a [] m = absurd m
  In_of_keep p a (x ∷ xs) m = elim (Bool-cases (p x)) [
    | inr f ↦ let r = In_of_keep p a xs (rw f at m) in (inr r.0, r.1)
    | inl t ↦
        let m' : (a ≡ x) ⊎ In a (keep p xs) = rw t at m in
        elim m' [
          | inl e ↦ (inl e, ap p e ∙ t)
          | inr r ↦ let q = In_of_keep p a xs r in (inr q.0, q.1)
        ]
  ]

  pub any_of_In : (p : A → Bool) (a : A) (xs : List A) → In a xs → p a ≡ true → any p xs ≡ true
  any_of_In p a [] m h = absurd m
  any_of_In p a (x ∷ xs) (inl e) h = rw (ap p (sym e) ∙ h)
  any_of_In p a (x ∷ xs) (inr m) h = ground (arith, any_of_In p a xs m h)

  pub In_of_any : (p : A → Bool) (xs : List A) → any p xs ≡ true → (a : A) × In a xs × (p a ≡ true)
  In_of_any p [] h = cc
  In_of_any p (x ∷ xs) h = elim (Bool-cases (p x)) [
    | inl t ↦ (x, inl refl, t)
    | inr f ↦ let r = In_of_any p xs (rw f at h) in (r.0, inr r.1, r.2)
  ]

  pub In_of_find :
      (p : A → Bool) (xs : List A) {a : A} → find p xs ≡ some a → In a xs × (p a ≡ true)
  In_of_find p [] h = cc
  In_of_find p (x ∷ xs) {a} h = elim (Bool-cases (p x)) [
    | inl t ↦ let e : x ≡ a = ground arith in (inl (sym e), ap p (sym e) ∙ t)
    | inr f ↦ let r = In_of_find p xs (rw f at h) in (inr r.0, r.1)
  ]

  pub In_of_find_last :
      (p : A → Bool) (xs : List A) {a : A} → find_last p xs ≡ some a → In a xs × (p a ≡ true)
  In_of_find_last p [] h = cc
  In_of_find_last p (x ∷ xs) {a} h = elim (Option-cases (find_last p xs)) [
    | inr (y, e) ↦
        let q = In_of_find_last p xs e in
        let same : y ≡ a = ground arith in
        (inr (subst (λ z. In z xs) same q.0), ap p (sym same) ∙ q.1)
    | inl e ↦ elim (Bool-cases (p x)) [
      | inl t ↦ let same : x ≡ a = ground arith in (inl (sym same), ap p (sym same) ∙ t)
      | inr f ↦ absurd (ground arith)
    ]
  ]

  pub find_last-none :
      (p : A → Bool) (xs : List A) → find_last p xs ≡ none → (a : A) → In a xs → p a ≡ false
  find_last-none p [] h a m = absurd m
  find_last-none p (x ∷ xs) h a m = elim (Option-cases (find_last p xs)) [
    | inr (y, e) ↦ absurd (ground arith)
    | inl e ↦ elim (Bool-cases (p x)) [
      | inl t ↦ absurd (ground arith)
      | inr f ↦ elim m [ inl q ↦ ap p q ∙ f | inr m' ↦ find_last-none p xs e a m' ]
    ]
  ]

module _ {A : Type 0} where
  -- Two tests that agree on a list keep the same of it.
  pub keep-cong :
      (p q : A → Bool) (xs : List A) → ((x : A) → In x xs → p x ≡ q x) → keep p xs ≡ keep q xs
  keep-cong p q [] h = refl
  keep-cong p q (x ∷ xs) h =
      let rest = keep-cong p q xs (λ y m. h y (inr m)) in rw (h x (inl refl), rest)

  pub keep-keep : (p q : A → Bool) (xs : List A) → keep p (keep q xs) ≡ keep (λ x. q x && p x) xs
  keep-keep p q [] = refl
  keep-keep p q (x ∷ xs) = elim (Bool-cases (q x)) [
    | inr out ↦ rw out (keep-keep p q xs)
    | inl into ↦ elim (Bool-cases (p x)) [
      | inl t ↦ rw (into, t, keep-keep p q xs)
      | inr f ↦ rw (into, f) (keep-keep p q xs)
    ]
  ]

  pub length-map : {B : Type 0} (f : A → B) (xs : List A) → length (map f xs) ≡ length xs
  length-map f [] = refl
  length-map f (x ∷ xs) = ap suc (length-map f xs)
