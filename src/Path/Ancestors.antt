-- ===== src/Path/Ancestors.antt =====
-- The chain of ancestors that `ancestors` of src/path.rs yields.
use project_db.Base.{
  ℕ, zero, suc, ◌≤◌, ◌<◌, Text, slash, length, length-append, ◌≡◌, refl, ap, ◌∙◌, ◌↔◌, ◌⊎◌, inl,
  inr, none, some, List, [], ◌∷◌, ◌++◌, In, All, arith, ◌==◌, ==_iff, Bool-cases, Option-cases,
  In-All,
}
use project_db.Path.{before_last_slash, climb, ancestors}

-- Cutting at the last slash loses a slash and what stands behind it.
before_last_slash-cut :
    (p : Text) {r : Text} → before_last_slash p ≡ some r → (t : Text) × (p ≡ r ++ slash ∷ t)
unfolding before_last_slash
before_last_slash-cut [] h = cc
before_last_slash-cut (c ∷ s) {r} h = elim (Option-cases (before_last_slash s)) [
  | inr (q, e) ↦
      let (t, cut) = before_last_slash-cut s e in
      let same : r ≡ c ∷ q = ground arith in (t, cc (same, cut))
  | inl e ↦ elim (Bool-cases (c == slash)) [
    | inl is ↦ let same : r ≡ [] = ground arith in (s, cc (same, (==_iff c slash).0 is))
    | inr isnt ↦ absurd (ground arith)
  ]
]

-- Cutting what has a slash, behind any text.
before_last_slash-append :
    (q t : Text)
    → before_last_slash (q ++ slash ∷ t)
      ≡ elim (before_last_slash t) [ none ↦ some q | some r ↦ some (q ++ slash ∷ r) ]
unfolding before_last_slash
before_last_slash-append [] t = ground arith
before_last_slash-append (c ∷ q) t = ground (arith, before_last_slash-append q t)

pub length-before_last_slash :
    (p : Text) {r : Text} → before_last_slash p ≡ some r → length r < length p
length-before_last_slash p {r} h =
    let (t, cut) = before_last_slash-cut p h in
    rw cut (rw (length-append r (slash ∷ t)) (omega arith))

-- `q` names a project strictly above `p`: `p` is `q`, a slash, and more.
abbrev pub IsAbove : Text → Text → Type 0
IsAbove q p = (t : Text) × (p ≡ q ++ slash ∷ t)

append_assoc_slash : (q t u : Text) → (q ++ slash ∷ t) ++ slash ∷ u ≡ q ++ slash ∷ (t ++ slash ∷ u)
append_assoc_slash [] t u = refl
append_assoc_slash (c ∷ q) t u = ap (λ s. c ∷ s) (append_assoc_slash q t u)

climb-IsAbove : (f : ℕ) (p q : Text) → In q (climb f p) → IsAbove q p
unfolding climb
climb-IsAbove zero p q m = absurd m
climb-IsAbove (suc f) p q m = elim (Option-cases (before_last_slash p)) [
  | inl e ↦ absurd (rw (e, climb) at m)
  | inr (r, e) ↦
      let (t, cut) = before_last_slash-cut p e in
      let m' : (q ≡ r) ⊎ In q (climb f r) = rw (e, climb) at m in
      elim m' [
        | inl same ↦ (t, rw same cut)
        | inr more ↦
            let (u, above) = climb-IsAbove f r q more in
            (u ++ slash ∷ t, cut ∙ ap (λ s. s ++ slash ∷ t) above ∙ append_assoc_slash q u t)
      ]
]

IsAbove-climb : (f : ℕ) (q t : Text) → length (q ++ slash ∷ t) ≤ f → In q (climb f (q ++ slash ∷ t))
unfolding climb
IsAbove-climb zero q t h = absurd (omega (arith, length-append q (slash ∷ t)))
IsAbove-climb (suc f) q t h = elim (Option-cases (before_last_slash t)) [
  | inl e ↦ rw (before_last_slash-append q t, e, climb) (inl refl)
  | inr (r, e) ↦
      rw (before_last_slash-append q t, e, climb)
        (inr (
          IsAbove-climb f q r (
            omega (
              arith,
              length-append q (slash ∷ t),
              length-append q (slash ∷ r),
              length-before_last_slash t e,
            ))))
]

-- Strictly shorter texts follow one another.
abbrev pub Descends : List Text → Type 0
Descends [] = Unit
Descends (p ∷ ps) = All (λ q. length q < length p) ps × Descends ps

climb-shorter : (f : ℕ) (p : Text) → All (λ q. length q < length p) (climb f p)
climb-shorter f p =
    In-All (λ q. length q < length p) (climb f p)
      (λ q m.
        let (t, cut) = climb-IsAbove f p q m in
        rw cut (rw (length-append q (slash ∷ t)) (omega arith)))

climb-Descends : (f : ℕ) (p : Text) → Descends (climb f p)
unfolding climb
climb-Descends zero p = tt
climb-Descends (suc f) p = elim (Option-cases (before_last_slash p)) [
  | inl e ↦ rw (e, climb, Descends) tt
  | inr (r, e) ↦ rw (e, climb, Descends) (climb-shorter f r, climb-Descends f r)
]

-- The chain of a path, whatever its text, holds the path itself and exactly the texts above it by
-- whole segments: never one that merely begins it.
pub mem-ancestors : (path q : Text) → In q (ancestors path) ↔ ((q ≡ path) ⊎ IsAbove q path)
unfolding ancestors
mem-ancestors path q = (
  λ m. elim m [ inl e ↦ inl e | inr more ↦ inr (climb-IsAbove (length path) path q more) ],
  λ h. elim h [
    | inl e ↦ inl e
    | inr (t, e) ↦ inr (rw e (IsAbove-climb (length (q ++ slash ∷ t)) q t (omega arith)))
  ],
)

-- The chain is deepest first: it begins with the path, and every entry is strictly longer than
-- each one behind it, so no two entries are equal.
pub ancestors-Descends : (path : Text) → Descends (ancestors path)
unfolding ancestors
ancestors-Descends path = (climb-shorter (length path) path, climb-Descends (length path) path)
