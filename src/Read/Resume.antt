-- ===== src/Read/Resume.antt =====
-- Where the next page of `list` (src/read.rs) starts.
use project_db.Base.{
  ℕ, zero, suc, ◌<◌, Text, length, take, to_ascii_lowercase, ◌≡◌, ◌≢◌, refl, sym, ap, ◌∙◌, Bool,
  true, false, ◌&&◌, Option, List, [], ◌∷◌, map, keep, In, In_of_keep, All, All-In, In-All, arith,
  Bool-cases, and-right, inl, inr,
}
use project_db.Base.Distinct.{Distinct}
use project_db.Engine.{collate}
use project_db.Engine.Fold.{collate-eq_iff}
use project_db.Engine.Order.{
  order_by, ci_lt, ci_lt_trans, ci_lt_irrefl, Ascending, order_by-Ascending,
}
use project_db.Store.{Store, Project}
use project_db.Store.Valid.{IsValid}
use project_db.Read.Projects.{row_to_project}
use project_db.Read.Pages.{is_listed, is_after, scan, last_path, is_empty}

-- What is left behind the first entries.
abbrev pub drop : {A : Type 0} → ℕ → List A → List A
drop zero xs = xs
drop (suc n) [] = []
drop (suc n) (x ∷ xs) = drop n xs

-- The path of the last row of a page, which is the token of the next one.
abbrev pub token_of : List Project → Text
token_of rows = last_path (map row_to_project rows)

keep-All : {A : Type 0} (p : A → Bool) (xs : List A) → All (λ x. p x ≡ true) xs → keep p xs ≡ xs
keep-All p [] h = refl
keep-All p (x ∷ xs) h = rw h.0 (ap (λ ys. x ∷ ys) (keep-All p xs h.1))

keep_keep :
    {A : Type 0} (p q r : A → Bool) (xs : List A)
    → ((x : A) → q x ≡ true → r x ≡ true)
    → keep (λ x. p x && q x) xs ≡ keep q (keep (λ x. p x && r x) xs)
keep_keep p q r [] h = refl
keep_keep p q r (x ∷ xs) h = elim (Bool-cases (q x)) [
  | inl t ↦ elim (Bool-cases (p x)) [
    | inl u ↦ rw (t, u, h x t, t) (ap (λ ys. x ∷ ys) (keep_keep p q r xs h))
    | inr u ↦ rw u (keep_keep p q r xs h)
  ]
  | inr f ↦ elim (Bool-cases (p x && r x)) [
    | inl u ↦ ground (arith, keep_keep p q r xs h)
    | inr u ↦ ground (arith, keep_keep p q r xs h)
  ]
]

abbrev path_of : Project → Text
path_of r = r.path

keep-Ascending :
    (p : Project → Bool) (xs : List Project) → Ascending path_of xs → Ascending path_of (keep p xs)
keep-Ascending p [] h = tt
keep-Ascending p (x ∷ xs) h = elim (Bool-cases (p x)) [
  | inl t ↦
      rw (t, Ascending)
        (
          In-All (λ y. ci_lt x.path (path_of y) ≡ true) (keep p xs)
              (λ y m.
                All-In (λ y. ci_lt x.path (path_of y) ≡ true) xs h.0 y (In_of_keep p y xs m).0),
          keep-Ascending p xs h.1,
        )
  | inr f ↦ rw f (keep-Ascending p xs h.1)
]

-- The token is the path of some row of the page.
pub token_of-In :
    (n : ℕ) (xs : List Project)
    → n < length xs
    → (l : Project) × In l xs × (token_of (take (suc n) xs) ≡ l.path)
unfolding row_to_project
token_of-In n [] h = absurd (omega arith)
token_of-In zero (x ∷ xs) h = (x, inl refl, refl)
token_of-In (suc n) (x ∷ []) h = absurd (omega arith)
token_of-In (suc n) (x ∷ y ∷ xs) h =
    let (l, m, e) = token_of-In n (y ∷ xs) (omega (arith, h)) in (l, inr m, e)

ci_lt-asym : (s t : Text) → ci_lt s t ≡ true → ci_lt t s ≡ false
ci_lt-asym s t h = elim (Bool-cases (ci_lt t s)) [
  | inl k ↦ absurd (cc (ci_lt_trans s t s h k, ci_lt_irrefl s))
  | inr k ↦ k
]

-- In a strictly ascending list, what comes after the last row of a page is what is left.
after_page :
    (n : ℕ) (xs : List Project)
    → n < length xs
    → Ascending path_of xs
    → keep (λ r. ci_lt (token_of (take (suc n) xs)) r.path) xs ≡ drop (suc n) xs
unfolding row_to_project
after_page n [] h a = absurd (omega arith)
after_page zero (x ∷ xs) h a =
    rw (ci_lt_irrefl x.path) (keep-All (λ (r : Project). ci_lt x.path r.path) xs a.0)
after_page (suc n) (x ∷ []) h a = absurd (omega arith)
after_page (suc n) (x ∷ y ∷ xs) h a =
    let (l, m, e) = token_of-In n (y ∷ xs) (omega (arith, h)) in
    let less = All-In (λ z. ci_lt x.path (path_of z) ≡ true) (y ∷ xs) a.0 l m in
    let miss : ci_lt (token_of (take (suc n) (y ∷ xs))) x.path ≡ false =
      ap (λ t. ci_lt t x.path) e ∙ ci_lt-asym x.path l.path less in
    rw miss (after_page n (y ∷ xs) (omega (arith, h)) a.1)

Distinct-collate :
    (xs : List Project)
    → Distinct (λ (r : Project). to_ascii_lowercase r.path) xs
    → Distinct (λ (r : Project). collate r.path) xs
Distinct-collate [] h = tt
Distinct-collate (x ∷ xs) h = (
  In-All (λ (y : Project). collate x.path ≢ collate y.path) xs
      (λ y m e.
        All-In (λ (y : Project). to_ascii_lowercase x.path ≢ to_ascii_lowercase y.path) xs h.0 y m
          ((collate-eq_iff x.path y.path).0 e)),
  Distinct-collate xs h.1,
)

-- The last row of the page lies after the page's own token.
is_after_trans :
    (token last : Text) (r l : Project)
    → l.path ≡ last
    → is_after token l ≡ true
    → ci_lt last r.path ≡ true
    → is_after token r ≡ true
is_after_trans [] last r l e a h = refl
is_after_trans (c ∷ t) last r l e a h =
    ci_lt_trans (c ∷ t) last r.path (ap (ci_lt (c ∷ t)) (sym e) ∙ a) h

is_after-nonempty :
    (token : Text) (r : Project) → is_empty token ≡ false → is_after token r ≡ ci_lt token r.path
is_after-nonempty [] r h = cc
is_after-nonempty (c ∷ t) r h = refl

keep-ext :
    {A : Type 0} (p q : A → Bool) (xs : List A) → ((x : A) → p x ≡ q x) → keep p xs ≡ keep q xs
keep-ext p q [] h = refl
keep-ext p q (x ∷ xs) h = rw (h x, keep-ext p q xs h)

-- On valid tables, when a page of `n + 1` rows leaves rows behind or ends the list, the scan that
-- starts at the path of the page's last row is exactly what the page left: between two pages no row
-- is skipped and none is repeated.
pub scan-resumes :
    (under : Text) (st : Option ℕ) (token : Text) (n : ℕ) (s : Store)
    → IsValid s
    → n < length (scan under st token s)
    → is_empty (token_of (take (suc n) (scan under st token s))) ≡ false
    → scan under st (token_of (take (suc n) (scan under st token s))) s
      ≡ drop (suc n) (scan under st token s)
unfolding scan
scan-resumes under st token n s v h e =
    let rows = order_by path_of s.projects in
    let here = keep (λ r. is_listed under st r && is_after token r) rows in
    let last = token_of (take (suc n) here) in
    let (l, m, at) = token_of-In n here h in
    let fits = (In_of_keep (λ r. is_listed under st r && is_after token r) l rows m).1 in
    let behind = and-right (is_listed under st l) (is_after token l) fits in
    let ascending =
      keep-Ascending (λ r. is_listed under st r && is_after token r) rows
        (order_by-Ascending path_of s.projects (Distinct-collate s.projects v.paths)) in
    keep-ext (λ r. is_listed under st r && is_after last r)
      (λ r. is_listed under st r && ci_lt last r.path) rows
      (λ r. ap (λ b. is_listed under st r && b) (is_after-nonempty last r e))
    ∙ keep_keep (is_listed under st) (λ r. ci_lt last r.path) (is_after token) rows
        (λ r. is_after_trans token last r l (sym at) behind)
    ∙ after_page n here h ascending
