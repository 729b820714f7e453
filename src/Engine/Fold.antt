-- ===== src/Engine/Fold.antt =====
-- The program folds ASCII case to lower case and the collation to upper case: on the path alphabet
-- one comparison.
use project_db.Base.{
  ℕ, suc, Text, slash, lower, to_ascii_lowercase, eq_ignore_ascii_case, eq_ignore_ascii_case_iff,
  text_eq_iff, length, ◌≡◌, refl, sym, ap, ◌∙◌, ◌↔◌, Bool, true, false, List, [], ◌∷◌, ◌++◌, arith,
  Bool-cases, inl, inr,
}
use project_db.Engine.{weight, collate, ci_eq}

pub weight-eq_iff : (c d : ℕ) → (weight c ≡ weight d) ↔ (lower c ≡ lower d)
unfolding weight lower
weight-eq_iff c d = ground arith

head-eq : {c d : ℕ} {s t : Text} → ◌≡◌ {A = Text} (c ∷ s) (d ∷ t) → c ≡ d
head-eq h = cc

tail-eq : {c d : ℕ} {s t : Text} → ◌≡◌ {A = Text} (c ∷ s) (d ∷ t) → s ≡ t
tail-eq h = cc

pub collate-eq_iff :
    (s t : Text) → (collate s ≡ collate t) ↔ (to_ascii_lowercase s ≡ to_ascii_lowercase t)
unfolding collate to_ascii_lowercase
collate-eq_iff [] [] = (λ _. refl, λ _. refl)
collate-eq_iff [] (d ∷ t) = (λ h. cc, λ h. cc)
collate-eq_iff (c ∷ s) [] = (λ h. cc, λ h. cc)
collate-eq_iff (c ∷ s) (d ∷ t) =
    let (to, from) = collate-eq_iff s t in
    let (one, two) = weight-eq_iff c d in
    (λ h. cc (one (head-eq h), to (tail-eq h)), λ h. cc (two (head-eq h), from (tail-eq h)))

-- The modelled comparison of the path columns is the program's `eq_ignore_ascii_case`.
pub ci_eq_lem : (s t : Text) → ci_eq s t ≡ eq_ignore_ascii_case s t
unfolding ci_eq
ci_eq_lem s t =
    let (a, a') = text_eq_iff (collate s) (collate t) in
    let (b, b') = eq_ignore_ascii_case_iff s t in
    let (to, from) = collate-eq_iff s t in same _ _ (λ h. b' (to (a h))) (λ h. a' (from (b h)))
  where
    same : (x y : Bool) → (x ≡ true → y ≡ true) → (y ≡ true → x ≡ true) → x ≡ y
    same true y f g = sym (f refl)
    same false true f g = g refl
    same false false f g = refl

pub ci_eq_iff : (s t : Text) → (ci_eq s t ≡ true) ↔ (to_ascii_lowercase s ≡ to_ascii_lowercase t)
ci_eq_iff s t =
    let (b, b') = eq_ignore_ascii_case_iff s t in
    (λ h. b (sym (ci_eq_lem s t) ∙ h), λ h. ci_eq_lem s t ∙ b' h)

pub length-of_ci_eq : (s t : Text) → ci_eq s t ≡ true → length s ≡ length t
length-of_ci_eq s t h = project_db.Base.length-of_fold_eq s t ((ci_eq_iff s t).0 h)
