-- ===== src/Schema/Columns.antt =====
-- `ADD COLUMN IF NOT EXISTS` in src/schema.rs, and the tests on lists that the clauses share.
use project_db.Base.{
  Text, text_eq, text_eq_iff, ◌≡◌, refl, ap, ◌∙◌, subst, inl, inr, Bool, true, Bool-cases, List, [],
  ◌∷◌, ◌++◌, any, length, length-append, arith,
}
use project_db.Status.{ok, ◌>>=◌, >>=-eq-ok}
use project_db.Store.{update_rows}
use project_db.Schema.{Column, is_column, place_after, add_column, add_all}
use project_db.Schema.Alter.{ok_eq, not_ok}

pub self_named : (n : Text) → text_eq n n ≡ true
self_named n = (text_eq_iff n n).1 refl

module _ {A : Type 0} (p : A → Bool) where
  pub any-update_rows :
      (c : A) → p c ≡ true → (xs : List A) → any p (update_rows p (λ x. c) xs) ≡ any p xs
  any-update_rows c h [] = refl
  any-update_rows c h (x ∷ xs) = elim (Bool-cases (p x)) [
    | inl hit ↦ rw (hit, h)
    | inr miss ↦ rw (miss, miss, any-update_rows c h xs)
  ]

  pub update_rows-twice :
      (c : A)
      → p c ≡ true
      → (xs : List A)
      → update_rows p (λ x. c) (update_rows p (λ x. c) xs) ≡ update_rows p (λ x. c) xs
  update_rows-twice c h [] = refl
  update_rows-twice c h (x ∷ xs) = elim (Bool-cases (p x)) [
    | inl hit ↦ rw (hit, h, update_rows-twice c h xs)
    | inr miss ↦ rw (miss, miss, update_rows-twice c h xs)
  ]

  pub any_first : (x : A) (xs : List A) → p x ≡ true → any p (x ∷ xs) ≡ true
  any_first x xs h = rw h

  pub any_later : (x : A) (xs : List A) → any p xs ≡ true → any p (x ∷ xs) ≡ true
  any_later x xs h = ground arith

  pub any-append_left : (xs ys : List A) → any p xs ≡ true → any p (xs ++ ys) ≡ true
  any-append_left [] ys h = cc
  any-append_left (x ∷ xs) ys h = elim (Bool-cases (p x)) [
    | inl hit ↦ any_first x (xs ++ ys) hit
    | inr miss ↦ any_later x (xs ++ ys) (any-append_left xs ys (rw miss at h))
  ]

  pub any-append_last : (xs : List A) (y : A) → p y ≡ true → any p (xs ++ y ∷ []) ≡ true
  any-append_last [] y h = any_first y [] h
  any-append_last (x ∷ xs) y h = any_later x (xs ++ y ∷ []) (any-append_last xs y h)

pub longer : {A : Type 0} (xs : List A) (y : A) → xs ++ y ∷ [] ≡ xs → ⊥
longer xs y h = absurd (omega (arith, length-append xs (y ∷ []), ap length h))

place_after-any :
    (p : Column → Bool) (after : Text) (c : Column) (cs ds : List Column)
    → place_after after c cs ≡ ok ds
    → (any p cs ≡ true → any p ds ≡ true) × (p c ≡ true → any p ds ≡ true)
place_after-any p after c [] ds h = absurd (not_ok h)
place_after-any p after c (b ∷ bs) ds h = elim (Bool-cases (is_column after b)) [
  | inl here ↦
      let is : b ∷ c ∷ bs ≡ ds = ok_eq (rw here at h) in
      subst (λ es. (any p (b ∷ bs) ≡ true → any p es ≡ true) × (p c ≡ true → any p es ≡ true)) is
        (λ k. ground arith, λ k. any_later p b (c ∷ bs) (any_first p c bs k))
  | inr other ↦
      let (es, e, k) = >>=-eq-ok (place_after after c bs) (λ es. ok (b ∷ es)) (rw other at h) in
      let (keeps, adds) = place_after-any p after c bs es e in
      subst (λ es. (any p (b ∷ bs) ≡ true → any p es ≡ true) × (p c ≡ true → any p es ≡ true))
        (ok_eq k)
        (
          λ m. elim (Bool-cases (p b)) [
            | inl hit ↦ any_first p b es hit
            | inr miss ↦ any_later p b es (keeps (rw miss at m))
          ],
          λ m. any_later p b es (adds m),
        )
]

add_column-any :
    (p : Column → Bool) (c : Column) (after : Text) (cs ds : List Column)
    → add_column c after cs ≡ ok ds
    → any p cs ≡ true
    → any p ds ≡ true
unfolding add_column
add_column-any p c after cs ds h k = elim (Bool-cases (any (is_column c.name) cs)) [
  | inl there ↦ subst (λ es. any p es ≡ true) (ok_eq (rw there at h)) k
  | inr new ↦ (place_after-any p after c cs ds (rw new at h)).0 k
]

add_column-there :
    (c : Column) (after : Text) (cs ds : List Column)
    → add_column c after cs ≡ ok ds
    → any (is_column c.name) ds ≡ true
unfolding add_column
add_column-there c after cs ds h = elim (Bool-cases (any (is_column c.name) cs)) [
  | inl there ↦ subst (λ es. any (is_column c.name) es ≡ true) (ok_eq (rw there at h)) there
  | inr new ↦ (place_after-any (is_column c.name) after c cs ds (rw new at h)).1 (self_named c.name)
]

add_all-any :
    (p : Column → Bool) (more : List (Column × Text)) (cs ds : List Column)
    → add_all more cs ≡ ok ds
    → any p cs ≡ true
    → any p ds ≡ true
unfolding add_all
add_all-any p [] cs ds h k = subst (λ es. any p es ≡ true) (ok_eq h) k
add_all-any p ((c, after) ∷ more) cs ds h k =
    let (es, e, l) = >>=-eq-ok (add_column c after cs) (add_all more) h in
    add_all-any p more es ds l (add_column-any p c after cs es e k)

add_column-skips :
    (c : Column) (after : Text) (ds : List Column)
    → any (is_column c.name) ds ≡ true
    → add_column c after ds ≡ ok ds
unfolding add_column
add_column-skips c after ds h = rw h

-- Columns that were added are not added again.
pub add_all-again :
    (more : List (Column × Text)) (cs ds : List Column)
    → add_all more cs ≡ ok ds
    → add_all more ds ≡ ok ds
unfolding add_all
add_all-again [] cs ds h = refl
add_all-again ((c, after) ∷ more) cs ds h =
    let (es, e, l) = >>=-eq-ok (add_column c after cs) (add_all more) h in
    let there = add_all-any (is_column c.name) more es ds l (add_column-there c after cs es e) in
    ap (λ r. r >>= add_all more) (add_column-skips c after ds there) ∙ add_all-again more es ds l
