-- ===== src/Engine/Order.antt =====
-- `ORDER BY` a text column: insertion sort by the collation's order.
use project_db.Base.{
  Text, ◌≡◌, ◌≢◌, refl, ap, ◌∙◌, ◌⊎◌, inl, inr, Bool, true, false, ◌&&◌, ◌||◌, List, [], ◌∷◌, In,
  All, In-All, arith, ltb, ◌==◌, if◌then◌else◌, Bool-cases, All-In,
}
use project_db.Base.Distinct.{Distinct}
use project_db.Engine.{collate}

-- `<` on texts of weights.
unfoldable pub text_lt : Text → Text → Bool
text_lt [] [] = false
text_lt [] (b ∷ t) = true
text_lt (a ∷ s) [] = false
text_lt (a ∷ s) (b ∷ t) = ltb a b || a == b && text_lt s t

-- `<` on a column.
unfoldable pub ci_lt : Text → Text → Bool
unfolding text_lt collate
ci_lt s t = text_lt (collate s) (collate t)

module _ {A : Type 0} (key : A → Text) where
  unfoldable pub insert_sorted : A → List A → List A
  unfolding ci_lt
  insert_sorted a [] = a ∷ []
  insert_sorted a (x ∷ xs) = if ci_lt (key a) (key x) then a ∷ x ∷ xs else x ∷ insert_sorted a xs

  unfoldable pub order_by : List A → List A
  unfolding insert_sorted
  order_by [] = []
  order_by (x ∷ xs) = insert_sorted x (order_by xs)

text_lt_trans : (s t u : Text) → text_lt s t ≡ true → text_lt t u ≡ true → text_lt s u ≡ true
unfolding text_lt
text_lt_trans [] [] u h k = cc
text_lt_trans [] (b ∷ t) [] h k = cc
text_lt_trans [] (b ∷ t) (c ∷ u) h k = refl
text_lt_trans (a ∷ s) [] u h k = cc
text_lt_trans (a ∷ s) (b ∷ t) [] h k = cc
text_lt_trans (a ∷ s) (b ∷ t) (c ∷ u) h k = ground (arith, text_lt_trans s t u)

pub text_lt_irrefl : (s : Text) → text_lt s s ≡ false
unfolding text_lt
text_lt_irrefl [] = refl
text_lt_irrefl (a ∷ s) = ground (arith, text_lt_irrefl s)

text_lt-total : (s t : Text) → text_lt s t ≡ false → (s ≡ t) ⊎ (text_lt t s ≡ true)
unfolding text_lt
text_lt-total [] [] h = inl refl
text_lt-total [] (b ∷ t) h = cc
text_lt-total (a ∷ s) [] h = inr refl
text_lt-total (a ∷ s) (b ∷ t) h = elim (Bool-cases (ltb b a)) [
  | inl less ↦ inr (rw less)
  | inr k ↦
      let same : a ≡ b = ground arith in
      elim (text_lt-total s t (ground arith)) [
        | inl e ↦ inl (cc (same, e))
        | inr more ↦ inr (ground arith)
      ]
]

pub ci_lt_trans : (s t u : Text) → ci_lt s t ≡ true → ci_lt t u ≡ true → ci_lt s u ≡ true
unfolding ci_lt
ci_lt_trans s t u h k = text_lt_trans (collate s) (collate t) (collate u) h k

pub ci_lt_irrefl : (s : Text) → ci_lt s s ≡ false
unfolding ci_lt
ci_lt_irrefl s = text_lt_irrefl (collate s)

ci_lt-total : (s t : Text) → collate s ≢ collate t → ci_lt s t ≡ false → ci_lt t s ≡ true
unfolding ci_lt
ci_lt-total s t n h = elim (text_lt-total (collate s) (collate t) h) [
  | inl e ↦ absurd (n e)
  | inr k ↦ k
]

module _ {A : Type 0} (key : A → Text) where
  -- Every entry's key comes before those of all later entries.
  abbrev pub Ascending : List A → Type 0
  Ascending [] = Unit
  Ascending (x ∷ xs) = All (λ y. ci_lt (key x) (key y) ≡ true) xs × Ascending xs

  pub In_of_insert_sorted :
      (b a : A) (xs : List A) → In b (insert_sorted key a xs) → (b ≡ a) ⊎ In b xs
  unfolding insert_sorted
  In_of_insert_sorted b a [] m = m
  In_of_insert_sorted b a (x ∷ xs) m = elim (Bool-cases (ci_lt (key a) (key x))) [
    | inl t ↦ let m' : (b ≡ a) ⊎ In b (x ∷ xs) = rw t at m in m'
    | inr f ↦
        let m' : (b ≡ x) ⊎ In b (insert_sorted key a xs) = rw f at m in
        elim m' [
          | inl e ↦ inr (inl e)
          | inr n ↦ elim (In_of_insert_sorted b a xs n) [ inl e ↦ inl e | inr k ↦ inr (inr k) ]
        ]
  ]

  In-insert_sorted : (b a : A) (xs : List A) → (b ≡ a) ⊎ In b xs → In b (insert_sorted key a xs)
  unfolding insert_sorted
  In-insert_sorted b a [] m = m
  In-insert_sorted b a (x ∷ xs) m = elim (Bool-cases (ci_lt (key a) (key x))) [
    | inl t ↦ rw t m
    | inr f ↦ rw f (elim m [
      | inl e ↦ inr (In-insert_sorted b a xs (inl e))
      | inr (inl e) ↦ inl e
      | inr (inr n) ↦ inr (In-insert_sorted b a xs (inr n))
    ])
  ]

  -- Sorting loses no entry and adds none.
  pub In_of_order_by : (b : A) (xs : List A) → In b (order_by key xs) → In b xs
  unfolding order_by
  In_of_order_by b [] m = m
  In_of_order_by b (x ∷ xs) m = elim (In_of_insert_sorted b x (order_by key xs) m) [
    | inl e ↦ inl e
    | inr n ↦ inr (In_of_order_by b xs n)
  ]

  pub In-order_by : (b : A) (xs : List A) → In b xs → In b (order_by key xs)
  unfolding order_by
  In-order_by b [] m = m
  In-order_by b (x ∷ xs) m =
      In-insert_sorted b x (order_by key xs)
        (elim m [ inl e ↦ inl e | inr n ↦ inr (In-order_by b xs n) ])

  insert_sorted-Ascending :
      (a : A) (xs : List A)
      → ((x : A) → In x xs → collate (key a) ≢ collate (key x))
      → Ascending xs
      → Ascending (insert_sorted key a xs)
  unfolding insert_sorted
  insert_sorted-Ascending a [] n h = (tt, tt)
  insert_sorted-Ascending a (x ∷ xs) n h = elim (Bool-cases (ci_lt (key a) (key x))) [
    | inl t ↦
        rw (t, Ascending)
          (
            (
              t,
              In-All (λ y. ci_lt (key a) (key y) ≡ true) xs
                  (λ y m.
                    ci_lt_trans (key a) (key x) (key y) t
                      (All-In (λ z. ci_lt (key x) (key z) ≡ true) xs h.0 y m)),
            ),
            h,
          )
    | inr f ↦
        rw (f, Ascending)
          (
            In-All (λ y. ci_lt (key x) (key y) ≡ true) (insert_sorted key a xs)
                (λ y m. elim (In_of_insert_sorted y a xs m) [
                  | inl e ↦
                      ap (λ z. ci_lt (key x) (key z)) e
                      ∙ ci_lt-total (key a) (key x) (n x (inl refl)) f
                  | inr k ↦ All-In (λ z. ci_lt (key x) (key z) ≡ true) xs h.0 y k
                ]),
            insert_sorted-Ascending a xs (λ y m. n y (inr m)) h.1,
          )
  ]

  -- Entries whose keys differ under the collation come out in strict order.
  pub order_by-Ascending :
      (xs : List A) → Distinct (λ a. collate (key a)) xs → Ascending (order_by key xs)
  unfolding order_by
  order_by-Ascending [] h = tt
  order_by-Ascending (x ∷ xs) h =
      insert_sorted-Ascending x (order_by key xs)
        (λ y m. All-In (λ z. collate (key x) ≢ collate (key z)) xs h.0 y (In_of_order_by y xs m))
        (order_by-Ascending xs h.1)
