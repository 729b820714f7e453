-- ===== src/Path/Class.antt =====
-- The class of a path, under the modelled collation, and the owner of a private root.
use project_db.Base.{
  Text, codes, slash, to_ascii_lowercase, eq_ignore_ascii_case_iff, split, text_eq_iff, text_eq,
  ◌≡◌, refl, sym, ap, ◌∙◌, subst, Bool, true, false, Option, some, List, [], ◌∷◌, ◌++◌, arith,
  Bool-cases, Option-cases, inl, inr, and-left, and-right, ◌==◌, ==_iff, has_slash,
  has_slash-to_ascii_lowercase,
}
use project_db.Engine.{like}
use project_db.Engine.Fold.{collate-eq_iff}
use project_db.Sql.{subtree}
use project_db.Sql.Subtree.{IsBeneath, like-subtree_iff}
use project_db.Path.{
  split_once, is_private_class, reserved_root, is_under_own_root, own_root, account_segment, Uuid,
  strip_prefix, user_id_prefix,
}

split_once-cut : (p a b : Text) → split_once p ≡ some (a, b) → p ≡ a ++ slash ∷ b
unfolding split_once
split_once-cut [] a b h = cc
split_once-cut (c ∷ s) a b h = elim (Bool-cases (c == slash)) [
  | inl is ↦ cut_here (rw is at h) ((==_iff c slash).0 is)
  | inr isnt ↦ elim (Option-cases (split_once s)) [
    | inl e ↦ absurd (ground arith)
    | inr ((q, r), e) ↦
        let a_eq : a ≡ c ∷ q = ground arith in
        let b_eq : b ≡ r = ground arith in
        rw (a_eq, b_eq) (ap (λ t. c ∷ t) (split_once-cut s q r e))
  ]
]
  where
    cut_here :
        ◌≡◌ {A = Option (Text × Text)} (some ([], s)) (some (a, b))
        → c ≡ slash
        → c ∷ s ≡ a ++ slash ∷ b
    cut_here e is = let a_eq : a ≡ [] = cc in let b_eq : b ≡ s = cc in rw (a_eq, b_eq, is)

split_once-append : (a b : Text) → has_slash a ≡ false → split_once (a ++ slash ∷ b) ≡ some (a, b)
unfolding split_once has_slash
split_once-append [] b h = ground arith
split_once-append (c ∷ a) b h = ground (arith, split_once-append a b)

-- A text that folds onto the reserved segment has no slash.
root_no_slash :
    (a : Text) → to_ascii_lowercase a ≡ to_ascii_lowercase reserved_root → has_slash a ≡ false
root_no_slash a e =
    sym (has_slash-to_ascii_lowercase a)
    ∙ ap has_slash e
    ∙ has_slash-to_ascii_lowercase reserved_root
    ∙ (unfold has_slash in refl)

is_private_class-IsBeneath : (p : Text) → is_private_class p ≡ true → IsBeneath reserved_root p
unfolding is_private_class
is_private_class-IsBeneath p h = elim (Option-cases (split_once p)) [
  | inl e ↦ absurd (ground arith)
  | inr ((a, b), e) ↦ record {
    root = a;
    rest = b;
    cut = split_once-cut p a b e;
    same =
        (collate-eq_iff a reserved_root).1
          ((eq_ignore_ascii_case_iff a reserved_root).0 (ground arith));
  }
]

IsBeneath-is_private_class : (p : Text) → IsBeneath reserved_root p → is_private_class p ≡ true
unfolding is_private_class
IsBeneath-is_private_class p b =
    let folded = (collate-eq_iff b.root reserved_root).0 b.same in
    rw (b.cut, is_private_class, split_once-append b.root b.rest (root_no_slash b.root folded))
      ((eq_ignore_ascii_case_iff b.root reserved_root).1 folded)

-- The two halves of an equivalence of tests.
same_bool : (x y : Bool) → (x ≡ true → y ≡ true) → (y ≡ true → x ≡ true) → x ≡ y
same_bool true y f g = sym (f refl)
same_bool false true f g = g refl
same_bool false false f g = refl

-- The program's predicate and the constraint's test, under the modelled weights.
pub is_private_class-like : (p : Text) → is_private_class p ≡ like p (codes "local/%")
is_private_class-like p =
    let (to, from) = like-subtree_iff reserved_root p in
    let pattern : subtree reserved_root ≡ codes "local/%" = unfold subtree in refl in
    same_bool _ _ (λ h. rw (← pattern) (from (is_private_class-IsBeneath p h)))
      (λ h. IsBeneath-is_private_class p (to (rw pattern h)))

own_root_head :
    (parts : List Text) (s : Text)
    → own_root parts s ≡ true
    → (rest : List Text) × (parts ≡ reserved_root ∷ s ∷ rest)
unfolding own_root
own_root_head [] s h = cc
own_root_head (r ∷ []) s h = cc
own_root_head (r ∷ a ∷ rest) s h = (
  rest,
  cc (
    (text_eq_iff r reserved_root).0 (and-left _ _ h),
    (text_eq_iff a s).0 (and-right (text_eq r reserved_root) _ h),
  ),
)

-- A path lies under the private root of one account segment at most.
pub is_under_own_root_unique :
    (p s t : Text) → is_under_own_root p s ≡ true → is_under_own_root p t ≡ true → s ≡ t
unfolding is_under_own_root
is_under_own_root_unique p s t h k =
    let (_, a) = own_root_head (split p) s h in
    let (_, b) = own_root_head (split p) t k in cc (a, b)

strip_prefix-cut : (p s : Text) {r : Text} → strip_prefix p s ≡ some r → s ≡ p ++ r
unfolding strip_prefix
strip_prefix-cut [] s h = cc
strip_prefix-cut (c ∷ p) [] h = cc
strip_prefix-cut (c ∷ p) (d ∷ s) {r} h = elim (Bool-cases (c == d)) [
  | inl e ↦ cc ((==_iff c d).0 e, strip_prefix-cut p s {r = r} (ground arith))
  | inr e ↦ absurd (ground arith)
]

pub account_segment-cut :
    (try_parse : Text → Option Uuid) (u : Text) {seg : Text}
    → account_segment try_parse u ≡ some seg
    → u ≡ user_id_prefix ++ seg
unfolding account_segment
account_segment-cut try_parse u {seg} h = elim (Option-cases (strip_prefix user_id_prefix u)) [
  | inl e ↦ absurd (ground arith)
  | inr (s, e) ↦
      let same : s ≡ seg = ground arith in
      subst (λ x. u ≡ user_id_prefix ++ x) same (strip_prefix-cut user_id_prefix u e)
]

-- Two accounts that own one segment are one account, whatever the `uuid` crate answers.
pub account_segment_injective :
    (try_parse : Text → Option Uuid) (u v : Text) {seg : Text}
    → account_segment try_parse u ≡ some seg
    → account_segment try_parse v ≡ some seg
    → u ≡ v
account_segment_injective try_parse u v h k =
    account_segment-cut try_parse u h ∙ sym (account_segment-cut try_parse v k)
