-- ===== src/Read/Walk.antt =====
-- The rows that `ancestor_rows` of src/read.rs yields, and the one that `max_by_key` selects.
use project_db.Base.{
  ℕ, ◌+◌, ◌≤◌, ◌<◌, Text, slash, codes, utf8_len, lower, to_ascii_lowercase, eq_ignore_ascii_case,
  eq_ignore_ascii_case_iff, length, byte_len, ◌≡◌, ◌≢◌, refl, sym, ap, ◌∙◌, subst, ◌↔◌, ◌⊎◌, inl,
  inr, Bool, true, false, not, ◌&&◌, ◌||◌, Option, none, some, List, [], ◌∷◌, ◌++◌, any, keep, In,
  In-keep, In_of_keep, In-append_left, In-append_right, In-append_cases, In_of_any, any_of_In,
  arith, ltb, leb, ◌==◌, ==_iff, if◌then◌else◌, Bool-cases, Option-cases,
}
use project_db.Engine.{ci_eq}
use project_db.Store.{Store, Project, Alias, has_id}
use project_db.Store.Rows.{has_id_iff-to}
use project_db.Read.Resolve.{
  Found, found_live, found_alias, is_in, live_arm, joined, alias_arm, key_le, max_from,
}

-- A path is named by a row, live or through an alias, with ASCII case folded.
pub data Names (s : Store) (q : Text) : Found → Type 0 where
  live : (p : Project) → In p s.projects → ci_eq p.path q ≡ true → Names s q (found_live p)
  former :
      (a : Alias) (p : Project)
      → In a s.aliases
      → In p s.projects
      → p.id ≡ a.project_id
      → ci_eq a.alias_path q ≡ true
      → Names s q (found_alias a p)

is_in-In :
    (chain : List Text) (p : Text)
    → is_in chain p ≡ true
    → (q : Text) × In q chain × (ci_eq p q ≡ true)
unfolding is_in
is_in-In chain p h = In_of_any (ci_eq p) chain h

-- The first arm holds the live rows at the chain's paths, and no others.
live_arm-Names :
    (chain : List Text) (ps : List Project) (f : Found)
    → In f (live_arm chain ps)
    → (p : Project) × In p ps × (is_in chain p.path ≡ true) × (f ≡ found_live p)
unfolding live_arm
live_arm-Names chain [] f m = absurd m
live_arm-Names chain (p ∷ ps) f m = elim (Bool-cases (is_in chain p.path)) [
  | inr miss ↦ let (q, n, i, e) = live_arm-Names chain ps f (rw miss at m) in (q, inr n, i, e)
  | inl hit ↦
      let m' : (f ≡ found_live p) ⊎ In f (live_arm chain ps) = rw hit at m in
      elim m' [
        | inl e ↦ (p, inl refl, hit, e)
        | inr r ↦ let (q, n, i, e) = live_arm-Names chain ps f r in (q, inr n, i, e)
      ]
]

In-live_arm :
    (chain : List Text) (ps : List Project) (p : Project)
    → In p ps
    → is_in chain p.path ≡ true
    → In (found_live p) (live_arm chain ps)
unfolding live_arm
In-live_arm chain [] p m i = absurd m
In-live_arm chain (q ∷ ps) p (inl e) i =
    rw (ap (λ (x : Project). is_in chain x.path) (sym e) ∙ i) (inl (ap found_live e))
In-live_arm chain (q ∷ ps) p (inr m) i = elim (Bool-cases (is_in chain q.path)) [
  | inl hit ↦ rw hit (inr (In-live_arm chain ps p m i))
  | inr miss ↦ rw miss (In-live_arm chain ps p m i)
]

joined-Names :
    (a : Alias) (ps : List Project) (f : Found)
    → In f (joined a ps)
    → (p : Project) × In p ps × (p.id ≡ a.project_id) × (f ≡ found_alias a p)
joined-Names a [] f m = absurd m
joined-Names a (p ∷ ps) f m = elim (Bool-cases (has_id a.project_id p)) [
  | inr miss ↦ let (q, n, i, e) = joined-Names a ps f (rw miss at m) in (q, inr n, i, e)
  | inl hit ↦
      let m' : (f ≡ found_alias a p) ⊎ In f (joined a ps) = rw hit at m in
      elim m' [
        | inl e ↦ (p, inl refl, has_id_iff-to a.project_id p hit, e)
        | inr r ↦ let (q, n, i, e) = joined-Names a ps f r in (q, inr n, i, e)
      ]
]

In-joined :
    (a : Alias) (ps : List Project) (p : Project)
    → In p ps
    → p.id ≡ a.project_id
    → In (found_alias a p) (joined a ps)
unfolding has_id
In-joined a [] p m i = absurd m
In-joined a (q ∷ ps) p (inl e) i =
    rw ((project_db.Base.text_eq_iff q.id a.project_id).1 (ap (λ (x : Project). x.id) (sym e) ∙ i))
      (inl (ap (found_alias a) e))
In-joined a (q ∷ ps) p (inr m) i = elim (Bool-cases (has_id a.project_id q)) [
  | inl hit ↦ rw (hit, has_id) (inr (In-joined a ps p m i))
  | inr miss ↦ rw (miss, has_id) (In-joined a ps p m i)
]

alias_arm-Names :
    (chain : List Text) (aliases : List Alias) (ps : List Project) (f : Found)
    → In f (alias_arm chain aliases ps)
    → (a : Alias) × (p : Project) × In a aliases
      × In p ps
      × (p.id ≡ a.project_id)
      × (is_in chain a.alias_path ≡ true)
      × (f ≡ found_alias a p)
unfolding alias_arm
alias_arm-Names chain [] ps f m = absurd m
alias_arm-Names chain (a ∷ aliases) ps f m = elim (Bool-cases (is_in chain a.alias_path)) [
  | inr miss ↦
      let (b, p, n, i, d, c, e) = alias_arm-Names chain aliases ps f (rw miss at m) in
      (b, p, inr n, i, d, c, e)
  | inl hit ↦
      let m' : In f (joined a ps ++ alias_arm chain aliases ps) = rw hit at m in
      elim (In-append_cases f (joined a ps) (alias_arm chain aliases ps) m') [
        | inl l ↦ let (p, n, i, e) = joined-Names a ps f l in (a, p, inl refl, n, i, hit, e)
        | inr r ↦
            let (b, p, n, i, d, c, e) = alias_arm-Names chain aliases ps f r in
            (b, p, inr n, i, d, c, e)
      ]
]

In-alias_arm :
    (chain : List Text) (aliases : List Alias) (ps : List Project) (a : Alias) (p : Project)
    → In a aliases
    → In p ps
    → p.id ≡ a.project_id
    → is_in chain a.alias_path ≡ true
    → In (found_alias a p) (alias_arm chain aliases ps)
unfolding alias_arm
In-alias_arm chain [] ps a p m n i h = absurd m
In-alias_arm chain (b ∷ aliases) ps a p (inl e) n i h =
    rw (ap (λ (x : Alias). is_in chain x.alias_path) (sym e) ∙ h) (
      In-append_left _ (joined b ps) _
        (subst (λ x. In (found_alias a p) (joined x ps)) e (In-joined a ps p n i)))
In-alias_arm chain (b ∷ aliases) ps a p (inr m) n i h =
    elim (Bool-cases (is_in chain b.alias_path)) [
      | inl hit ↦
          rw hit (In-append_right _ (joined b ps) _ (In-alias_arm chain aliases ps a p m n i h))
      | inr miss ↦ rw miss (In-alias_arm chain aliases ps a p m n i h)
    ]

-- The rows of the walk are exactly those that name an entry of the chain.
abbrev pub rows_of : List Text → Store → List Found
rows_of chain s = live_arm chain s.projects ++ alias_arm chain s.aliases s.projects

pub rows_of-Names :
    (chain : List Text) (s : Store) (f : Found)
    → In f (rows_of chain s)
    → (q : Text) × In q chain × Names s q f
rows_of-Names chain s f m = elim (In-append_cases f (live_arm chain s.projects) _ m) [
  | inl l ↦
      let (p, n, i, e) = live_arm-Names chain s.projects f l in
      let (q, k, c) = is_in-In chain p.path i in (q, k, subst (Names s q) (sym e) (live p n c))
  | inr r ↦
      let (a, p, n, n', d, i, e) = alias_arm-Names chain s.aliases s.projects f r in
      let (q, k, c) = is_in-In chain a.alias_path i in
      (q, k, subst (Names s q) (sym e) (former a p n n' d c))
]

pub Names-rows_of :
    (chain : List Text) (s : Store) (q : Text) (f : Found)
    → In q chain
    → Names s q f
    → In f (rows_of chain s)
unfolding is_in
Names-rows_of chain s q f k (live p m c) =
    In-append_left _ (live_arm chain s.projects) _
      (In-live_arm chain s.projects p m (any_of_In (ci_eq p.path) q chain k c))
Names-rows_of chain s q f k (former a p m n d c) =
    In-append_right _ (live_arm chain s.projects) _ (
      In-alias_arm chain s.aliases s.projects a p m n d
        (any_of_In (ci_eq a.alias_path) q chain k c))

-- `max_by_key` selects a row of the walk that none exceeds.
key_le_refl : (f : Found) → key_le f f ≡ true
unfolding key_le
key_le_refl f = ground arith

key_le_trans : (f g h : Found) → key_le f g ≡ true → key_le g h ≡ true → key_le f h ≡ true
unfolding key_le
key_le_trans f g h a b = grind arith

key_le-total : (f g : Found) → key_le f g ≡ false → key_le g f ≡ true
unfolding key_le
key_le-total f g h = ground arith

abbrev Greater : Found → Found → Found → Type 0
Greater a b x = ((x ≡ a) ⊎ (x ≡ b)) × (key_le a x ≡ true) × (key_le b x ≡ true)

greater : (a b : Found) → Greater a b (if key_le a b then b else a)
greater a b = elim (Bool-cases (key_le a b)) [
  | inl up ↦ rw up (inr refl, up, key_le_refl b)
  | inr down ↦ rw down (inl refl, key_le_refl a, key_le-total a b down)
]

pub max_from-greatest :
    (best : Found) (fs : List Found)
    → In (max_from best fs) (best ∷ fs)
      × ((g : Found) → In g (best ∷ fs) → key_le g (max_from best fs) ≡ true)
unfolding max_from
max_from-greatest best [] = (
  inl refl,
  λ g m. elim m [
    | inl e ↦ ap (λ (x : Found). key_le x best) e ∙ key_le_refl best
    | inr n ↦ absurd n
  ],
)
max_from-greatest best (f ∷ fs) =
    let x = if key_le best f then f else best in
    let (m, top) = max_from-greatest x fs in
    let (one, le_best, le_f) = greater best f in
    let most = max_from x fs in
    let x_le = top x (inl refl) in
    let below : (g h : Found) → g ≡ h → key_le h x ≡ true → key_le g most ≡ true =
      λ g h e k. key_le_trans g x most (ap (λ (y : Found). key_le y x) e ∙ k) x_le in
    (
      elim m [
        | inl e ↦ elim one [ inl b ↦ inl (e ∙ b) | inr c ↦ inr (inl (e ∙ c)) ]
        | inr n ↦ inr (inr n)
      ],
      λ g n. elim n [
        | inl e ↦ below g best e le_best
        | inr (inl e) ↦ below g f e le_f
        | inr (inr k) ↦ top g (inr k)
      ],
    )
