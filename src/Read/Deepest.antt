-- ===== src/Read/Deepest.antt =====
-- Which project governs a path: the deepest ancestor that a row or an alias names.
use project_db.Base.{
  String, length-append, length-of_fold_eq, ◌≤◌, Text, slash, to_ascii_lowercase,
  eq_ignore_ascii_case, eq_ignore_ascii_case_iff, length, byte_len, ◌≡◌, ◌≢◌, refl, sym, ap, ◌∙◌,
  subst, ◌↔◌, inl, inr, Bool, true, false, not, Option, none, some, List, [], ◌∷◌, In, In-keep,
  In_of_keep, arith,
}
use project_db.Status.{Code, Detail, Status, status, Result, ok, err}
use project_db.Engine.Fold.{ci_eq_iff}
use project_db.Store.{Store}
use project_db.Path.{ancestors, reserved_root}
use project_db.Path.Ancestors.{IsAbove, mem-ancestors}
use project_db.Read.Prefixes.{IsAncestor, ancestors_comparable, byte_len-IsAbove, byte_len-of_ci_eq}
use project_db.Read.Walk.{
  Names, live, former, rows_of, rows_of-Names, Names-rows_of, max_from-greatest,
}
use project_db.Session.{Session, query}
use project_db.Pooled.{Deadline, Pool, acquire}
use project_db.Path
use project_db.Path.{refuse_reserved_root}
use project_db.Contract.{ResolveProjectRequest, ResolveProjectResponse}
use project_db.Read.Resolve.{
  resolve, ancestor_rows, response_of, choose, Found, key_le, max_from, best_of, chain_of,
}

-- The row that governs a path: it is named by an ancestor of the path, the path itself among them,
-- that is not the reserved segment; every other ancestor that names one lies above that ancestor,
-- and a live row comes before a former path.
pub record IsGoverning (s : Store) (path : Text) (f : Found) : Type 0 where
  pub at : Text
  pub ancestor : IsAncestor at path
  pub free : eq_ignore_ascii_case at reserved_root ≡ false
  pub names : Names s at f
  pub deepest :
      (q : Text) (g : Found)
      → IsAncestor q path
      → eq_ignore_ascii_case q reserved_root ≡ false
      → Names s q g
      → IsAncestor q at
  pub live_first : (g : Found) → Names s at g → f.via_alias ≤ g.via_alias

-- No ancestor of the path names a row.
abbrev pub IsUngoverned : Store → Text → Type 0
IsUngoverned s path =
    (q : Text) (g : Found)
    → IsAncestor q path
    → eq_ignore_ascii_case q reserved_root ≡ false
    → Names s q g
    → ⊥

In-chain_of :
    (path q : Text)
    → IsAncestor q path
    → eq_ignore_ascii_case q reserved_root ≡ false
    → In q (chain_of path)
unfolding chain_of
In-chain_of path q a f =
    In-keep (λ x. not (eq_ignore_ascii_case x reserved_root)) q (ancestors path)
      ((mem-ancestors path q).1 a) (ap not f)

In_of_chain_of :
    (path q : Text)
    → In q (chain_of path)
    → IsAncestor q path × (eq_ignore_ascii_case q reserved_root ≡ false)
unfolding chain_of
In_of_chain_of path q m =
    let (n, f) =
      In_of_keep (λ x. not (eq_ignore_ascii_case x reserved_root)) q (ancestors path) m in
    ((mem-ancestors path q).0 n, not-true f)
  where
    not-true : {b : Bool} → not b ≡ true → b ≡ false
    not-true {b} h = ground arith

-- What a row matched is as long as the ancestor that names it.
byte_len-Names : (s : Store) (q : Text) (f : Found) → Names s q f → byte_len f.matched ≡ byte_len q
byte_len-Names s q f (live p m c) = byte_len-of_ci_eq p.path q c
byte_len-Names s q f (former a p m n d c) = byte_len-of_ci_eq a.alias_path q c

key_le-len : (f g : Found) → key_le f g ≡ true → byte_len f.matched ≤ byte_len g.matched
unfolding key_le
key_le-len f g h = ground arith

key_le-via :
    (f g : Found)
    → key_le f g ≡ true
    → byte_len f.matched ≡ byte_len g.matched
    → g.via_alias ≤ f.via_alias
unfolding key_le
key_le-via f g h e = ground arith

max_from-IsGoverning :
    (s : Store) (path : Text) (f : Found) (fs : List Found)
    → rows_of (chain_of path) s ≡ f ∷ fs
    → IsGoverning s path (max_from f fs)
max_from-IsGoverning s path f fs e =
    let best = max_from f fs in
    let (m, top) = max_from-greatest f fs in
    let (at, k, n) = rows_of-Names (chain_of path) s best (subst (In best) (sym e) m) in
    let (a, free) = In_of_chain_of path at k in
    let beaten : (q : Text) (g : Found)
        → In q (chain_of path)
        → Names s q g
        → key_le g best ≡ true =
      λ q g i h. top g (subst (In g) e (Names-rows_of (chain_of path) s q g i h)) in
    record {
      at = at;
      ancestor = a;
      free = free;
      names = n;
      deepest = λ q g b u h.
          let le = key_le-len g best (beaten q g (In-chain_of path q b u) h) in
          elim (ancestors_comparable path q at b a) [
            | inl same ↦ inl same
            | inr (inl above) ↦ inr above
            | inr (inr below) ↦ absurd (
                omega (
                  arith,
                  le,
                  byte_len-Names s q g h,
                  byte_len-Names s at best n,
                  byte_len-IsAbove at q below,
                ))
          ];
      live_first = λ g h.
          key_le-via g best (beaten at g k h)
            (byte_len-Names s at g h ∙ sym (byte_len-Names s at best n));
    }

IsAbove-ne : (q p : Text) → IsAbove q p → length q ≢ length p
IsAbove-ne q p (t, e) h = omega (arith, h, ap length e, length-append q (slash ∷ t))

-- The answer says `exact` when, and only when, the path itself names the governing row.
response_of-exact_iff :
    (s : Store) (path : Text) (f : Found) (g : IsGoverning s path f)
    → ((response_of path f).exact ≡ true) ↔ (g.at ≡ path)
unfolding response_of
response_of-exact_iff s path f g =
    let matched = Names-ci s g.at f g.names in
    let (to, from) = eq_ignore_ascii_case_iff f.matched path in
    (
      λ h. elim g.ancestor [
        | inl e ↦ e
        | inr above ↦
            absurd (IsAbove-ne g.at path above (length-of_fold_eq g.at path (sym matched ∙ to h)))
      ],
      λ e. from (matched ∙ ap to_ascii_lowercase e),
    )
  where
    Names-ci :
        (s : Store) (q : Text) (f : Found)
        → Names s q f
        → to_ascii_lowercase f.matched ≡ to_ascii_lowercase q
    Names-ci s q f (live p m c) = (ci_eq_iff p.path q).0 c
    Names-ci s q f (former a p m n d c) = (ci_eq_iff a.alias_path q).0 c

abbrev Resolution : Store → Text → Option Found → Type 0
Resolution s path none = IsUngoverned s path
Resolution s path (some f) = IsGoverning s path f

best_of-Resolution :
    (s : Store) (path : Text) (rows : List Found)
    → rows_of (chain_of path) s ≡ rows
    → Resolution s path (best_of rows)
unfolding best_of
best_of-Resolution s path [] e =
    λ q g a u h. subst (In g) e (Names-rows_of (chain_of path) s q g (In-chain_of path q a u) h)
best_of-Resolution s path (f ∷ fs) e = max_from-IsGoverning s path f fs e

-- What the call returns when a row governs the path, with `exact` set when the path itself names
-- it, and what it returns when none does.
pub data Answer (s : Store) (path : Text) : Result Status ResolveProjectResponse → Type 0 where
  governed :
      (f : Found) (g : IsGoverning s path f)
      → ((response_of path f).exact ≡ true) ↔ (g.at ≡ path)
      → Answer s path (ok (response_of path f))
  refused :
      IsUngoverned s path
      → Answer s path (err (status Code.not_found (Detail.nothing_registered path)))

choose-Answer :
    (s : Store) (path : Text) (best : Option Found)
    → Resolution s path best
    → Answer s path (choose path best)
choose-Answer s path none r = refused r
choose-Answer s path (some f) r = governed f r (response_of-exact_iff s path f r)

ancestor_rows-eq :
    (chain : List Text) (s : Store) (q : Text)
    → In q chain
    → ancestor_rows chain s ≡ ok (rows_of chain s)
unfolding ancestor_rows
ancestor_rows-eq [] s q m = absurd m
ancestor_rows-eq (r ∷ chain) s q m = refl

refuse_reserved_root-ok :
    (what : String) (path : Text)
    → refuse_reserved_root what path ≡ ok tt
    → eq_ignore_ascii_case path reserved_root ≡ false
unfolding refuse_reserved_root
refuse_reserved_root-ok what path h = ground arith

-- A candidate that the grammar and the reserved-root check let through, on a connection that was
-- handed out and without an engine error, gets one of two answers. If some ancestor of it, itself
-- included and the reserved segment excluded, names a project, live or through an alias, the answer
-- reports the row of the deepest such ancestor, the live one where an alias is as deep, and is
-- `exact` just when that ancestor is the candidate itself; if none does, it is a refusal.
pub resolve-Answer :
    (session : Session) (pool : Pool) (req : ResolveProjectRequest) (deadline : Deadline)
    → Path.validate "candidate_path" req.candidate_path ≡ ok tt
    → refuse_reserved_root "candidate_path" req.candidate_path ≡ ok tt
    → acquire pool deadline ≡ ok tt
    → session.fault 0 ≡ none
    → Answer (session.tables 0) req.candidate_path (resolve session pool req deadline)
unfolding resolve query
resolve-Answer session pool req deadline v r a f =
    let path = req.candidate_path in
    let s = session.tables 0 in
    let self = In-chain_of path path (inl refl) (refuse_reserved_root-ok "candidate_path" path r) in
    rw (v, r, a, f, ancestor_rows-eq (chain_of path) s path self)
      (choose-Answer s path (best_of (rows_of (chain_of path) s))
        (best_of-Resolution s path (rows_of (chain_of path) s) refl))
