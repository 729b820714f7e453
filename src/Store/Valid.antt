-- ===== src/Store/Valid.antt =====
-- The invariant of the tables: what the keys and the constraints of src/schema.rs keep.
use project_db.Base.{
  ◌≡◌, sym, ap, subst, Bool, true, List, [], ◌∷◌, ◌++◌, all, to_ascii_lowercase, and-left,
  and-right,
}
use project_db.Base.Distinct.{Distinct, Distinct-snoc}
use project_db.Status.{ok}
use project_db.Store.{Store, Project, class_ok, insert_project, update_projects}
use project_db.Store.Rows.{insert_project-Inserted, update_projects-ok, Distinct-update_rows}

-- Ids are distinct, no two paths are one path to the store, and every row is in one class, the one
-- that its path says.
pub record IsValid (s : Store) : Type 0 where
  pub ids : Distinct (λ (r : Project). r.id) s.projects
  pub paths : Distinct (λ (r : Project). to_ascii_lowercase r.path) s.projects
  pub classes : all class_ok s.projects ≡ true

all-append :
    {A : Type 0} (p : A → Bool) (xs : List A) (a : A)
    → all p xs ≡ true
    → p a ≡ true
    → all p (xs ++ a ∷ []) ≡ true
all-append p [] a h k = rw k
all-append p (x ∷ xs) a h k =
    rw (and-left (p x) (all p xs) h) (all-append p xs a (and-right (p x) (all p xs) h) k)

pub insert_project-IsValid :
    (r : Project) {s t : Store} → insert_project r s ≡ ok (tt, t) → IsValid s → IsValid t
insert_project-IsValid r {s} {t} h v =
    let i = insert_project-Inserted r s t h in
    subst IsValid (sym i.result) (record {
      ids = Distinct-snoc (λ (q : Project). q.id) s.projects r v.ids i.new_id;
      paths =
          Distinct-snoc (λ (q : Project). to_ascii_lowercase q.path) s.projects r v.paths
            i.new_path;
      classes = all-append class_ok s.projects r v.classes i.class;
    })

-- An update that leaves ids and paths alone keeps the invariant.
pub update_projects-IsValid :
    (p : Project → Bool) (f : Project → Project)
    → ((r : Project) → (f r).id ≡ r.id)
    → ((r : Project) → (f r).path ≡ r.path)
    → {s t : Store} → update_projects p f s ≡ ok (tt, t)
    → IsValid s
    → IsValid t
update_projects-IsValid p f same_id same_path {s} {t} h v =
    let (result, classes) = update_projects-ok p f s t h in
    subst IsValid (sym result) (record {
      ids = Distinct-update_rows p f (λ (q : Project). q.id) same_id s.projects v.ids;
      paths =
          Distinct-update_rows p f (λ (q : Project). to_ascii_lowercase q.path)
            (λ r. ap to_ascii_lowercase (same_path r)) s.projects v.paths;
      classes = classes;
    })

-- The invariant is about the rows of `project` alone.
pub IsValid-same_projects : {s t : Store} → t.projects ≡ s.projects → IsValid s → IsValid t
IsValid-same_projects e v = record {
  ids = subst (λ ps. Distinct (λ (r : Project). r.id) ps) (sym e) v.ids;
  paths = subst (λ ps. Distinct (λ (r : Project). to_ascii_lowercase r.path) ps) (sym e) v.paths;
  classes = subst (λ ps. all class_ok ps ≡ true) (sym e) v.classes;
}
