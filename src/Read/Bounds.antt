-- ===== src/Read/Bounds.antt =====
-- How many projects a page of `list` (src/read.rs) holds, and where the next page starts.
use project_db.Base.{
  ℕ, zero, suc, ◌≤◌, ◌<◌, length, take, ◌≡◌, refl, sym, ap, ◌∙◌, subst, Bool, true, false, List, [],
  ◌∷◌, map, arith, if◌then◌else◌,
}
use project_db.Base.Int.{ℤ, pos, negsuc}
use project_db.Status.{Status, Result, ok, err, ◌>>=◌, ◌>>◌, >>=-eq-ok}
use project_db.Session.{Session, query}
use project_db.Pooled.{Deadline, Pool, acquire}
use project_db.Contract.{ProtoProject, ListProjectsRequest, ListProjectsResponse}
use project_db.Read.Projects.{
  row_to_project, with_aliases, with_grants, fill, put_aliases, put_grants,
}
use project_db.Read.Pages.{page_size, status_filter, validate_under, page_rows, list, max_page}

length-map : {A B : Type 0} (f : A → B) (xs : List A) → length (map f xs) ≡ length xs
length-map f [] = refl
length-map f (x ∷ xs) = ap suc (length-map f xs)

length-take : {A : Type 0} (n : ℕ) (xs : List A) → length (take n xs) ≤ n
length-take zero xs = omega arith
length-take (suc n) [] = omega arith
length-take (suc n) (x ∷ xs) = omega (arith, length-take n xs)

ok_eq : {A : Type 0} {a b : A} → ◌≡◌ {A = Result Status A} (ok a) (ok b) → a ≡ b
ok_eq h = cc

filled_length :
    {X : Type 0} (b : Bool) (m : Result Status X) (f : X → ProtoProject → ProtoProject)
    (ps : List ProtoProject) {qs : List ProtoProject}
    → (if b then ok ps else m >>= λ x. ok (map (f x) ps)) ≡ ok qs
    → length qs ≡ length ps
filled_length true m f ps h = ap length (sym (ok_eq h))
filled_length false (ok x) f ps h = ap length (sym (ok_eq h)) ∙ length-map (f x) ps
filled_length false (err e) f ps h = cc

with_aliases-length :
    (session : Session) (ps : List ProtoProject) {qs : List ProtoProject}
    → with_aliases session ps ≡ ok qs
    → length qs ≡ length ps
unfolding with_aliases
with_aliases-length session ps h = filled_length _ _ (λ pairs. fill (put_aliases pairs)) ps h

with_grants-length :
    (session : Session) (ps : List ProtoProject) {qs : List ProtoProject}
    → with_grants session ps ≡ ok qs
    → length qs ≡ length ps
unfolding with_grants
with_grants-length session ps h = filled_length _ _ (λ rows. fill (put_grants rows)) ps h

pub page_size-bounds : (n : ℤ) → (0 < page_size n) × (page_size n ≤ max_page)
unfolding page_size
page_size-bounds (pos k) = (ground arith, ground arith)
page_size-bounds (negsuc k) = (ground arith, ground arith)

>>-ok :
    {A : Type 0} (m : Result Status (Unit {0})) (k : Result Status A) {a : A}
    → (m >> k) ≡ ok a
    → k ≡ ok a
>>-ok (ok u) k h = h
>>-ok (err e) k h = cc

-- Whatever page size a caller asks for, negative and huge ones included, a page that is returned
-- holds no more projects than the size that the service settles on, which is between 1 and 500.
pub list-bounds :
    (session : Session) (pool : Pool) (req : ListProjectsRequest) (deadline : Deadline)
    {page : ListProjectsResponse}
    → list session pool req deadline ≡ ok page
    → (length page.projects ≤ page_size req.page_size) × (page_size req.page_size ≤ max_page)
unfolding list
list-bounds session pool req deadline {page} h =
    let limit = page_size req.page_size in
    let (st, _, h₁) = >>=-eq-ok (status_filter req.status) _ h in
    let (rows, _, h₂) =
      >>=-eq-ok
        (validate_under req.under_path
          >> acquire pool deadline
          >> query session 0 (page_rows req.under_path st req.page_token limit))
        _ h₁ in
    let (aliased, a, h₃) =
      >>=-eq-ok (with_aliases session (map row_to_project (take limit rows))) _ h₂ in
    let (projects, g, h₄) = >>=-eq-ok (with_grants session aliased) _ h₃ in
    (
      subst (λ (p : ListProjectsResponse). length p.projects ≤ limit) (ok_eq h₄)
          (omega (
            arith,
            with_grants-length session aliased g,
            with_aliases-length session (map row_to_project (take limit rows)) a,
            length-map row_to_project (take limit rows),
            length-take limit rows,
          )),
      (page_size-bounds req.page_size).1,
    )
