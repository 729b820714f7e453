-- ===== src/Read/Whole.antt =====
-- A client that follows the page tokens of `list` (src/read.rs) on tables that nobody changes.
use project_db.Base.{
  ℕ, zero, suc, ◌-◌, ◌&&◌, ◌<◌, Text, ◌≡◌, refl, sym, ap, ◌∙◌, inl, inr, false, Option, none, some,
  Bool-cases, List, [], ◌++◌, map, length, take, In, In_of_keep, ltb, arith, if◌then◌else◌,
}
use project_db.Status.{ok, err}
use project_db.Engine.Order.{order_by, In_of_order_by}
use project_db.Store.{Store, Project}
use project_db.Store.Valid.{IsValid}
use project_db.Pooled.{Deadline, Pool, acquire}
use project_db.Session.{Session, query}
use project_db.Contract.{ListProjectsRequest, ListProjectsResponse}
use project_db.Read.Projects.{row_to_project}
use project_db.Read.Pages.{
  page_size, status_filter, validate_under, page_rows, list, scan, last_path, is_empty, is_listed,
  is_after,
}
use project_db.Read.Bounds.{page_size-bounds}
use project_db.Read.Resume.{drop, token_of, token_of-In, scan-resumes}
use project_db.Read.Filled.{
  query-ok, row_to_project-path, last_of, last_path-last_of, take-take, ltb-length-take, take-drop,
  length-drop, take_all, with_aliases-ok, with_grants-ok, Quiet, paths, row_paths,
}

-- What the client gathers: the paths of a page, and of the pages behind it while a token is given;
-- none when its fuel runs out or a page is refused.
abbrev pub gathered : List Text → Option (List Text) → Option (List Text)
gathered front none = none
gathered front (some back) = some (front ++ back)

module _ (session : Session) (pool : Pool) (deadline : Deadline) (req : ListProjectsRequest) where
  unfoldable pub follow : ℕ → Text → Option (List Text)
  follow zero token = none
  follow (suc fuel) token = elim (list session pool (record req { page_token = token }) deadline) [
    | err e ↦ none
    | ok page ↦
        let more = gathered (paths page.projects) (follow fuel page.next_page_token) in
        if is_empty page.next_page_token then some (paths page.projects) else more
  ]

  module _ {s : Store} {st : Option ℕ} (q : Quiet session s)
      (filtered : status_filter req.status ≡ ok st) (under : validate_under req.under_path ≡ ok tt)
      (served : acquire pool deadline ≡ ok tt) where
    abbrev limit : ℕ
    limit = page_size req.page_size

    abbrev left : Text → List Project
    left token = scan req.under_path st token s

    -- One page.
    page-ok :
        (token : Text)
        → (page : ListProjectsResponse) × (list session pool
              (record req { page_token = token })
              deadline
            ≡ ok page)
          × (paths page.projects ≡ row_paths (take limit (left token)))
          × (page.next_page_token ≡ (
              if ltb limit (length (left token)) then token_of (take limit (left token)) else []))
    unfolding list
    page-ok token =
        let rows = take (suc limit) (left token) in
        let found : query session 0 (page_rows req.under_path st token limit) ≡ ok rows =
          query-ok q 0 (page_rows req.under_path st token limit) (unfold page_rows in refl) in
        let (aliased, a, same) = with_aliases-ok q (map row_to_project (take limit rows)) in
        let (projects, g, again) = with_grants-ok q aliased in
        let there : paths projects ≡ row_paths (take limit (left token)) =
          again
          ∙ same
          ∙ row_to_project-path (take limit rows)
          ∙ ap row_paths (take-take limit (left token)) in
        (
          record {
            projects = projects;
            next_page_token = if ltb limit (length rows) then last_path projects else [];
          },
          rw (filtered, under, served, found, a, g),
          there,
          ap (λ b. if b then last_path projects else []) (ltb-length-take limit (left token))
              ∙ ap (λ t. if ltb limit (length (left token)) then t else [])
                  (last_path-last_of projects
                    ∙ ap last_of (there ∙ sym (row_to_project-path (take limit (left token))))
                    ∙ sym (last_path-last_of (map row_to_project (take limit (left token))))),
        )

    -- The token behind a page that leaves rows is a path, and the scan from it is what is left.
    token-resumes :
        (token : Text) (n : ℕ)
        → IsValid s
        → ((r : Project) → In r s.projects → is_empty r.path ≡ false)
        → n < length (left token)
        → (is_empty (token_of (take (suc n) (left token))) ≡ false)
          × (left (token_of (take (suc n) (left token))) ≡ drop (suc n) (left token))
    token-resumes token n v named h =
        let (r, m, e) = token_of-In n (left token) h in
        let rows = order_by (λ (x : Project). x.path) s.projects in
        let there =
          In_of_order_by (λ (x : Project). x.path) r s.projects
            (In_of_keep (λ x. is_listed req.under_path st x && is_after token x) r rows
              (unfold scan in m)).0 in
        let some_path = ap is_empty e ∙ named r there in
        (some_path, scan-resumes req.under_path st token n s v h some_path)

    -- The tokens lead through all that is left, in order, and end.
    follow-left :
        (fuel : ℕ) (token : Text)
        → IsValid s
        → ((r : Project) → In r s.projects → is_empty r.path ≡ false)
        → length (left token) < fuel
        → follow fuel token ≡ some (row_paths (left token))
    unfolding follow
    follow-left zero token v named h = absurd (omega arith)
    follow-left (suc fuel) token v named h =
        let (page, e, here, next) = page-ok token in
        let (size, _) = page_size-bounds req.page_size in
        elim (Bool-cases (ltb limit (length (left token)))) [
          | inr ends ↦
              let last : page.next_page_token ≡ [] =
                next ∙ ap (λ b. if b then token_of (take limit (left token)) else []) ends in
              let all = take_all limit (left token) (ground (arith, ends)) in
              rw (e, follow, last) (ap some (here ∙ ap row_paths all))
          | inl goes ↦
              let n : ℕ = limit - 1 in
              let size_is : limit ≡ suc n = omega arith in
              let token' : Text = token_of (take (suc n) (left token)) in
              let longer : n < length (left token) = ground arith in
              let (path, resumes) = token-resumes token n v named longer in
              let onward : page.next_page_token ≡ token' =
                next
                ∙ ap (λ b. if b then token_of (take limit (left token)) else []) goes
                ∙ ap (λ k. token_of (take k (left token))) size_is in
              let rest =
                follow-left fuel token' v named
                  (omega (arith, ap length resumes, length-drop n (left token) longer)) in
              rw (e, follow, onward, path, rest)
                (ap some (
                  ap (λ ts. ts ++ row_paths (left token'))
                    (here ∙ ap (λ k. row_paths (take k (left token))) size_is)
                  ∙ ap (λ rs. row_paths (take (suc n) (left token)) ++ row_paths rs) resumes
                  ∙ take-drop (suc n) (left token)))
        ]

-- On valid tables that nobody changes, without engine errors and with a connection for each call, a
-- client that follows the tokens of an accepted request from its first page has ended, whatever page
-- size it asks for, after one page more than there are rows to list at most, and has the path of
-- every row that the request lists, in order and each once; the rows have paths that are not empty.
pub follow-ends :
    (session : Session) (pool : Pool) (deadline : Deadline) (req : ListProjectsRequest) (s : Store)
    {st : Option ℕ} (fuel : ℕ)
    → Quiet session s
    → status_filter req.status ≡ ok st
    → validate_under req.under_path ≡ ok tt
    → acquire pool deadline ≡ ok tt
    → IsValid s
    → ((r : Project) → In r s.projects → is_empty r.path ≡ false)
    → length (scan req.under_path st [] s) < fuel
    → follow session pool deadline req fuel [] ≡ some (row_paths (scan req.under_path st [] s))
follow-ends session pool deadline req s fuel q filtered under served v named =
    follow-left session pool deadline req q filtered under served fuel [] v named
