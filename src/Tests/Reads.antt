-- ===== src/Tests/Reads.antt =====
-- Reads of the sample tables.
use project_db.Base.{
  In, inl, inr, ap, some, codes, ◌≡◌, refl, ◌≤◌, ◌<◌, false, none, [], ◌∷◌, length, take, arith,
}
use project_db.Base.Int.{pos}
use project_db.Status.{ok}
use project_db.Path
use project_db.Path.{refuse_reserved_root, ancestors}
use project_db.Pooled.{acquire, pool_acquire}
use project_db.Session.{query}
use project_db.Contract.{ResolveProjectRequest, ListProjectsRequest, ListProjectsResponse}
use project_db.Read.Resolve.{resolve, ancestor_rows, best_of, response_of, chain_of}
use project_db.Read.Deepest.{Answer, resolve-Answer}
use project_db.Read.Projects.{
  with_aliases, with_grants, row_to_project, alias_pairs, grant_rows, put_aliases, put_grants,
}
use project_db.Read.Pages.{
  list, scan, page_size, status_filter, page_rows, is_empty, max_page, validate_under,
}
use project_db.Read.Bounds.{list-bounds}
use project_db.Store.{Project}
use project_db.Read.Filled.{Quiet, row_paths}
use project_db.Read.Whole.{follow, follow-ends}
use project_db.Read.Resume.{drop, token_of, scan-resumes}
use project_db.Tests.Fixtures.{tables, tables-IsValid, acme, calm_session, ready, patient}

abbrev deep : ResolveProjectRequest
deep = record { scope = none; candidate_path = codes "ACME/Web/api" }

resolve-deep :
    resolve calm_session ready deep patient
    ≡ ok (record {
      resolved_path = codes "acme/web";
      exact = false;
      via_alias = false;
      status = 1;
      source_repo = codes "git/web";
    })
unfolding resolve Path.validate refuse_reserved_root acquire pool_acquire query chain_of
    ancestor_rows best_of response_of
resolve-deep = refl

deep_legal : Path.validate "candidate_path" (codes "ACME/Web/api") ≡ ok tt
unfolding Path.validate
deep_legal = refl

deep_unreserved : refuse_reserved_root "candidate_path" (codes "ACME/Web/api") ≡ ok tt
unfolding refuse_reserved_root
deep_unreserved = refl

served : acquire ready patient ≡ ok tt
unfolding acquire pool_acquire
served = refl

resolve-Answer_example :
    Answer tables (codes "ACME/Web/api") (resolve calm_session ready deep patient)
resolve-Answer_example =
    resolve-Answer calm_session ready deep patient deep_legal deep_unreserved served refl

abbrev first_page : ListProjectsRequest
first_page = record {
  scope = none;
  under_path = codes "acme";
  status = none;
  page_size = pos 1;
  page_token = [];
}

abbrev page : ListProjectsResponse
page = record { projects = row_to_project acme ∷ []; next_page_token = codes "acme" }

list_first : list calm_session ready first_page patient ≡ ok page
unfolding list status_filter page_size Path.validate acquire pool_acquire query page_rows scan
    with_aliases with_grants alias_pairs grant_rows put_aliases put_grants row_to_project
list_first = refl

list-bounds_example : (length page.projects ≤ page_size (pos 1)) × (page_size (pos 1) ≤ max_page)
list-bounds_example = list-bounds calm_session ready first_page patient list_first

one_behind : 0 < length (scan (codes "acme") none [] tables)
unfolding scan
one_behind = omega arith

token_there : is_empty (token_of (take 1 (scan (codes "acme") none [] tables))) ≡ false
unfolding scan row_to_project
token_there = refl

scan-resumes_example :
    scan (codes "acme") none (token_of (take 1 (scan (codes "acme") none [] tables))) tables
    ≡ drop 1 (scan (codes "acme") none [] tables)
scan-resumes_example =
    scan-resumes (codes "acme") none [] 0 tables tables-IsValid one_behind token_there

calm_session-Quiet : Quiet calm_session tables
calm_session-Quiet = record { calm = λ n. refl; tables = λ n. refl }

every_status : status_filter first_page.status ≡ ok none
unfolding status_filter
every_status = refl

under_acme : validate_under first_page.under_path ≡ ok tt
unfolding Path.validate
under_acme = refl

named : (r : Project) → In r tables.projects → is_empty r.path ≡ false
named r m = elim m [
  | inl e ↦ ap (λ (x : Project). is_empty x.path) e
  | inr n ↦ elim n [
    | inl e ↦ ap (λ (x : Project). is_empty x.path) e
    | inr k ↦ elim k [ inl e ↦ ap (λ (x : Project). is_empty x.path) e | inr z ↦ absurd z ]
  ]
]

few_rows : length (scan (codes "acme") none [] tables) < 3
unfolding scan
few_rows = omega arith

-- Pages of one row each, until there is no token.
follow-ends_example :
    follow calm_session ready patient first_page 3 []
    ≡ some (row_paths (scan (codes "acme") none [] tables))
follow-ends_example =
    follow-ends calm_session ready patient first_page tables 3 calm_session-Quiet every_status
      under_acme served tables-IsValid named few_rows
