-- ===== src/Tests/Fixtures.antt =====
-- The tables, requests and outside worlds that the tests run on.
use project_db.Base.{
  Text, codes, false, none, some, [], ◌∷◌, ◌≡◌, ◌≢◌, ◌∙◌, sym, refl, to_ascii_lowercase, text_eq,
  text_eq_iff,
}
use mathlib.Core.Bool.{false≢true}
use project_db.Base.Int.{pos}
use project_db.Status.{ok}
use project_db.Sql.{Scope}
use project_db.Store.{Store, Project, Alias, active, visibility_org, visibility_private, class_ok}
use project_db.Store.Valid.{IsValid}
use project_db.Pooled.{Deadline, Pool}
use project_db.Session.{Session}
use project_db.Tx.{Outside}
use project_db.Contract.{DeclaredProject, SyncProjectsRequest}

-- Row `acme/web` of an organisation, and a private row.
abbrev pub web : Project
web = record {
  id = codes "yadgar:project:w";
  version = 3;
  path = codes "acme/web";
  display_name = codes "Web";
  status = active;
  source_repo = some (codes "git/web");
  owner_user_id = none;
  visibility = visibility_org;
  created_by = codes "seeder";
  updated_by = codes "seeder";
  created_at = 10;
  updated_at = 20;
  last_seen_at = some 30;
}

abbrev pub acme : Project
acme = record web {
  id = codes "yadgar:project:a";
  path = codes "acme";
  display_name = [];
  last_seen_at = none;
}

abbrev pub mine : Project
mine = record web {
  id = codes "yadgar:project:m";
  path = codes "local/u7/notes";
  source_repo = none;
  owner_user_id = some (codes "yadgar:user:u7");
  visibility = visibility_private;
}

abbrev pub former : Alias
former = record { alias_path = codes "acme/old"; project_id = codes "yadgar:project:w" }

abbrev pub tables : Store
tables = record {
  projects = acme ∷ web ∷ mine ∷ [];
  aliases = former ∷ [];
  writes = [];
  grants = [];
}

pub apart : (s t : Text) → text_eq s t ≡ false → s ≢ t
apart s t h e = false≢true (sym h ∙ (text_eq_iff s t).1 e)

pub tables-IsValid : IsValid tables
unfolding class_ok to_ascii_lowercase text_eq
tables-IsValid = record {
  ids = ((apart _ _ refl, (apart _ _ refl, tt)), ((apart _ _ refl, tt), (tt, tt)));
  paths = ((apart _ _ refl, (apart _ _ refl, tt)), ((apart _ _ refl, tt), (tt, tt)));
  classes = refl;
}

-- An engine without faults.
abbrev pub calm : Outside
calm = record { fault = λ n. none; now = λ n. 100; now_v7 = λ n. codes "n"; commit_lands = false }

abbrev pub calm_session : Session
calm_session = record { fault = λ n. none; tables = λ n. tables }

abbrev pub ready : Pool
ready = record { ceiling = 5; answers_at = some 1; answer = ok tt }

abbrev pub patient : Deadline
patient = record { remaining = none; bound = λ t. t }

abbrev pub hurried : Deadline
hurried = record { remaining = some 3; bound = λ t. 3 }

abbrev pub seeder : Scope
seeder = record {
  user_id = codes "seeder";
  project_id = codes "acme";
  instance_id = codes "i";
  request_id = codes "r";
}

abbrev pub root_row : DeclaredProject
root_row = record {
  path = codes "acme";
  display_name = [];
  source_repo = codes "git/acme";
  grants = [];
}

abbrev pub web_row : DeclaredProject
web_row = record {
  path = codes "acme/Web";
  display_name = codes "Web 2";
  source_repo = codes "git/web";
  grants = record { team_id = codes "yadgar:team:core"; level = pos 2 } ∷ [];
}

abbrev pub declaration : SyncProjectsRequest
declaration = record {
  scope = some seeder;
  roots = root_row ∷ [];
  projects = web_row ∷ [];
  allow_mass_archive = false;
  allow_mass_revoke = false;
}
