-- ===== src/Tests/Paths.antt =====
-- Paths, their classes and their patterns.
use project_db.Base.{
  Text, codes, text_eq, byte_len, length, ◌≡◌, refl, ◌↔◌, true, false, Option, some, [], ◌∷◌, In,
  ◌⊎◌, ℕ, ◌≤◌, false, ◌==◌, if◌then◌else◌, arith,
}
use project_db.Status.{ok}
use project_db.Engine.{weight, like, like_under}
use project_db.Engine.Fold.{weight-eq_iff}
use project_db.Sql.{subtree}
use project_db.Sql.Subtree.{IsBeneath, like-subtree_iff}
use project_db.Path.{
  validate, ancestors, is_private_class, account_segment, is_under_own_root, Uuid, strip_prefix,
}
use project_db.Path.Grammar.{IsProjectPath, validate_iff, validate-byte_len}
use project_db.Path.Ancestors.{IsAbove, Descends, mem-ancestors, ancestors-Descends}
use project_db.Path.Check.{IsPathChar, FoldsCase, is_private_class-like_under}

ancestors_of_three : ancestors (codes "a/b/c") ≡ codes "a/b/c" ∷ codes "a/b" ∷ codes "a" ∷ []
unfolding ancestors
ancestors_of_three = refl

wildcards_are_literal : like (codes "a_b/c") (subtree (codes "a%b")) ≡ false
unfolding like subtree
wildcards_are_literal = refl

local_folds : is_private_class (codes "LOCAL/u7/notes") ≡ true
unfolding is_private_class
local_folds = refl

path_valid : validate "path" (codes "acme/web-2") ≡ ok tt
unfolding validate
path_valid = refl

validate_iff_example :
    (validate "path" (codes "acme/web-2") ≡ ok tt) ↔ IsProjectPath (codes "acme/web-2")
validate_iff_example = validate_iff "path" (codes "acme/web-2")

validate-byte_len_example :
    (byte_len (codes "acme/web-2") ≡ length (codes "acme/web-2"))
    × (length (codes "acme/web-2") ≤ 255)
validate-byte_len_example = validate-byte_len "path" (codes "acme/web-2") path_valid

mem-ancestors_example :
    In (codes "a/b") (ancestors (codes "a/b/c"))
    ↔ ((codes "a/b" ≡ codes "a/b/c") ⊎ IsAbove (codes "a/b") (codes "a/b/c"))
mem-ancestors_example = mem-ancestors (codes "a/b/c") (codes "a/b")

ancestors-Descends_example : Descends (ancestors (codes "a/b/c"))
ancestors-Descends_example = ancestors-Descends (codes "a/b/c")

like-subtree_iff_example :
    (like (codes "A%b/c") (subtree (codes "a%b")) ≡ true) ↔ IsBeneath (codes "a%b") (codes "A%b/c")
like-subtree_iff_example = like-subtree_iff (codes "a%b") (codes "A%b/c")

-- A collation that takes an accented letter for the letter.
abbrev accents : ℕ → ℕ
accents c = if c == 233 then weight b'e' else weight c

no_accent : (c : ℕ) → IsPathChar c → (c == 233) ≡ false
no_accent c h = ground arith

accents-FoldsCase : FoldsCase accents
accents-FoldsCase c d p q = rw (no_accent c p, no_accent d q) (weight-eq_iff c d)

accents_fold : like_under accents (233 ∷ []) (codes "e") ≡ true
unfolding like_under weight
accents_fold = refl

private_valid : validate "path" (codes "LOCAL/u7") ≡ ok tt
unfolding validate
private_valid = refl

is_private_class-like_under_example :
    is_private_class (codes "LOCAL/u7") ≡ like_under accents (codes "LOCAL/u7") (codes "local/%")
is_private_class-like_under_example =
    is_private_class-like_under accents accents-FoldsCase "path" (codes "LOCAL/u7") private_valid

-- A parser that takes every text for a version 7 uuid in its own spelling.
abbrev trusting : Text → Option Uuid
trusting t = some (record { version_num = 7; is_rfc4122 = true; hyphenated = t })

owned : account_segment trusting (codes "yadgar:user:u7") ≡ some (codes "u7")
unfolding account_segment strip_prefix text_eq
owned = refl

under : is_under_own_root (codes "local/u7/notes") (codes "u7") ≡ true
unfolding is_under_own_root
under = refl
