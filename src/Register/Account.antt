-- ===== src/Register/Account.antt =====
-- Whose paths `Class::of` of src/write/register.rs lets register.
use project_db.Base.{
  Text, text_eq, text_eq_iff, ◌≡◌, refl, sym, ap, ◌∙◌, ◌↔◌, Bool, true, false, Option, none, some,
  [],
}
use project_db.Status.{Status, Result, ok, >>=-eq-ok, refuse_unless}
use project_db.Path.{Uuid, is_private_class, account_segment, is_under_own_root}
use project_db.Path.Class.{is_under_own_root_unique, account_segment_injective}
use project_db.Store.{visibility_private}
use project_db.Register.{class_of, owned_segment, checked, max_display_name_chars}
use project_db.Register

-- An account may register the path: it is private, and lies under the root that the account's
-- segment names.
pub record Owns (try_parse : Text → Option Uuid) (path actor : Text) : Type 0 where
  pub private : is_private_class path ≡ true
  pub segment : Text
  pub account : account_segment try_parse actor ≡ some segment
  pub under : is_under_own_root path segment ≡ true

unless-ok : (b : Bool) (s : Status) → refuse_unless b s ≡ ok tt → b ≡ true
unless-ok true s h = refl
unless-ok false s h = cc

owned_segment-ok : (o : Option Text) {seg : Text} → owned_segment o ≡ ok seg → o ≡ some seg
owned_segment-ok none h = cc
owned_segment-ok (some s) h = cc

ok_eq : {A : Type 0} {a b : A} → ◌≡◌ {A = Result Status A} (ok a) (ok b) → a ≡ b
ok_eq h = cc

-- The class is given exactly to an account that owns the path and sends no repository, and it
-- names that account as the owner.
pub class_of-ok_iff :
    (try_parse : Text → Option Uuid) (path actor source_repo : Text) (c : Register.Class)
    → (class_of try_parse path actor source_repo ≡ ok c) ↔ (
        Owns try_parse path actor
        × (source_repo ≡ [])
        × (c ≡ record { owner_user_id = actor; visibility = visibility_private }))
unfolding class_of text_eq
class_of-ok_iff try_parse path actor source_repo c = (
  λ h.
      let (_, p, h₁) = >>=-eq-ok (refuse_unless (is_private_class path) _) _ h in
      let (seg, a, h₂) = >>=-eq-ok (owned_segment (account_segment try_parse actor)) _ h₁ in
      let (_, u, h₃) = >>=-eq-ok (refuse_unless (is_under_own_root path seg) _) _ h₂ in
      let (_, r, h₄) = >>=-eq-ok (refuse_unless (text_eq source_repo []) _) _ h₃ in
      (
        record {
          private = unless-ok (is_private_class path) _ p;
          segment = seg;
          account = owned_segment-ok (account_segment try_parse actor) a;
          under = unless-ok (is_under_own_root path seg) _ u;
        },
        (text_eq_iff source_repo []).0 (unless-ok (text_eq source_repo []) _ r),
        sym (ok_eq h₄),
      ),
  λ (w, e, k). rw (w.private, w.account, w.under, e, k) refl,
)

-- No two accounts may register one path, whatever the `uuid` crate answers about their ids.
pub class_of_one_account :
    (try_parse : Text → Option Uuid) (path actor other source_repo source_repo' : Text)
    {c d : Register.Class}
    → class_of try_parse path actor source_repo ≡ ok c
    → class_of try_parse path other source_repo' ≡ ok d
    → actor ≡ other
class_of_one_account try_parse path actor other source_repo source_repo' {c} {d} h k =
    let (w, _, _) = (class_of-ok_iff try_parse path actor source_repo c).0 h in
    let (v, _, _) = (class_of-ok_iff try_parse path other source_repo' d).0 k in
    let same = is_under_own_root_unique path w.segment v.segment w.under v.under in
    account_segment_injective try_parse actor other w.account (v.account ∙ ap some (sym same))
