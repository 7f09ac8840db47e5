-- ===== src/Store/Admin/Tests.antt =====
-- internal/store/user_admin.go at concrete inputs: two administrators with passwords.
use mathlib.Core.List.Memᴰ
use tintwire.Prelude.{
  String, refl, true, false, none, some, List, [], ◌∷◌, inl, inr, ap, ◌∙◌, sym, IsKeyed, find_row,
  lookup, string_eq,
}
use tintwire.Store.Op.{pure, query, exec, require, require_some, transaction, ◌>>=◌}
use tintwire.Store.Login.{Platform, Account}
use tintwire.Store.Admin.{
  AdminDb, is_protected, managed_user_state, record_admin_audit, set_managed_user_disabled, Call,
  sets_disabled, sets_admin, operation_of, after_calls,
}
use tintwire.Store.Admin.Administrators.{HasAdministrator, after_calls-HasAdministrator}
use tintwire.Store.Admin.Access.{Ended, access-Ended}

abbrev platform : Platform
platform = record { sha256 = λ s. s; to_lower = λ s. s; fold = λ s. s }

abbrev person : String → Account
person id = record {
  id = id;
  username = id;
  is_admin = true;
  disabled = false;
  oidc_subject = none;
}

abbrev two : AdminDb
two = record {
  login = record {
    accounts = person "ann" ∷ person "bob" ∷ [];
    login_states = [];
    confirmations = [];
    sessions = record { token_hash = "t"; user_id = "bob"; created_at = 1; expires_at = 9 } ∷ [];
  };
  passwords = ("ann", "h1") ∷ ("bob", "h2") ∷ [];
  agents = [];
  channels = [];
  memberships = [];
  audit = [];
}

-- Ann disables Bob, and then tries to lose her own rights.
abbrev calls : List Call
calls = sets_disabled "ann" "bob" true 5 ∷ sets_admin "bob" "ann" false 6 ∷ []

two-IsKeyed : IsKeyed (λ (u : Account). u.id) two.login.accounts
two-IsKeyed r m = elim (Memᴰ.cases_cons m) [
  | inl ann ↦
      ap (λ k. find_row (λ (u : Account). u.id) k two.login.accounts)
        (ap (λ (u : Account). u.id) ann)
      ∙ sym (ap some ann)
  | inr rest ↦ elim (Memᴰ.cases_cons rest) [
    | inl bob ↦
        ap (λ k. find_row (λ (u : Account). u.id) k two.login.accounts)
          (ap (λ (u : Account). u.id) bob)
        ∙ sym (ap some bob)
    | inr later ↦ absurd (Memᴰ.not-nil later)
  ]
]

after_calls-HasAdministrator_example : HasAdministrator (after_calls calls two)
after_calls-HasAdministrator_example =
    after_calls-HasAdministrator calls two (record { keyed = two-IsKeyed; someone = refl })

access-Ended_example :
    Ended platform
      (sets_disabled "ann" "bob" true 5)
      "bob"
      (operation_of (sets_disabled "ann" "bob" true 5) two).0
unfolding operation_of set_managed_user_disabled managed_user_state is_protected record_admin_audit
    lookup query exec require require_some transaction pure ◌>>=◌
access-Ended_example = access-Ended platform (sets_disabled "ann" "bob" true 5) "bob" two refl refl
