-- ===== src/Store/Login/Tests.antt =====
-- Logins of one user, with texts that stand for their own hashes.
use mathlib.Core.List.Memᴰ
use tintwire.Prelude.{
  String, List, ◌≡◌, refl, true, false, none, some, [], ◌∷◌, inl, inr, IsKeyed, any_row,
  byte_length, all_chars, ◌≤◌, if◌then◌else◌, ltb, select_where, trim_space, ◌==◌, string_eq, ◌&&◌,
  not,
}
use tintwire.Store.Op.{ok, err, run, invalid_credentials, desktop_cancelled}
use tintwire.Store.Login.{Platform, Account, Confirmation, pending, approved, LoginDb}
use tintwire.Store.Login.Sessions.{
  create_session_with_token, user_for_session, rotate_session, account_of, can_log_in,
  insert_session_for, insert_session,
}
use tintwire.Store.Login.Sessions.Tokens.{rotate_session-replaces, create_session-authenticates}
use tintwire.Store.Login.States.{
  create_login_state, consume_login_state, oidc_login_state, create-consume_login_state,
  consume_once,
}
use tintwire.Store.Login.Handoffs.{exchange_desktop_handoff, cancel_desktop_confirmation}
use tintwire.Store.Login.Handoffs.Exchange.{Exchanged, exchange_once, cancelled_refused}
use tintwire.Store.Login.Accounts.{
  find_or_create_user, normalize_username, is_plain, free_username, base_username, has_username,
  candidate,
}
use tintwire.Convergence.Ids.{decimal}
use tintwire.Store.Login.Accounts.Usernames.{normalize_username-plain}
use tintwire.Store.Login.Accounts.FreeNames.{free_username-total}
use tintwire.Store.Login.Accounts.Logins.{LoginRequest, after_logins, login_again}

abbrev platform : Platform
platform = record { sha256 = λ s. s; to_lower = λ s. s; fold = λ s. s }

abbrev handoff : String
handoff = "handoff"

abbrev ann : Account
ann = record {
  id = "u1";
  username = "ann";
  is_admin = false;
  disabled = false;
  oidc_subject = none;
}

abbrev asked : Confirmation
asked = record {
  handoff_hash = "handoff";
  confirmation_hash = "secret";
  user_id = "u1";
  verification_code = "1234";
  status = pending;
  expires_at = 900;
}

abbrev empty : LoginDb
empty = record { accounts = ann ∷ []; login_states = []; confirmations = []; sessions = [] }

abbrev granted : LoginDb
granted = record empty { confirmations = record asked { status = approved } ∷ [] }

abbrev waiting : LoginDb
waiting = record empty { confirmations = asked ∷ [] }

abbrev signed_in : LoginDb
signed_in = record empty {
  sessions = record { token_hash = "old"; user_id = "u1"; created_at = 10; expires_at = 500 } ∷ [];
}

granted-IsKeyed : IsKeyed (λ c. c.handoff_hash) granted.confirmations
granted-IsKeyed r m = elim (Memᴰ.cases_cons m) [
  | inl here ↦ rw here refl
  | inr later ↦ absurd (Memᴰ.not-nil later)
]

rotate_session-replaces_example :
    ((user_for_session platform "old" 200
        (rotate_session platform "old" "new" 1000 100 signed_in).0).1
      ≡ err invalid_credentials)
    × ((user_for_session platform "new" 200
          (rotate_session platform "old" "new" 1000 100 signed_in).0).1
        ≡ (user_for_session platform "old" 100 signed_in).1)
unfolding run rotate_session insert_session
rotate_session-replaces_example =
    rotate_session-replaces platform signed_in "old" "new" 1000 100 200 1100 refl refl refl

create_session-authenticates_example :
    (user_for_session platform "new" 200
      (create_session_with_token platform "u1" "new" 1000 100 empty).0).1
    ≡ (if ltb 200 1100
        then account_of (select_where (can_log_in "u1") empty.accounts)
        else err invalid_credentials)
unfolding run create_session_with_token insert_session_for insert_session
create_session-authenticates_example =
    create_session-authenticates platform empty "u1" "new" 1000 100 200 1100 refl

create-consume_login_state_example :
    (consume_login_state platform "s" 200
      (create_login_state platform "s" "v" "n" 600 100 empty).0).1
    ≡ (if ltb 200 700 then ok ("v", "n") else err invalid_credentials)
unfolding run create_login_state
create-consume_login_state_example =
    create-consume_login_state platform empty "s" "v" "n" 600 100 200 refl

consume_once_example :
    let db = (create_login_state platform "s" "v" "n" 600 100 empty).0 in
    ((consume_login_state platform "s" 300 (consume_login_state platform "s" 200 db).0).1
      ≡ err invalid_credentials)
    × ((oidc_login_state platform "s" 300 (consume_login_state platform "s" 200 db).0).1
        ≡ err invalid_credentials)
unfolding run create_login_state consume_login_state
consume_once_example =
    consume_once platform (create_login_state platform "s" "v" "n" 600 100 empty).0 "s" "v" "n" 200
      300 refl

exchange_once_example :
    Exchanged platform "handoff" "new" 1000 100 200 300 granted
      (exchange_desktop_handoff platform "handoff" "new" 1000 100 granted).0
unfolding run exchange_desktop_handoff insert_session_for insert_session
exchange_once_example =
    exchange_once platform granted "handoff" "new" 1000 100 200 300 1100 granted-IsKeyed refl

cancelled_refused_example :
    exchange_desktop_handoff platform "handoff" "new" 1000 300
      (cancel_desktop_confirmation platform "secret" 100 waiting).0
    ≡ (
      (cancel_desktop_confirmation platform "secret" 100 waiting).0,
      err (if not (handoff == "") && ltb 0 1000 then desktop_cancelled else invalid_credentials),
    )
cancelled_refused_example =
    cancelled_refused platform waiting "handoff" "secret" "new" 100 1000 300 asked refl refl

normalizes : normalize_username platform " -ann b.c_ " ≡ "ann-b-c"
unfolding normalize_username trim_space byte_length
normalizes = refl

normalize_username-plain_example :
    (all_chars is_plain (normalize_username platform "ann b.") ≡ true)
    × (byte_length (normalize_username platform "ann b.") ≤ 80)
normalize_username-plain_example = normalize_username-plain platform "ann b."

free_username-total_example :
    (name : String) × (free_username platform 2 (base_username platform "ann") 0 empty ≡ some name)
    × (any_row (has_username platform name) empty.accounts ≡ false)
free_username-total_example = free_username-total platform (λ s t h k e. e) "ann" empty

-- Another subject logs in between.
abbrev between : List LoginRequest
between = record { subject = "other"; preferred = "ann"; id = "u4" } ∷ []

login_again_example :
    find_or_create_user platform "sub" "bob" "u3"
      (after_logins platform between (find_or_create_user platform "sub" "ann" "u2" empty).0)
    ≡ (
      after_logins platform between (find_or_create_user platform "sub" "ann" "u2" empty).0,
      ok (record { id = "u2"; username = "ann-2"; is_admin = false }),
    )
unfolding run find_or_create_user normalize_username trim_space byte_length candidate decimal
login_again_example =
    login_again platform "sub" "ann" "bob" "u2" "u3"
      (record { id = "u2"; username = "ann-2"; is_admin = false }) between empty refl
