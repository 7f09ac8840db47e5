-- ===== src/Store/Login/Sessions.antt =====
-- internal/store/store.go: sessions. The random token of a new session is an argument.
pub mod Tokens
use tintwire.Prelude.{
  ℕ, ◌+◌, String, ◌≡◌, refl, Bool, true, false, not, ◌&&◌, Option, none, some, List, [], ◌∷◌, ◌==◌,
  string_eq, ltb, if◌then◌else◌, any_row, delete_where, select_where, arith, Bool-cases,
  Option-cases, inl, inr, eq_iff,
}
use tintwire.Store.Op.{
  Op, Result, ok, err, pure, query, exec, require, require_some, transaction, ◌>>=◌, ◌>>◌,
  invalid_credentials, constraint, run,
}
use tintwire.Store.Login.{Platform, Account, LoginUser, login_user, Session, LoginDb}
use tintwire.Store.Ensures.{
  Ensures, query_then-Ensures, require_then-Ensures, exec-Ensures, exec_then-Ensures, call-Ensures,
  pure-Ensures, transaction-Ensures, require_some_then-Ensures,
}

abbrev pub can_log_in : String → Account → Bool
can_log_in user_id u = u.id == user_id && not u.disabled

abbrev pub set_sessions : (List Session → List Session) → LoginDb → LoginDb
set_sessions f db = record db { sessions = f db.sessions }

-- `INSERT INTO sessions`; `token_hash` is the table's key.
unfoldable pub insert_session : Session → Op LoginDb (Unit {0})
insert_session s = do
  taken ← query (λ db. any_row (λ r. r.token_hash == s.token_hash) db.sessions)
  require (not taken) constraint
  exec (set_sessions (λ rows. s ∷ rows))

abbrev pub new_session : String → String → ℕ → ℕ → Session
new_session token_hash user_id lifetime now = record {
  token_hash = token_hash;
  user_id = user_id;
  created_at = now;
  expires_at = now + lifetime;
}

-- `INSERT INTO sessions … SELECT … FROM users WHERE id=? AND disabled_at IS NULL`, which must insert
-- one row
unfoldable pub insert_session_for : Session → Op LoginDb (Unit {0})
insert_session_for s = do
  allowed ← query (λ db. any_row (can_log_in (s.user_id)) db.accounts)
  require allowed invalid_credentials
  insert_session s

abbrev pub account_of : Option Account → Result LoginUser
account_of none = err invalid_credentials
account_of (some u) = ok (login_user u)

abbrev pub owner_of : List Account → Option Session → Result LoginUser
owner_of accounts none = err invalid_credentials
owner_of accounts (some s) = account_of (select_where (can_log_in s.user_id) accounts)

module _ (platform : Platform) where
  open platform use {sha256}

  -- `CreateSessionWithToken`, and `CreateSession` with the token that it draws
  unfoldable pub create_session_with_token : String → String → ℕ → ℕ → Op LoginDb ℕ
  create_session_with_token user_id token lifetime now = do
    insert_session_for (new_session (sha256 token) user_id lifetime now)
    pure (now + lifetime)

  unfoldable pub user_for_session : String → ℕ → Op LoginDb LoginUser
  user_for_session token now = do
    row ←
        query (λ db.
          select_where (λ s. s.token_hash == sha256 token && ltb now s.expires_at) db.sessions)
    s ← require_some row invalid_credentials
    account ← query (λ db. select_where (can_log_in (s.user_id)) db.accounts)
    u ← require_some account invalid_credentials
    pure (login_user u)

  unfoldable pub delete_session : String → Op LoginDb (Unit {0})
  delete_session token = exec (set_sessions (delete_where (λ s. s.token_hash == sha256 token)))

  unfoldable pub rotate_session : String → String → ℕ → ℕ → Op LoginDb ℕ
  rotate_session token new_token lifetime now = transaction (do
    row ←
        query (λ db.
          select_where (λ s. s.token_hash == sha256 token && ltb now s.expires_at) db.sessions)
    s ← require_some row invalid_credentials
    exec (set_sessions (delete_where (λ r. r.token_hash == sha256 token)))
    insert_session (new_session (sha256 new_token) (s.user_id) lifetime now)
    pure (now + lifetime))
