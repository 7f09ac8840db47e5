-- ===== src/Store/Admin/Access.antt =====
-- internal/store/user_admin.go: access that is taken away is gone, also for the sessions of
-- internal/store/store.go.
use tintwire.Prelude.{
  ℕ, ◌≢◌, String, ◌≡◌, refl, Bool, true, false, Option, none, some, ◌==◌, string_eq, arith, eq_iff,
  Bool-cases, inl, inr, any_row, any_row_of_mem, any_row-deleted, any_row-cleared,
  select_where-holds, select_where-mem, update_where,
}
use tintwire.Store.Op.{ok, err, Op, query, require, ◌>>=◌, invalid_credentials}
use tintwire.Store.Keeps.{
  Keeps, bind-Keeps, query-Keeps, require-Keeps, exec-Keeps, pure-Keeps, branch-Keeps,
}
use tintwire.Store.Ensures.{
  Ensures, query_then-Ensures, require_then-Ensures, exec_then-Ensures, call-Ensures, pure-Ensures,
  require_some_then-Ensures, transaction-Ensures,
}
use tintwire.Store.Login.{Platform, LoginUser, LoginDb}
use tintwire.Store.Login.Sessions.{
  can_log_in, user_for_session, create_session_with_token, insert_session_for,
}
use tintwire.Store.Admin.{
  AdminDb, managed_user_state, record_admin_audit, audit_if, set_accounts, with_disabled,
  set_managed_user_disabled, revoke_managed_user_sessions, reset_managed_user_password, Call,
  sets_admin, sets_disabled, revokes_sessions, resets_password, removes_member, sets_member,
  operation_of,
}

abbrev pub has_session : String → AdminDb → Bool
has_session user_id db = any_row (λ s. s.user_id == user_id) db.login.sessions

-- the user whose sessions a call ends
abbrev pub ended_user : Call → Option String
ended_user (sets_disabled actor user true now) = some user
ended_user (revokes_sessions actor user now) = some user
ended_user (resets_password actor user password hashed now) = some user
ended_user _ = none

abbrev pub is_disabling : Call → Bool
is_disabling (sets_disabled actor user true now) = true
is_disabling _ = false

-- What is left of a user's access after a call that ends it: no token stands for the user at any time, and
-- a disabled user gets no new session.
pub record Ended (platform : Platform) (c : Call) (user_id : String) (db : AdminDb) : Type 0 where
  pub sessions :
      (token : String) (t : ℕ) (u : LoginUser)
      → (user_for_session platform token t db.login).1 ≡ ok u
      → u.id ≢ user_id
  pub refused :
      is_disabling c ≡ true
      → (token : String) (lifetime now : ℕ)
      → (create_session_with_token platform user_id token lifetime now db.login).1
        ≡ err invalid_credentials

-- An audit row leaves the accounts and sessions alone.
record_admin_audit-Keeps :
    (login : LoginDb) (actor target action detail : String) (now : ℕ)
    → Keeps (λ db. db.login ≡ login) (record_admin_audit actor target action detail now)
unfolding record_admin_audit
record_admin_audit-Keeps login actor target action detail now =
    bind-Keeps _ _ (query-Keeps _)
      λ known. bind-Keeps _ _ (require-Keeps _ _) λ _. exec-Keeps _ λ s h. h

audited-Ensures :
    (P : LoginDb → Type 0) (m : Op AdminDb (Unit {0})) (s : AdminDb)
    → Keeps (λ db. db.login ≡ s.login) m
    → P s.login
    → Ensures (λ _ t. P t.login) m s
audited-Ensures P m s keeps h = record { from = λ a e. rw (keeps.from s refl) h }

-- no account of the user can log in
abbrev IsShut : String → LoginDb → Type 0
IsShut user_id l = any_row (can_log_in user_id) l.accounts ≡ false

abbrev HasNone : String → LoginDb → Type 0
HasNone user_id l = any_row (λ s. s.user_id == user_id) l.sessions ≡ false

module _ (platform : Platform) (user_id : String) where
  session-Ensures :
      (token : String) (t : ℕ) (l : LoginDb)
      → HasNone user_id l
      → Ensures (λ u _. u.id ≢ user_id) (user_for_session platform token t) l
  unfolding user_for_session
  session-Ensures token t l none_left = query_then-Ensures _ _ _ (
      require_some_then-Ensures _ _ _ _ λ s found. query_then-Ensures _ _ _ (
        require_some_then-Ensures _ _ _ _ λ u able. pure-Ensures _ _ λ same.
          let owner : can_log_in s.user_id u ≡ true = select_where-holds _ l.accounts u able in
          let id : (u.id == s.user_id) ≡ true = ground arith in
          let his : (s.user_id == user_id) ≡ true =
            rw ((eq_iff _ _).0 id) at ((eq_iff u.id user_id).1 same) in
          let m = select_where-mem _ l.sessions s found in
          cc (none_left, any_row_of_mem (λ s. s.user_id == user_id) l.sessions s m his)))

  refused-login :
      (token : String) (lifetime now : ℕ) (l : LoginDb)
      → IsShut user_id l
      → (create_session_with_token platform user_id token lifetime now l).1
        ≡ err invalid_credentials
  unfolding create_session_with_token insert_session_for query require ◌>>=◌
  refused-login token lifetime now l shut = rw (shut, require) refl

audit_if-Keeps :
    (login : LoginDb) (changed : Bool) (actor target action detail : String) (now : ℕ)
    → Keeps (λ db. db.login ≡ login) (audit_if changed actor target action detail now)
audit_if-Keeps login changed actor target action detail now =
    branch-Keeps changed _ _ (record_admin_audit-Keeps login actor target action detail now)
      (pure-Keeps tt)

managed_user_state-Ensures :
    (user_id : String) (s : AdminDb) → Ensures (λ _ t. t ≡ s) (managed_user_state user_id) s
unfolding managed_user_state
managed_user_state-Ensures user_id s =
    query_then-Ensures _ _ _ (
      require_some_then-Ensures _ _ _ _ λ u found. query_then-Ensures _ _ _ (pure-Ensures _ _ refl))

disabled-IsShut :
    (user_id : String) (s : AdminDb)
    → IsShut user_id
        (set_accounts (update_where (λ u. u.id == user_id) (with_disabled true)) s).login
disabled-IsShut user_id s =
    any_row-cleared (λ u. u.id == user_id) (can_log_in user_id) (with_disabled true)
      s.login.accounts
      λ r. elim (Bool-cases (r.id == user_id)) [
        | inl here ↦ rw (here) (ground arith)
        | inr apart ↦ rw (apart, apart) refl
      ]

disabled-Ensures :
    (actor user : String) (now : ℕ) (s : AdminDb)
    → Ensures
        (λ _ t. HasNone user t.login × IsShut user t.login)
        (set_managed_user_disabled actor user true now)
        s
unfolding set_managed_user_disabled
disabled-Ensures actor user now s = require_then-Ensures _ _ _ _ λ other. transaction-Ensures _ _ (
    call-Ensures _ _ _ (managed_user_state-Ensures user s) λ state t same. rw same (
      require_then-Ensures _ _ _ _ λ open_to_change. query_then-Ensures _ _ _ (
        require_then-Ensures _ _ _ _ λ safe. exec_then-Ensures _ _ _ (
          exec_then-Ensures _ _ _ (
            audited-Ensures (λ l. HasNone user l × IsShut user l) _ _ (audit_if-Keeps _ _ _ _ _ _ _)
              (
                any_row-deleted (λ r. r.user_id == user) s.login.sessions,
                disabled-IsShut user s,
              ))))))

revoked-Ensures :
    (actor user : String) (now : ℕ) (s : AdminDb)
    → Ensures (λ _ t. HasNone user t.login) (revoke_managed_user_sessions actor user now) s
unfolding revoke_managed_user_sessions
revoked-Ensures actor user now s = transaction-Ensures _ _ (
    call-Ensures _ _ _ (managed_user_state-Ensures user s) λ state t same. rw same (
      require_then-Ensures _ _ _ _ λ open_to_change. exec_then-Ensures _ _ _ (
        audited-Ensures (HasNone user) _ _ (record_admin_audit-Keeps _ _ _ _ _ _)
          (any_row-deleted (λ r. r.user_id == user) s.login.sessions))))

reset-Ensures :
    (actor user password : String) (hashed : Option String) (now : ℕ) (s : AdminDb)
    → Ensures
        (λ _ t. HasNone user t.login)
        (reset_managed_user_password actor user password hashed now)
        s
unfolding reset_managed_user_password
reset-Ensures actor user password hashed now s = require_then-Ensures _ _ _ _ λ long.
    query_then-Ensures _ _ _ (
      require_some_then-Ensures _ _ _ _ λ u found. query_then-Ensures _ _ _ (
        require_then-Ensures _ _ _ _ λ local. require_some_then-Ensures _ _ _ _ λ hash made.
          transaction-Ensures _ _ (
            exec_then-Ensures _ _ _ (
              exec_then-Ensures _ _ _ (
                audited-Ensures (HasNone user) _ _ (record_admin_audit-Keeps _ _ _ _ _ _)
                  (any_row-deleted (λ r. r.user_id == user) s.login.sessions))))))

ended-Ensures :
    (c : Call) (user_id : String) (s : AdminDb)
    → ended_user c ≡ some user_id
    → Ensures
        (λ _ t. HasNone user_id t.login × (is_disabling c ≡ true → IsShut user_id t.login))
        (operation_of c)
        s
unfolding operation_of
ended-Ensures (sets_disabled actor user true now) user_id s e =
    let same : user ≡ user_id = cc e in
    rw (← same) (record {
      from = λ a done.
          let both = (disabled-Ensures actor user now s).from a done in (both.0, λ _. both.1);
    })
ended-Ensures (revokes_sessions actor user now) user_id s e =
    let same : user ≡ user_id = cc e in
    rw (← same)
      (record { from = λ a done. ((revoked-Ensures actor user now s).from a done, λ h. cc h) })
ended-Ensures (resets_password actor user password hashed now) user_id s e =
    let same : user ≡ user_id = cc e in
    rw (← same) (record {
      from = λ a done. ((reset-Ensures actor user password hashed now s).from a done, λ h. cc h);
    })
ended-Ensures (sets_disabled actor user false now) user_id s e = cc e
ended-Ensures (sets_admin actor user enabled now) user_id s e = cc e
ended-Ensures (removes_member actor channel user now) user_id s e = cc e
ended-Ensures (sets_member actor channel user role now) user_id s e = cc e

-- A call that disables a user, revokes the user's sessions or resets the password, if it succeeds, leaves no
-- token that stands for the user at any time. After the first of them the user gets no new session.
pub access-Ended :
    (platform : Platform) (c : Call) (user_id : String) (db : AdminDb)
    → ended_user c ≡ some user_id
    → (operation_of c db).1 ≡ ok tt
    → Ended platform c user_id (operation_of c db).0
access-Ended platform c user_id db ends done =
    let (none_left, shut) = (ended-Ensures c user_id db ends).from tt done in
    let l = (operation_of c db).0.login in
    record {
      sessions = λ token t u granted.
          (session-Ensures platform user_id token t l none_left).from u granted;
      refused = λ disabling token lifetime now.
          refused-login platform user_id token lifetime now l (shut disabling);
    }
