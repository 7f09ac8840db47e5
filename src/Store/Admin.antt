-- ===== src/Store/Admin.antt =====
-- internal/store/user_admin.go: an administrator changes users, their access and their memberships.
pub mod Administrators
pub mod Access
mod Tests
use Prim.Native.String.{◌++◌}
use tintwire.Prelude.{
  ℕ, String, Bool, true, false, not, Option, none, some, List, [], ◌∷◌, ◌&&◌, ◌||◌, ◌==◌, string_eq,
  ltb, leb, if◌then◌else◌, any_row, find_row, count_where, update_where, delete_where, lookup,
  insert, byte_length,
}
use tintwire.Store.Op.{
  Op, pure, query, exec, require, require_some, transaction, ◌>>=◌, ◌>>◌, forbidden, invalid_input,
  constraint, invalid_credentials, last_administrator, own_account,
}
use tintwire.Store.Tables.{Agent, Channel, Membership, Role, viewer, operator, channel_admin}
use tintwire.Store.Login.{Account, Session, LoginDb}
use tintwire.Store.Login.Sessions.{set_sessions}

-- a row of `admin_audit_events`
pub record AdminAudit : Type 0 where
  pub actor_user_id : String
  pub target_user_id : String
  pub action : String
  pub detail : String
  pub created_at : ℕ

-- The tables of accounts and sessions, with the users' `password_hash`, empty where there is no entry, and
-- the tables that the operations read and write beside them.
pub record AdminDb : Type 0 where
  pub login : LoginDb
  pub passwords : List (String × String)
  pub agents : List Agent
  pub channels : List Channel
  pub memberships : List Membership
  pub audit : List AdminAudit

abbrev pub set_login : (LoginDb → LoginDb) → AdminDb → AdminDb
set_login f db = record db { login = f db.login }

abbrev pub set_accounts : (List Account → List Account) → AdminDb → AdminDb
set_accounts f = set_login (λ l. record l { accounts = f l.accounts })

abbrev pub set_memberships : (List Membership → List Membership) → AdminDb → AdminDb
set_memberships f db = record db { memberships = f db.memberships }

abbrev pub account_row : String → AdminDb → Option Account
account_row id db = find_row (λ u. u.id) id db.login.accounts

-- `localInboxUserID`
abbrev pub local_inbox_user_id : String
local_inbox_user_id = "usr_tintwire_local_inbox"

-- `EXISTS(SELECT 1 FROM agents a WHERE a.user_id=…)`
abbrev pub is_agent : AdminDb → String → Bool
is_agent db id = any_row (λ a. a.user_id == id) db.agents

abbrev pub or_empty : Option String → String
or_empty none = ""
or_empty (some s) = s

abbrev pub is_none : Option String → Bool
is_none none = true
is_none (some s) = false

-- `length(password_hash)=0`
abbrev pub has_no_password : AdminDb → String → Bool
has_no_password db id = or_empty (lookup id db.passwords) == ""

-- whether `managedUserState` protects a user
unfoldable pub is_protected : AdminDb → Account → Bool
is_protected db u =
    u.id == local_inbox_user_id
    || is_agent db u.id
    || has_no_password db u.id && is_none u.oidc_subject

-- the `CASE` that names how a user logs in
unfoldable pub auth_type : AdminDb → Account → String
auth_type db u =
    if u.id == local_inbox_user_id
    then "system"
    else if is_agent db u.id
    then "agent"
    else if has_no_password db u.id && is_none u.oidc_subject
    then "bot"
    else if is_none u.oidc_subject
    then "password"
    else "oidc"

-- `managedUserState`, with the row itself
unfoldable pub managed_user_state : String → Op AdminDb (Bool × Account)
managed_user_state user_id = do
  row ← query (account_row user_id)
  u ← require_some row invalid_credentials
  protected ← query (λ db. is_protected db u)
  pure (protected, u)

abbrev pub is_user : String → AdminDb → Bool
is_user id db = any_row (λ u. u.id == id) db.login.accounts

-- `recordAdminAudit`; both users are references.
unfoldable pub record_admin_audit : String → String → String → String → ℕ → Op AdminDb (Unit {0})
record_admin_audit actor_id target_id action detail now = do
  known ← query (λ db. is_user actor_id db && is_user target_id db)
  require known constraint
  exec (λ db. record db {
    audit =
        record {
          actor_user_id = actor_id;
          target_user_id = target_id;
          action = action;
          detail = detail;
          created_at = now;
        }
        ∷ db.audit;
  })

-- an enabled administrator who is neither the local inbox nor an agent
abbrev pub is_administrator : AdminDb → Account → Bool
is_administrator db u =
    u.is_admin && not u.disabled && not (u.id == local_inbox_user_id) && not (is_agent db u.id)

-- the enabled administrators beside a user
abbrev pub other_administrators : String → AdminDb → ℕ
other_administrators id db =
    count_where (λ u. is_administrator db u && not (u.id == id)) db.login.accounts

abbrev pub differs : Bool → Bool → Bool
differs a b = if a then not b else b

abbrev pub word : Bool → String → String → String
word b s t = if b then s else t

abbrev pub audit_if : Bool → String → String → String → String → ℕ → Op AdminDb (Unit {0})
audit_if changed actor_id target_id action detail now =
    if changed then record_admin_audit actor_id target_id action detail now else pure tt

abbrev pub with_admin : Bool → Account → Account
with_admin enabled u = record u { is_admin = enabled }

abbrev pub with_disabled : Bool → Account → Account
with_disabled disabled u = record u { disabled = disabled }

-- `SetManagedUserAdmin`
unfoldable pub set_managed_user_admin : String → String → Bool → ℕ → Op AdminDb (Unit {0})
set_managed_user_admin actor_id user_id enabled now = transaction (do
  state ← managed_user_state user_id
  require (not (state.0)) forbidden
  others ← query (other_administrators user_id)
  require (not (state.1.is_admin && not enabled) || ltb 0 others) last_administrator
  exec (set_accounts (update_where (λ u. u.id == user_id) (with_admin enabled)))
  audit_if (differs (state.1.is_admin) enabled) actor_id user_id "user.admin"
      (word enabled "enabled" "disabled") now)

-- `DELETE FROM sessions WHERE user_id=?`
abbrev pub end_sessions : String → AdminDb → AdminDb
end_sessions user_id = set_login (set_sessions (delete_where (λ s. s.user_id == user_id)))

abbrev pub end_sessions_if : Bool → String → AdminDb → AdminDb
end_sessions_if ends user_id db = if ends then end_sessions user_id db else db

-- `SetManagedUserDisabled`
unfoldable pub set_managed_user_disabled : String → String → Bool → ℕ → Op AdminDb (Unit {0})
set_managed_user_disabled actor_id user_id disabled now = do
  require (not (actor_id == user_id && disabled)) own_account
  transaction (do
    state ← managed_user_state user_id
    require (not (state.0)) forbidden
    others ← query (other_administrators user_id)
    require (not (state.1.is_admin && disabled && not state.1.disabled) || ltb 0 others)
        last_administrator
    exec (set_accounts (update_where (λ u. u.id == user_id) (with_disabled disabled)))
    exec (end_sessions_if disabled user_id)
    audit_if (differs (state.1.disabled) disabled) actor_id user_id "user.access"
        (word disabled "disabled" "enabled") now)

-- `RevokeManagedUserSessions`
unfoldable pub revoke_managed_user_sessions : String → String → ℕ → Op AdminDb (Unit {0})
revoke_managed_user_sessions actor_id user_id now = transaction (do
  state ← managed_user_state user_id
  require (not (state.0)) forbidden
  exec (end_sessions user_id)
  record_admin_audit actor_id user_id "user.sessions" "revoked" now)

-- `ResetManagedUserPassword`; `hashed` is what `bcrypt` makes of the password, none where it fails.
unfoldable pub reset_managed_user_password :
    String → String → String → Option String → ℕ → Op AdminDb (Unit {0})
reset_managed_user_password actor_id user_id password hashed now = do
  require (leb 12 (byte_length password)) invalid_input
  row ← query (account_row user_id)
  u ← require_some row invalid_credentials
  kind ← query (λ db. auth_type db u)
  require (kind == "password") invalid_input
  hash ← require_some hashed invalid_input
  transaction (do
    exec (λ db. record db { passwords = insert user_id hash db.passwords })
    exec (end_sessions user_id)
    record_admin_audit actor_id user_id "user.password" "reset" now)

abbrev pub is_membership : String → String → Membership → Bool
is_membership user_id channel_id m = m.user_id == user_id && m.channel_id == channel_id

-- `RemoveChannelMember`
unfoldable pub remove_channel_member : String → String → String → ℕ → Op AdminDb (Unit {0})
remove_channel_member actor_id channel_id user_id now = transaction (do
  exec (set_memberships (delete_where (is_membership user_id channel_id)))
  record_admin_audit actor_id user_id "user.membership" (channel_id ++ ":none") now)

abbrev pub role_named : String → Option Role
role_named role =
    if role == "viewer"
    then some viewer
    else if role == "operator"
    then some operator
    else if role == "channel_admin"
    then some channel_admin
    else none

-- `INSERT INTO channel_memberships … ON CONFLICT(user_id,channel_id) DO UPDATE`
abbrev pub upsert_membership : String → String → Role → List Membership → List Membership
upsert_membership user_id channel_id role rows =
    if any_row (is_membership user_id channel_id) rows
    then update_where (is_membership user_id channel_id) (λ m. record m { role = role }) rows
    else record { user_id = user_id; channel_id = channel_id; role = role } ∷ rows

-- `SetChannelMemberByID`
unfoldable pub set_channel_member_by_id :
    String → String → String → String → ℕ → Op AdminDb (Unit {0})
set_channel_member_by_id actor_id channel_id user_id name now = do
  role ← require_some (role_named name) invalid_input
  transaction (do
    known ← query (λ db. is_user user_id db && any_row (λ c. c.id == channel_id) db.channels)
    require known invalid_credentials
    exec (set_memberships (upsert_membership user_id channel_id role))
    record_admin_audit actor_id user_id "user.membership" (channel_id ++ ":" ++ name) now)

-- A call of the interface.
pub data Call : Type 0 where
  sets_admin : String → String → Bool → ℕ → Call
  sets_disabled : String → String → Bool → ℕ → Call
  revokes_sessions : String → String → ℕ → Call
  resets_password : String → String → String → Option String → ℕ → Call
  removes_member : String → String → String → ℕ → Call
  sets_member : String → String → String → String → ℕ → Call

unfoldable pub operation_of : Call → Op AdminDb (Unit {0})
operation_of (sets_admin actor user enabled now) = set_managed_user_admin actor user enabled now
operation_of (sets_disabled actor user disabled now) =
    set_managed_user_disabled actor user disabled now
operation_of (revokes_sessions actor user now) = revoke_managed_user_sessions actor user now
operation_of (resets_password actor user password hashed now) =
    reset_managed_user_password actor user password hashed now
operation_of (removes_member actor channel user now) = remove_channel_member actor channel user now
operation_of (sets_member actor channel user role now) =
    set_channel_member_by_id actor channel user role now

-- The database after calls, successful or not.
unfoldable pub after_calls : List Call → AdminDb → AdminDb
after_calls [] db = db
after_calls (c ∷ cs) db = after_calls cs (operation_of c db).0
