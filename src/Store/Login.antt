-- ===== src/Store/Login.antt =====
-- internal/store/store.go: accounts, login states, desktop confirmations and sessions. Hashing, case
-- mapping and the collation of usernames are parameters.
pub mod Sessions
pub mod States
pub mod Handoffs
pub mod Accounts
mod Tests
use tintwire.Prelude.{ℕ, String, Bool, Option, List}

-- What the code takes from `crypto/sha256` (over the bytes of a text), `strings.ToLower` and the
-- database's collation of usernames.
pub record Platform : Type 0 where
  pub sha256 : String → String
  pub to_lower : String → String
  pub fold : String → String  -- two usernames are one if they fold to one text

-- a row of `users`
pub record Account : Type 0 where
  pub id : String
  pub username : String
  pub is_admin : Bool
  pub disabled : Bool  -- `disabled_at IS NOT NULL`
  pub oidc_subject : Option String

-- `User`, as the operations return it
pub record LoginUser : Type 0 where
  pub id : String
  pub username : String
  pub is_admin : Bool

abbrev pub login_user : Account → LoginUser
login_user u = record { id = u.id; username = u.username; is_admin = u.is_admin }

-- a row of `oidc_login_states`
pub record LoginState : Type 0 where
  pub state_hash : String
  pub verifier : String
  pub nonce : String
  pub expires_at : ℕ

pub data ConfirmationStatus : Type 0 where
  pending approved cancelled : ConfirmationStatus

-- a row of `oidc_desktop_confirmations`
pub record Confirmation : Type 0 where
  pub handoff_hash : String
  pub confirmation_hash : String
  pub user_id : String
  pub verification_code : String
  pub status : ConfirmationStatus
  pub expires_at : ℕ

-- a row of `sessions`
pub record Session : Type 0 where
  pub token_hash : String
  pub user_id : String
  pub created_at : ℕ
  pub expires_at : ℕ

pub record LoginDb : Type 0 where
  pub accounts : List Account
  pub login_states : List LoginState
  pub confirmations : List Confirmation
  pub sessions : List Session
