-- ===== src/Store/Tables.antt =====
-- internal/store: the rows of the tables, with the columns that the modelled operations use. Times are
-- Unix milliseconds.
use tintwire.Prelude.{ℕ, String, Bool, Option, List}

pub record User : Type 0 where
  pub id : String
  pub username : String
  pub is_admin : Bool
  pub disabled : Bool  -- `disabled_at IS NOT NULL`

pub record Channel : Type 0 where
  pub id : String
  pub name : String
  pub is_public : Bool  -- `visibility = 'public'`

pub data Role : Type 0 where
  viewer operator channel_admin : Role

pub record Membership : Type 0 where
  pub user_id : String
  pub channel_id : String
  pub role : Role

pub record Agent : Type 0 where
  pub id : String
  pub name : String
  pub owner_user_id : String
  pub user_id : String
  pub enabled : Bool

pub record Binding : Type 0 where
  pub channel_id : String
  pub agent_id : String

pub data CommandState : Type 0 where
  queued running cancelling interrupted completed failed cancelled : CommandState

-- `agent_commands`
pub record Command : Type 0 where
  pub id : String
  pub channel_id : String
  pub agent_id : String
  pub message_id : String
  pub author_id : String
  pub state : CommandState
  pub lease_owner : String
  pub lease_until : ℕ
  pub turn_id : String
  pub result : String
  pub cancel_requested : Bool
  pub created_at : ℕ
  pub updated_at : ℕ

-- `channel_messages`
pub record Message : Type 0 where
  pub id : String
  pub channel_id : String
  pub author_user_id : String
  pub parent_id : Option String
  pub deleted : Bool  -- `deleted_at IS NOT NULL`
  pub text : String
  pub created_at : ℕ

-- `admin_audit_events`
pub record AuditEvent : Type 0 where
  pub actor_user_id : String
  pub action : String
  pub detail : String
  pub created_at : ℕ

pub record Db : Type 0 where
  pub users : List User
  pub channels : List Channel
  pub memberships : List Membership
  pub agents : List Agent
  pub bot_token_users : List String  -- `mattermost_bot_tokens.user_id`
  pub bindings : List Binding
  pub commands : List Command
  pub messages : List Message
  pub audit : List AuditEvent
