-- ===== src/Store/Agents.antt =====
-- internal/store/agents.go: agents, their credentials, their runs and the reservations of their tool calls. Ids and
-- the secret of a new token are arguments.
pub mod Runs
pub mod Invocations
pub mod Calls
pub mod Revocation
mod Tests
use Prim.Native.String.{◌++◌, [], ◌∷◌ as cons}
use Prim.Native.Char.{Char, code}
use text.Mathlib.Text.{starts_with}
use tintwire.Prelude.{
  ℕ, ◌+◌, String, Bool, true, false, not, Option, none, some, List, ◌∷◌ as list_cons, ◌&&◌, ◌||◌,
  ◌==◌, string_eq, nat_eq, ltb, leb, if◌then◌else◌, any_row, find_row, select_where, update_where,
  trim_space, byte_length, all_chars,
}
use tintwire.Store.Op.{
  Op, pure, query, exec, require, require_some, transaction, ◌>>=◌, ◌>>◌, not_found, invalid_input,
  constraint, invalid_credentials,
}
use tintwire.Store.Tables.{User, Agent}
use tintwire.Store.Login.{Platform}

-- a row of `agents`; a text without an OAuth subject stands for NULL
pub record AgentRow : Type 0 where
  pub agent : Agent
  pub revoked : Bool  -- `revoked_at IS NOT NULL`
  pub oauth_subject : String

-- a row of `agent_credentials`
pub record Credential : Type 0 where
  pub id : String
  pub agent_id : String
  pub token_hash : String
  pub revoked : Bool  -- `revoked_at IS NOT NULL`
  pub last_used_at : Option ℕ

pub data RunState : Type 0 where
  run_running run_completed run_failed run_cancelled : RunState

-- a row of `agent_runs`
pub record AgentRun : Type 0 where
  pub id : String
  pub agent_id : String
  pub initiator : String  -- empty for NULL
  pub purpose : String
  pub state : RunState
  pub created_at : ℕ
  pub updated_at : ℕ

-- a row of `agent_run_events`, without its summary
pub record AgentRunEvent : Type 0 where
  pub run_id : String
  pub tool : String
  pub notification_id : String  -- empty for NULL
  pub created_at : ℕ

-- a row of `agent_tool_invocations`
pub record Invocation : Type 0 where
  pub agent_id : String
  pub key : String
  pub tool : String
  pub fingerprint : String
  pub completed : Bool  -- `status = 'completed'`; otherwise 'running'
  pub result : String
  pub created_at : ℕ

pub record AgentDb : Type 0 where
  pub users : List User
  pub agents : List AgentRow
  pub credentials : List Credential
  pub runs : List AgentRun
  pub run_events : List AgentRunEvent
  pub invocations : List Invocation
  pub notification_ids : List String

pub record CreateAgentInput : Type 0 where
  pub name : String
  pub display_name : String
  pub description : String
  pub owner_user_id : String
  pub is_admin : Bool
  pub oauth_subject : String

abbrev pub is_lower_or_digit : Char → Bool
is_lower_or_digit c = let n = code c in leb 0x61 n && leb n 0x7a || leb 0x30 n && leb n 0x39

abbrev pub is_name_char : Char → Bool
is_name_char c = is_lower_or_digit c || code c == 0x5f || code c == 0x2d

-- `agentNamePattern`, ^[a-z0-9][a-z0-9_-]{1,48}$
unfoldable pub is_agent_name : String → Bool
is_agent_name [] = false
is_agent_name (cons c s) =
    is_lower_or_digit c
    && all_chars is_name_char s
    && leb 1 (byte_length s)
    && leb (byte_length s) 48

abbrev pub set_agents : (List AgentRow → List AgentRow) → AgentDb → AgentDb
set_agents f db = record db { agents = f db.agents }

abbrev pub set_credentials : (List Credential → List Credential) → AgentDb → AgentDb
set_credentials f db = record db { credentials = f db.credentials }

abbrev pub set_runs : (List AgentRun → List AgentRun) → AgentDb → AgentDb
set_runs f db = record db { runs = f db.runs }

abbrev pub is_user : String → AgentDb → Bool
is_user id db = any_row (λ u. u.id == id) db.users

-- the input as `CreateAgent` trims it
abbrev pub trimmed : CreateAgentInput → CreateAgentInput
trimmed input = record input {
  name = trim_space input.name;
  display_name = trim_space input.display_name;
  description = trim_space input.description;
  oauth_subject = trim_space input.oauth_subject;
}

abbrev pub display_name_of : CreateAgentInput → String
display_name_of input = if input.display_name == "" then input.name else input.display_name

abbrev pub fits : CreateAgentInput → Bool
fits input =
    leb (byte_length (display_name_of input)) 100
    && leb (byte_length input.description) 500
    && leb (byte_length input.oauth_subject) 255

-- the ids that `newID` draws for a new agent, and its token
pub record NewIds : Type 0 where
  pub agent_id : String
  pub user_id : String
  pub credential_id : String
  pub token : String

-- a row of `agents` that shares a unique column with a new one
abbrev pub collides : NewIds → CreateAgentInput → AgentRow → Bool
collides ids input r =
    r.agent.id == ids.agent_id
    || r.agent.name == input.name
    || r.agent.user_id == ids.user_id
    || not (input.oauth_subject == "") && r.oauth_subject == input.oauth_subject

abbrev pub is_live_agent : AgentRow → Bool
is_live_agent r = r.agent.enabled && not r.revoked

abbrev pub new_agent_row : NewIds → CreateAgentInput → AgentRow
new_agent_row ids input = record {
  agent = record {
    id = ids.agent_id;
    name = input.name;
    owner_user_id = input.owner_user_id;
    user_id = ids.user_id;
    enabled = true;
  };
  revoked = false;
  oauth_subject = input.oauth_subject;
}

module _ (platform : Platform) where
  open platform use {sha256, fold}

  -- the statements of `CreateAgent`
  unfoldable pub insert_agent : NewIds → CreateAgentInput → Op AgentDb AgentRow
  insert_agent ids input = do
    user_taken ← query (λ db.
        any_row (λ u. u.id == ids.user_id || fold u.username == fold ("agent-" ++ input.name))
          db.users)
    require (not user_taken) constraint
    exec (λ db. record db {
      users =
          list_cons
            (record {
              id = ids.user_id;
              username = "agent-" ++ input.name;
              is_admin = input.is_admin;
              disabled = false;
            })
            db.users;
    })
    taken ← query (λ db. any_row (collides ids input) db.agents)
    owned ← query (is_user (input.owner_user_id))
    require (not taken && owned) constraint
    exec (set_agents (list_cons (new_agent_row ids input)))
    known ← query (λ db.
        any_row (λ c. c.id == ids.credential_id || c.token_hash == sha256 ids.token) db.credentials)
    require (not known) constraint
    exec (
        set_credentials (
          list_cons (record {
            id = ids.credential_id;
            agent_id = ids.agent_id;
            token_hash = sha256 ids.token;
            revoked = false;
            last_used_at = none;
          })))
    pure (new_agent_row ids input)

  -- `CreateAgent`
  unfoldable pub create_agent : NewIds → CreateAgentInput → Op AgentDb AgentRow
  create_agent ids input = do
    require (is_agent_name ((trimmed input).name)) invalid_input
    require (fits (trimmed input)) invalid_input
    transaction (insert_agent ids (trimmed input))

  -- a credential that has the hash, is not revoked and belongs to a live agent
  abbrev pub authenticates : String → AgentDb → Credential → Bool
  authenticates token db c =
      c.token_hash == sha256 token
      && not c.revoked
      && any_row (λ r. r.agent.id == c.agent_id && is_live_agent r) db.agents

  -- `AgentForToken`
  unfoldable pub agent_for_token : String → ℕ → Op AgentDb (AgentRow × User)
  agent_for_token token now = do
    require (starts_with token "twa_") invalid_credentials
    row ← query (λ db. select_where (authenticates token db) db.credentials)
    c ← require_some row invalid_credentials
    live ← query (λ db. select_where (λ r. r.agent.id == c.agent_id && is_live_agent r) db.agents)
    r ← require_some live invalid_credentials
    principal ← query (λ db. find_row (λ u. u.id) r.agent.user_id db.users)
    owned ← query (is_user (r.agent.owner_user_id))
    u ← require_some principal invalid_credentials
    require owned invalid_credentials
    exec (
        set_credentials
          (update_where (λ k. k.id == c.id) (λ k. record k { last_used_at = some now })))
    pure (r, u)

  -- `AgentForOAuthSubject`
  unfoldable pub agent_for_oauth_subject : String → Op AgentDb (AgentRow × User)
  agent_for_oauth_subject subject = do
    row ← query (λ db.
        select_where
          (λ r. not (r.oauth_subject == "") && r.oauth_subject == subject && not r.revoked)
          db.agents)
    r ← require_some row invalid_credentials
    principal ← query (λ db. find_row (λ u. u.id) r.agent.user_id db.users)
    u ← require_some principal invalid_credentials
    require (r.agent.enabled) invalid_credentials
    pure (r, u)

abbrev pub is_running : RunState → Bool
is_running run_running = true
is_running _ = false

abbrev pub revoke_row : AgentRow → AgentRow
revoke_row r = record r { agent = record r.agent { enabled = false }; revoked = true }

abbrev pub cancel_run : ℕ → AgentRun → AgentRun
cancel_run now run = record run { state = run_cancelled; updated_at = now }

-- `RevokeAgent`
unfoldable pub revoke_agent : String → ℕ → Op AgentDb (Unit {0})
revoke_agent name now = transaction (do
  row ← query (λ db. find_row (λ r. r.agent.name) (trim_space name) db.agents)
  r ← require_some row not_found
  exec (set_agents (update_where (λ s. s.agent.id == r.agent.id) revoke_row))
  exec (
      set_credentials
        (update_where (λ c. c.agent_id == r.agent.id) (λ c. record c { revoked = true })))
  exec (
      set_runs (
        update_where (λ run. run.agent_id == r.agent.id && is_running run.state) (cancel_run now))))
