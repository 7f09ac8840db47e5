-- ===== src/Store/Slash.antt =====
-- internal/store/store.go: the runs of slash commands and the responses that a command's server sends later.
pub mod Limit
mod Tests
use tintwire.Prelude.{
  ℕ, ◌+◌, String, Bool, true, false, not, Option, none, some, List, ◌∷◌, ◌&&◌, ◌||◌, ◌==◌,
  string_eq, ltb, if◌then◌else◌, any_row, find_row, select_where, update_where,
}
use tintwire.Store.Op.{
  Op, pure, query, exec, require, require_some, transaction, ◌>>=◌, ◌>>◌, not_found, forbidden,
  constraint, no_rows, import_conflict,
}

pub record SlashCommandExecution : Type 0 where
  pub id : String
  pub command_id : String
  pub channel_id : String
  pub user_id : String
  pub text : String
  pub response_token_hash : String
  pub request_key : String
  pub expires_at : ℕ

-- a row of `slash_command_executions`
pub record ExecutionRow : Type 0 where
  pub execution : SlashCommandExecution
  pub response_count : ℕ

pub record SlashCommandResponse : Type 0 where
  pub id : String
  pub execution_id : String
  pub user_id : String
  pub response_type : String
  pub text : String
  pub payload : String
  pub created_at : ℕ

-- The tables, and the keys of those that they reference.
pub record SlashDb : Type 0 where
  pub executions : List ExecutionRow
  pub responses : List SlashCommandResponse
  pub command_ids : List String
  pub channel_ids : List String
  pub user_ids : List String

abbrev pub set_execution_rows : (List ExecutionRow → List ExecutionRow) → SlashDb → SlashDb
set_execution_rows f db = record db { executions = f db.executions }

-- a row that shares a unique column with a new one
abbrev pub shares_key : SlashCommandExecution → ExecutionRow → Bool
shares_key e r =
    r.execution.id == e.id
    || r.execution.response_token_hash == e.response_token_hash
    || r.execution.request_key == e.request_key

-- whether the `INSERT` of a run succeeds
abbrev pub is_insertable : SlashCommandExecution → SlashDb → Bool
is_insertable e db =
    not (any_row (shares_key e) db.executions)
    && any_row (λ id. id == e.command_id) db.command_ids
    && any_row (λ id. id == e.channel_id) db.channel_ids
    && any_row (λ id. id == e.user_id) db.user_ids

-- the same request, sent again
abbrev pub is_same_request : SlashCommandExecution → SlashCommandExecution → Bool
is_same_request existing e =
    existing.command_id == e.command_id
    && existing.channel_id == e.channel_id
    && existing.user_id == e.user_id
    && existing.text == e.text

unfoldable pub insert_execution : SlashCommandExecution → Op SlashDb (SlashCommandExecution × Bool)
insert_execution e = do
  exec (set_execution_rows (λ rows. record { execution = e; response_count = 0 } ∷ rows))
  pure (e, true)

unfoldable pub replay_execution : SlashCommandExecution → Op SlashDb (SlashCommandExecution × Bool)
replay_execution e = do
  row ← query (λ db. find_row (λ r. r.execution.request_key) e.request_key db.executions)
  r ← require_some row constraint
  require (is_same_request (r.execution) e) import_conflict
  pure (r.execution, false)

-- `CreateSlashCommandExecution`, with the id that `newID` draws
unfoldable pub create_slash_command_execution :
    SlashCommandExecution → Op SlashDb (SlashCommandExecution × Bool)
create_slash_command_execution e = do
  insertable ← query (is_insertable e)
  if insertable then insert_execution e else replay_execution e

abbrev pub is_response_type : String → Bool
is_response_type t = t == "ephemeral" || t == "in_channel"

abbrev pub response_of : String → ExecutionRow → String → String → String → ℕ → SlashCommandResponse
response_of id r response_type text payload now = record {
  id = id;
  execution_id = r.execution.id;
  user_id = r.execution.user_id;
  response_type = response_type;
  text = text;
  payload = payload;
  created_at = now;
}

-- `AddSlashCommandResponse`
unfoldable pub add_slash_command_response :
    String → String → String → String → String → ℕ → Op SlashDb SlashCommandResponse
add_slash_command_response id execution_id response_type text payload now = do
  row ← query (λ db. find_row (λ r. r.execution.id) execution_id db.executions)
  r ← require_some row no_rows
  taken ← query (λ db. any_row (λ s. s.id == id) db.responses)
  require (not taken && is_response_type response_type) constraint
  exec (λ db. record db {
    responses = response_of id r response_type text payload now ∷ db.responses;
  })
  pure (response_of id r response_type text payload now)

-- `WHERE response_token_hash=?`
abbrev pub has_token : String → ExecutionRow → Bool
has_token token_hash r = r.execution.response_token_hash == token_hash

abbrev pub is_usable_token : ℕ → ExecutionRow → Bool
is_usable_token now r = not (ltb r.execution.expires_at now) && ltb r.response_count 5

abbrev pub count_response : ExecutionRow → ExecutionRow
count_response r = record r { response_count = r.response_count + 1 }

-- what `UseSlashResponseToken` reads of a run: all but the token's hash and the request key
abbrev pub scanned_execution : SlashCommandExecution → SlashCommandExecution
scanned_execution e = record e { response_token_hash = ""; request_key = "" }

-- `UseSlashResponseToken`
unfoldable pub use_slash_response_token : String → ℕ → Op SlashDb SlashCommandExecution
use_slash_response_token token_hash now = transaction (do
  row ← query (λ db. select_where (has_token token_hash) db.executions)
  r ← require_some row not_found
  require (is_usable_token now r) forbidden
  exec (set_execution_rows (update_where (λ s. s.execution.id == r.execution.id) count_response))
  pure (scanned_execution r.execution))

-- A call of the interface.
pub data Call : Type 0 where
  creates : SlashCommandExecution → Call
  responds : String → String → String → String → String → ℕ → Call
  uses : String → ℕ → Call
