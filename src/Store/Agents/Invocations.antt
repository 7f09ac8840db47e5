-- ===== src/Store/Agents/Invocations.antt =====
-- `ReserveAgentToolInvocation`, `CompleteAgentToolInvocation` and `ReleaseAgentToolInvocation` of
-- internal/store/agents.go: a tool call with a key is run once.
pub mod Apart
pub mod Replay
use tintwire.Prelude.{
  ℕ, ◌+◌, String, Bool, true, false, not, Option, none, some, List, ◌∷◌, ◌&&◌, ◌==◌, string_eq, ltb,
  any_row, select_where, update_where, delete_where,
}
use tintwire.Store.Op.{
  Op, pure, query, exec, require, ◌>>=◌, ◌>>◌, invalid_transition, constraint, import_conflict,
}
use tintwire.Store.Agents.{Invocation, AgentDb}

abbrev pub set_invocations : (List Invocation → List Invocation) → AgentDb → AgentDb
set_invocations f db = record db { invocations = f db.invocations }

-- `WHERE agent_id=? AND idempotency_key=?`
abbrev pub is_invocation : String → String → Invocation → Bool
is_invocation agent_id key i = i.agent_id == agent_id && i.key == key

-- a reservation that has not been completed 15 minutes after it was made
abbrev pub is_abandoned : String → String → ℕ → Invocation → Bool
is_abandoned agent_id key now i =
    is_invocation agent_id key i && not i.completed && ltb (i.created_at + 900000) now

abbrev pub reservation : String → String → String → String → ℕ → Invocation
reservation agent_id key tool fingerprint now = record {
  agent_id = agent_id;
  key = key;
  tool = tool;
  fingerprint = fingerprint;
  completed = false;
  result = "";
  created_at = now;
}

-- the `INSERT`, or the answer of the row that has the key; the result is "" for a fresh reservation
unfoldable pub insert_or_replay :
    String → String → String → String → ℕ → Option Invocation → Op AgentDb (String × Bool)
insert_or_replay agent_id key tool fingerprint now none = do
  known ← query (λ db. any_row (λ r. r.agent.id == agent_id) db.agents)
  require known constraint
  exec (set_invocations (λ rows. reservation agent_id key tool fingerprint now ∷ rows))
  pure ("", true)
insert_or_replay agent_id key tool fingerprint now (some i) = do
  require (i.tool == tool && i.fingerprint == fingerprint) import_conflict
  require (i.completed) invalid_transition
  pure (i.result, false)

unfoldable pub reserve_agent_tool_invocation :
    String → String → String → String → ℕ → Op AgentDb (String × Bool)
reserve_agent_tool_invocation agent_id key tool fingerprint now = do
  exec (set_invocations (delete_where (is_abandoned agent_id key now)))
  row ← query (λ db. select_where (is_invocation agent_id key) db.invocations)
  insert_or_replay agent_id key tool fingerprint now row

abbrev pub complete_with : String → Invocation → Invocation
complete_with result i = record i { completed = true; result = result }

unfoldable pub complete_agent_tool_invocation : String → String → String → Op AgentDb (Unit {0})
complete_agent_tool_invocation agent_id key result =
    exec (set_invocations (update_where (is_invocation agent_id key) (complete_with result)))

unfoldable pub release_agent_tool_invocation : String → String → Op AgentDb (Unit {0})
release_agent_tool_invocation agent_id key =
    exec (set_invocations (delete_where (λ i. is_invocation agent_id key i && not i.completed)))
