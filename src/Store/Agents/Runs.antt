-- ===== src/Store/Agents/Runs.antt =====
-- `StartAgentRun`, `FinishAgentRun` and `RecordAgentRunEvent` of internal/store/agents.go.
use tintwire.Prelude.{
  ℕ, String, Bool, not, Option, none, some, ◌∷◌, ◌&&◌, ◌||◌, ◌==◌, string_eq, nat_eq, leb,
  if◌then◌else◌, any_row, select_where, count_where, update_where, trim_space, byte_length,
}
use tintwire.Store.Op.{
  Op, pure, query, exec, require, require_some, ◌>>=◌, ◌>>◌, not_found, invalid_input,
  invalid_transition, constraint,
}
use tintwire.Store.Agents.{
  AgentRun, AgentRunEvent, RunState, run_running, run_completed, run_failed, run_cancelled, AgentDb,
  set_runs, is_user, is_running,
}

-- the row that `StartAgentRun` inserts
abbrev pub new_run : String → String → String → String → ℕ → AgentRun
new_run id agent_id initiator purpose now = record {
  id = id;
  agent_id = agent_id;
  initiator = initiator;
  purpose = trim_space purpose;
  state = run_running;
  created_at = now;
  updated_at = now;
}

-- the references of a run
abbrev pub has_run_references : String → String → AgentDb → Bool
has_run_references agent_id initiator db =
    any_row (λ r. r.agent.id == agent_id) db.agents && (initiator == "" || is_user initiator db)

unfoldable pub start_agent_run : String → String → String → String → ℕ → Op AgentDb AgentRun
start_agent_run id agent_id initiator purpose now = do
  require (not (trim_space purpose == "") && leb (byte_length (trim_space purpose)) 500)
      invalid_input
  allowed ← query (has_run_references agent_id initiator)
  taken ← query (λ db. any_row (λ r. r.id == id) db.runs)
  require (allowed && not taken) constraint
  exec (set_runs (λ rows. new_run id agent_id initiator purpose now ∷ rows))
  pure (new_run id agent_id initiator purpose now)

-- the states that end a run
abbrev pub final_state : String → Option RunState
final_state state =
    if state == "completed"
    then some run_completed
    else if state == "failed"
    then some run_failed
    else if state == "cancelled"
    then some run_cancelled
    else none

abbrev pub is_run_of : String → String → AgentRun → Bool
is_run_of agent_id run_id r = r.id == run_id && r.agent_id == agent_id

abbrev pub is_open_run : String → String → AgentRun → Bool
is_open_run agent_id run_id r = is_run_of agent_id run_id r && is_running r.state

abbrev pub close_run : RunState → ℕ → AgentRun → AgentRun
close_run state now r = record r { state = state; updated_at = now }

unfoldable pub finish_agent_run : String → String → String → ℕ → Op AgentDb (Unit {0})
finish_agent_run agent_id run_id name now = do
  state ← require_some (final_state name) invalid_transition
  changed ← query (λ db. count_where (is_open_run agent_id run_id) db.runs)
  exec (set_runs (update_where (is_open_run agent_id run_id) (close_run state now)))
  exists ← query (λ db. any_row (is_run_of agent_id run_id) db.runs)
  require (not (changed == 0) || exists) not_found
  require (not (changed == 0)) invalid_transition

-- the `INSERT` of an event and the `UPDATE` of its run
unfoldable pub add_run_event : AgentRunEvent → Op AgentDb (Unit {0})
add_run_event e = do
  allowed ←
      query (λ db.
        e.notification_id == "" || any_row (λ id. id == e.notification_id) db.notification_ids)
  require allowed constraint
  exec (λ db. record db { run_events = e ∷ db.run_events })
  exec (
      set_runs (update_where (λ r. r.id == e.run_id) (λ r. record r { updated_at = e.created_at })))

-- the rest of `RecordAgentRunEvent` for a run
unfoldable pub record_event_of : String → String → String → String → ℕ → Op AgentDb (Unit {0})
record_event_of agent_id run_id tool notification_id now = do
  row ← query (λ db. select_where (is_run_of agent_id run_id) db.runs)
  r ← require_some row not_found
  require (is_running (r.state)) invalid_transition
  add_run_event
      (record { run_id = run_id; tool = tool; notification_id = notification_id; created_at = now })

-- `RecordAgentRunEvent`
unfoldable pub record_agent_run_event :
    String → String → String → String → ℕ → Op AgentDb (Unit {0})
record_agent_run_event agent_id run_id tool notification_id now =
    if run_id == "" then pure tt else record_event_of agent_id run_id tool notification_id now
