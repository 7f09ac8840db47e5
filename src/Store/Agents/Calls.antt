-- ===== src/Store/Agents/Calls.antt =====
-- internal/store/agents.go: the calls of the interface that change the tables, in any order.
use tintwire.Prelude.{ℕ, String, List, [], ◌∷◌}
use tintwire.Store.Login.{Platform}
use tintwire.Store.Agents.{
  AgentDb, CreateAgentInput, NewIds, create_agent, agent_for_token, revoke_agent,
}
use tintwire.Store.Agents.Runs.{start_agent_run, finish_agent_run, record_agent_run_event}
use tintwire.Store.Agents.Invocations.{
  reserve_agent_tool_invocation, complete_agent_tool_invocation, release_agent_tool_invocation,
}

pub data Call : Type 0 where
  creates : NewIds → CreateAgentInput → Call
  authenticates_token : String → ℕ → Call
  revokes : String → ℕ → Call
  starts : String → String → String → String → ℕ → Call
  finishes : String → String → String → ℕ → Call
  records : String → String → String → String → ℕ → Call
  reserves : String → String → String → String → ℕ → Call
  completes : String → String → String → Call
  releases : String → String → Call

-- The database after a call, whether it succeeds or fails.
unfoldable pub after_call : Platform → Call → AgentDb → AgentDb
after_call platform (creates ids input) db = (create_agent platform ids input db).0
after_call platform (authenticates_token token now) db = (agent_for_token platform token now db).0
after_call platform (revokes name now) db = (revoke_agent name now db).0
after_call platform (starts id agent initiator purpose now) db =
    (start_agent_run id agent initiator purpose now db).0
after_call platform (finishes agent run state now) db = (finish_agent_run agent run state now db).0
after_call platform (records agent run tool notification now) db =
    (record_agent_run_event agent run tool notification now db).0
after_call platform (reserves agent key tool fingerprint now) db =
    (reserve_agent_tool_invocation agent key tool fingerprint now db).0
after_call platform (completes agent key result) db =
    (complete_agent_tool_invocation agent key result db).0
after_call platform (releases agent key) db = (release_agent_tool_invocation agent key db).0

unfoldable pub after_calls : Platform → List Call → AgentDb → AgentDb
after_calls platform [] db = db
after_calls platform (c ∷ cs) db = after_calls platform cs (after_call platform c db)
