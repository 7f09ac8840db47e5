-- ===== src/Store/Agents/Invocations/Apart.antt =====
-- internal/store/agents.go: the operations that leave the reservations of tool calls alone.
use tintwire.Prelude.{ℕ, String, List, string_eq}
use tintwire.Store.Keeps.{
  Keeps, bind-Keeps, query-Keeps, require-Keeps, require_some-Keeps, exec-Keeps, pure-Keeps,
  branch-Keeps, transaction-Keeps,
}
use tintwire.Store.Login.{Platform}
use tintwire.Store.Agents.{
  Invocation, CreateAgentInput, NewIds, insert_agent, create_agent, agent_for_token, revoke_agent,
}
use tintwire.Store.Agents.Runs.{
  start_agent_run, finish_agent_run, add_run_event, record_event_of, record_agent_run_event,
}

module _ (P : List Invocation → Type 0) where
  pub create-Keeps :
      (platform : Platform) (ids : NewIds) (input : CreateAgentInput)
      → Keeps (λ db. P db.invocations) (create_agent platform ids input)
  unfolding create_agent insert_agent
  create-Keeps platform ids input = bind-Keeps _ _ (require-Keeps _ _) λ _.
      bind-Keeps _ _ (require-Keeps _ _) λ _. transaction-Keeps _ (
        bind-Keeps _ _ (query-Keeps _) λ _. bind-Keeps _ _ (require-Keeps _ _) λ _.
          bind-Keeps _ _ (exec-Keeps _ λ s h. h) λ _. bind-Keeps _ _ (query-Keeps _) λ _.
            bind-Keeps _ _ (query-Keeps _) λ _. bind-Keeps _ _ (require-Keeps _ _) λ _.
              bind-Keeps _ _ (exec-Keeps _ λ s h. h) λ _. bind-Keeps _ _ (query-Keeps _) λ _.
                bind-Keeps _ _ (require-Keeps _ _)
                  λ _. bind-Keeps _ _ (exec-Keeps _ λ s h. h) λ _. pure-Keeps _)

  pub token-Keeps :
      (platform : Platform) (token : String) (now : ℕ)
      → Keeps (λ db. P db.invocations) (agent_for_token platform token now)
  unfolding agent_for_token
  token-Keeps platform token now = bind-Keeps _ _ (require-Keeps _ _) λ _.
      bind-Keeps _ _ (query-Keeps _) λ row. bind-Keeps _ _ (require_some-Keeps _ _) λ c.
        bind-Keeps _ _ (query-Keeps _) λ live. bind-Keeps _ _ (require_some-Keeps _ _) λ r.
          bind-Keeps _ _ (query-Keeps _) λ principal. bind-Keeps _ _ (query-Keeps _) λ owned.
            bind-Keeps _ _ (require_some-Keeps _ _) λ u.
              bind-Keeps _ _ (require-Keeps _ _)
                λ _. bind-Keeps _ _ (exec-Keeps _ λ s h. h) λ _. pure-Keeps _

  pub revoke-Keeps :
      (name : String) (now : ℕ) → Keeps (λ db. P db.invocations) (revoke_agent name now)
  unfolding revoke_agent
  revoke-Keeps name now = transaction-Keeps _ (
      bind-Keeps _ _ (query-Keeps _) λ row. bind-Keeps _ _ (require_some-Keeps _ _) λ r.
        bind-Keeps _ _ (exec-Keeps _ λ s h. h)
          λ _. bind-Keeps _ _ (exec-Keeps _ λ s h. h) λ _. exec-Keeps _ λ s h. h)

  pub start-Keeps :
      (id agent initiator purpose : String) (now : ℕ)
      → Keeps (λ db. P db.invocations) (start_agent_run id agent initiator purpose now)
  unfolding start_agent_run
  start-Keeps id agent initiator purpose now = bind-Keeps _ _ (require-Keeps _ _) λ _.
      bind-Keeps _ _ (query-Keeps _) λ _. bind-Keeps _ _ (query-Keeps _) λ _.
        bind-Keeps _ _ (require-Keeps _ _)
          λ _. bind-Keeps _ _ (exec-Keeps _ λ s h. h) λ _. pure-Keeps _

  pub finish-Keeps :
      (agent run state : String) (now : ℕ)
      → Keeps (λ db. P db.invocations) (finish_agent_run agent run state now)
  unfolding finish_agent_run
  finish-Keeps agent run state now = bind-Keeps _ _ (require_some-Keeps _ _) λ _.
      bind-Keeps _ _ (query-Keeps _) λ _. bind-Keeps _ _ (exec-Keeps _ λ s h. h) λ _.
        bind-Keeps _ _ (query-Keeps _)
          λ _. bind-Keeps _ _ (require-Keeps _ _) λ _. require-Keeps _ _

  pub record-Keeps :
      (agent run tool notification : String) (now : ℕ)
      → Keeps (λ db. P db.invocations) (record_agent_run_event agent run tool notification now)
  unfolding record_agent_run_event record_event_of add_run_event
  record-Keeps agent run tool notification now = branch-Keeps _ _ _ (pure-Keeps _) (
      bind-Keeps _ _ (query-Keeps _) λ _. bind-Keeps _ _ (require_some-Keeps _ _) λ _.
        bind-Keeps _ _ (require-Keeps _ _) λ _. bind-Keeps _ _ (query-Keeps _) λ _.
          bind-Keeps _ _ (require-Keeps _ _)
            λ _. bind-Keeps _ _ (exec-Keeps _ λ s h. h) λ _. exec-Keeps _ λ s h. h)
