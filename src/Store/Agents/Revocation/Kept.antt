-- ===== src/Store/Agents/Revocation/Kept.antt =====
-- internal/store/agents.go: every call keeps what the revocation of an agent has established.
use tintwire.Prelude.{
  ℕ, String, refl, Option, none, some, List, [], ◌∷◌, ◌&&◌, ◌==◌, string_eq, nat_eq, arith,
  Bool-cases, inl, inr, update_where,
}
use tintwire.Store.Keeps.{
  Keeps, bind-Keeps, query-Keeps, require-Keeps, require_some-Keeps, exec-Keeps, pure-Keeps,
  branch-Keeps, transaction-Keeps, query_then-Keeps, require_then-kept, exec_then-kept,
}
use tintwire.Store.Ensures.{
  Ensures, transaction-kept, query_then-Ensures, require_then-Ensures, exec_then-Ensures,
  pure-Ensures,
}
use tintwire.Store.Login.{Platform}
use tintwire.Store.Agents.{
  AgentRow, AgentRun, Invocation, RunState, AgentDb, CreateAgentInput, NewIds, insert_agent,
  create_agent, agent_for_token, is_running, cancel_run, revoke_agent,
}
use tintwire.Store.Agents.Runs.{
  is_open_run, close_run, new_run, start_agent_run, finish_agent_run, add_run_event,
  record_event_of, record_agent_run_event,
}
use tintwire.Store.Agents.Invocations.{
  insert_or_replay, reserve_agent_tool_invocation, complete_agent_tool_invocation,
  release_agent_tool_invocation,
}
use tintwire.Store.Agents.Calls.{
  Call, creates, authenticates_token, revokes, starts, finishes, records, reserves, completes,
  releases, after_call, after_calls,
}
use tintwire.Store.Agents.Revocation.{
  Since, added-Since, revoked-Since, updated-Since, started-Since,
}

module _ (agent_id : String) (before : List AgentRun) where
  -- the tables of a database that go on from the revocation
  abbrev pub Goes : AgentDb → Type 0
  Goes db = Since agent_id before db.agents db.runs

  cancelled-Since :
      (other : String) (now : ℕ) (agents : List AgentRow) (runs : List AgentRun)
      → Since agent_id before agents runs
      → Since agent_id before agents (
          update_where (λ run. run.agent_id == other && is_running run.state) (cancel_run now) runs)
  cancelled-Since other now agents runs h =
      updated-Since agent_id before (λ run. run.agent_id == other && is_running run.state)
        (cancel_run now) agents runs (λ r. refl) (λ r over. rw over (ground arith)) h

  revoke-Keeps : (name : String) (now : ℕ) → Keeps Goes (revoke_agent name now)
  unfolding revoke_agent
  revoke-Keeps name now = transaction-Keeps _ (
      bind-Keeps _ _ (query-Keeps _) λ row. bind-Keeps _ _ (require_some-Keeps _ _) λ r.
        bind-Keeps _ _
          (exec-Keeps _ λ s h. revoked-Since agent_id before r.agent.id now s.agents s.runs h)
          λ _.
            bind-Keeps _ _ (exec-Keeps _ λ s h. h)
              λ _. exec-Keeps _ λ s h. cancelled-Since r.agent.id now s.agents s.runs h)

  insert-Ensures :
      (platform : Platform) (ids : NewIds) (input : CreateAgentInput) (s : AgentDb)
      → Goes s
      → Ensures (λ _ t. Goes t) (insert_agent platform ids input) s
  unfolding insert_agent
  insert-Ensures platform ids input s h = query_then-Ensures _ _ _ (
      require_then-Ensures _ _ _ _ λ unique. exec_then-Ensures _ _ _ (
        query_then-Ensures _ _ _ (
          query_then-Ensures _ _ _ (
            require_then-Ensures _ _ _ _ λ free. exec_then-Ensures _ _ _ (
              query_then-Ensures _ _ _ (
                require_then-Ensures _ _ _ _ λ fresh. exec_then-Ensures _ _ _ (
                  pure-Ensures _ _
                    (added-Since agent_id before ids input s.agents s.runs (ground arith) h))))))))

  create-Keeps :
      (platform : Platform) (ids : NewIds) (input : CreateAgentInput)
      → Keeps Goes (create_agent platform ids input)
  unfolding create_agent
  create-Keeps platform ids input = bind-Keeps _ _ (require-Keeps _ _) λ _.
      bind-Keeps _ _ (require-Keeps _ _) λ _. record {
        from = λ s h. transaction-kept Goes _ s h (insert-Ensures platform ids _ s h);
      }

  token-Keeps :
      (platform : Platform) (token : String) (now : ℕ)
      → Keeps Goes (agent_for_token platform token now)
  unfolding agent_for_token
  token-Keeps platform token now = bind-Keeps _ _ (require-Keeps _ _) λ _.
      bind-Keeps _ _ (query-Keeps _) λ row. bind-Keeps _ _ (require_some-Keeps _ _) λ c.
        bind-Keeps _ _ (query-Keeps _) λ live. bind-Keeps _ _ (require_some-Keeps _ _) λ r.
          bind-Keeps _ _ (query-Keeps _) λ principal. bind-Keeps _ _ (query-Keeps _) λ owned.
            bind-Keeps _ _ (require_some-Keeps _ _) λ u.
              bind-Keeps _ _ (require-Keeps _ _)
                λ _. bind-Keeps _ _ (exec-Keeps _ λ s h. h) λ _. pure-Keeps _

  start-Keeps :
      (id agent initiator purpose : String) (now : ℕ)
      → Keeps Goes (start_agent_run id agent initiator purpose now)
  unfolding start_agent_run
  start-Keeps id agent initiator purpose now = bind-Keeps _ _ (require-Keeps _ _) λ _.
      bind-Keeps _ _ (query-Keeps _) λ allowed. query_then-Keeps _ _ λ s h.
        require_then-kept Goes _ _ _ s h λ free. exec_then-kept Goes _ _ s (
          (pure-Keeps {P = Goes} (new_run id agent initiator purpose now)).from _ (
            started-Since agent_id before (new_run id agent initiator purpose now) s.agents s.runs
              (ground arith) h))

  finished-Since :
      (agent run : String) (final : RunState) (now : ℕ) (agents : List AgentRow)
      (runs : List AgentRun)
      → Since agent_id before agents runs
      → Since agent_id before agents
          (update_where (is_open_run agent run) (close_run final now) runs)
  finished-Since agent run final now agents runs h =
      updated-Since agent_id before (is_open_run agent run) (close_run final now) agents runs
        (λ r. refl) (λ r over. rw over (ground arith)) h

  close_run-Keeps :
      (agent run state : String) (now : ℕ) → Keeps Goes (finish_agent_run agent run state now)
  unfolding finish_agent_run
  close_run-Keeps agent run state now = bind-Keeps _ _ (require_some-Keeps _ _) λ final.
      bind-Keeps _ _ (query-Keeps _) λ changed.
        bind-Keeps _ _ (exec-Keeps _ λ s h. finished-Since agent run final now s.agents s.runs h)
          λ _.
            bind-Keeps _ _ (query-Keeps _)
              λ exists. bind-Keeps _ _ (require-Keeps _ _) λ _. require-Keeps _ _

  record_event-Keeps :
      (agent run tool notification : String) (now : ℕ)
      → Keeps Goes (record_agent_run_event agent run tool notification now)
  unfolding record_agent_run_event record_event_of add_run_event
  record_event-Keeps agent run tool notification now = branch-Keeps _ _ _ (pure-Keeps _) (
      bind-Keeps _ _ (query-Keeps _) λ row. bind-Keeps _ _ (require_some-Keeps _ _) λ r.
        bind-Keeps _ _ (require-Keeps _ _) λ _. bind-Keeps _ _ (query-Keeps _) λ allowed.
          bind-Keeps _ _ (require-Keeps _ _) λ _. bind-Keeps _ _ (exec-Keeps _ λ s h. h) λ _.
            exec-Keeps _ λ s h.
              updated-Since agent_id before (λ r. r.id == run) (λ r. record r { updated_at = now })
                s.agents s.runs (λ r. refl)
                (λ r over. elim (Bool-cases (r.id == run)) [
                  | inl here ↦ rw here refl
                  | inr there ↦ rw there refl
                ])
                h)

  replay-Keeps :
      (agent key tool fingerprint : String) (now : ℕ) (row : Option Invocation)
      → Keeps Goes (insert_or_replay agent key tool fingerprint now row)
  unfolding insert_or_replay
  replay-Keeps agent key tool fingerprint now none = bind-Keeps _ _ (query-Keeps _) λ known.
      bind-Keeps _ _ (require-Keeps _ _)
        λ _. bind-Keeps _ _ (exec-Keeps _ λ s h. h) λ _. pure-Keeps _
  replay-Keeps agent key tool fingerprint now (some i) =
      bind-Keeps _ _ (require-Keeps _ _) λ _. bind-Keeps _ _ (require-Keeps _ _) λ _. pure-Keeps _

  reserve-Keeps :
      (agent key tool fingerprint : String) (now : ℕ)
      → Keeps Goes (reserve_agent_tool_invocation agent key tool fingerprint now)
  unfolding reserve_agent_tool_invocation
  reserve-Keeps agent key tool fingerprint now =
      bind-Keeps _ _ (exec-Keeps _ λ s h. h)
        λ _. bind-Keeps _ _ (query-Keeps _) λ row. replay-Keeps agent key tool fingerprint now row

  complete-Keeps :
      (agent key result : String) → Keeps Goes (complete_agent_tool_invocation agent key result)
  unfolding complete_agent_tool_invocation
  complete-Keeps agent key result = exec-Keeps _ λ s h. h

  release-Keeps : (agent key : String) → Keeps Goes (release_agent_tool_invocation agent key)
  unfolding release_agent_tool_invocation
  release-Keeps agent key = exec-Keeps _ λ s h. h

  after_call-Goes :
      (platform : Platform) (c : Call) (db : AgentDb) → Goes db → Goes (after_call platform c db)
  unfolding after_call
  after_call-Goes platform (creates ids input) db h = (create-Keeps platform ids input).from db h
  after_call-Goes platform (authenticates_token token now) db h =
      (token-Keeps platform token now).from db h
  after_call-Goes platform (revokes name now) db h = (revoke-Keeps name now).from db h
  after_call-Goes platform (starts id agent initiator purpose now) db h =
      (start-Keeps id agent initiator purpose now).from db h
  after_call-Goes platform (finishes agent run state now) db h =
      (close_run-Keeps agent run state now).from db h
  after_call-Goes platform (records agent run tool notification now) db h =
      (record_event-Keeps agent run tool notification now).from db h
  after_call-Goes platform (reserves agent key tool fingerprint now) db h =
      (reserve-Keeps agent key tool fingerprint now).from db h
  after_call-Goes platform (completes agent key result) db h =
      (complete-Keeps agent key result).from db h
  after_call-Goes platform (releases agent key) db h = (release-Keeps agent key).from db h

  pub after_calls-Goes :
      (platform : Platform) (cs : List Call) (db : AgentDb)
      → Goes db
      → Goes (after_calls platform cs db)
  unfolding after_calls
  after_calls-Goes platform [] db h = h
  after_calls-Goes platform (c ∷ cs) db h =
      after_calls-Goes platform cs (after_call platform c db) (after_call-Goes platform c db h)
