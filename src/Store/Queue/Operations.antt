-- ===== src/Store/Queue/Operations.antt =====
-- internal/store/agent_queue.go: every operation keeps the history of the queue.
use tintwire.Prelude.{ℕ, String, ◌≡◌, refl, false, Option, none, some, arith, List, [], ◌∷◌}
use tintwire.Store.Keeps.{
  Keeps, keeps_rules, branch-Keeps, query_then-Keeps, require_some_then-Keeps, bind-Keeps,
  query-Keeps, require-Keeps, pure-Keeps,
}
use tintwire.Store.Tables.{Db, User, Agent, CommandState}
use tintwire.Store.Authority.{require_channel_operator, channel_id_by_name}
use tintwire.Store.Queue.{
  is_queued, agent_command, enqueue_command, bind_agent, agent_command_pending,
}
use tintwire.Store.Queue.Claiming.{
  claim_agent_command, claim_transaction, renew_agent_command, complete_agent_command,
  control_agent_command, fetch_claimed, reported_state,
}
use tintwire.Store.Queue.History.{
  Since, IsQueueTable, Since-refl, insert_binding-Since, insert_reply-Since,
  record_queue_control-Since, drop_unauthorized-Since, interrupt_expired-Since, renew_lease-Since,
  finish-Since, control_statement-Since,
}
use tintwire.Store.Queue.Growth.{claim_head-Since, enqueue-Since}

module _ (before : Db) where
  require_channel_operator-Since :
      (user_id channel_id : String)
      → Keeps (Since before) (require_channel_operator user_id channel_id)
  unfolding require_channel_operator
  require_channel_operator-Since user_id channel_id = search keeps_rules

  channel_id_by_name-Since : (name : String) → Keeps (Since before) (channel_id_by_name name)
  unfolding channel_id_by_name
  channel_id_by_name-Since name = search keeps_rules

  agent_command-Since : (id : String) → Keeps (Since before) (agent_command id)
  unfolding agent_command
  agent_command-Since id = search keeps_rules

  claim_transaction-Since :
      (agent : Agent) (channel_id owner : String) (now : ℕ)
      → Keeps (Since before) (claim_transaction agent channel_id owner now)
  unfolding claim_transaction
  claim_transaction-Since agent channel_id owner now = bind-Keeps _ _ (query-Keeps _) λ bound.
      bind-Keeps _ _ (require-Keeps _ _) λ _.
        bind-Keeps _ _ (drop_unauthorized-Since before channel_id now) λ _.
          bind-Keeps _ _ (interrupt_expired-Since before channel_id now) λ _.
            query_then-Keeps _ _ λ db h. claim_head-Since before db channel_id owner now _ refl h

  fetch_claimed-Since : (o : Option String) → Keeps (Since before) (fetch_claimed o)
  fetch_claimed-Since none = pure-Keeps _
  fetch_claimed-Since (some id) = bind-Keeps _ _ (agent_command-Since id) λ c. pure-Keeps _

  ruleset queue_rules = (
    keeps_rules, require_channel_operator-Since, channel_id_by_name-Since, agent_command-Since,
    fetch_claimed-Since, claim_transaction-Since, insert_reply-Since, insert_binding-Since,
    record_queue_control-Since,
  )

  claim-Since :
      (agent : Agent) (channel owner : String) (now : ℕ)
      → Keeps (Since before) (claim_agent_command agent channel owner now)
  unfolding claim_agent_command
  claim-Since agent channel owner now = search queue_rules depth 9

  renew-Since :
      (agent : Agent) (id owner turn_id : String) (now : ℕ)
      → Keeps (Since before) (renew_agent_command agent id owner turn_id now)
  unfolding renew_agent_command
  renew-Since agent id owner turn_id now = search (queue_rules, renew_lease-Since) depth 11

  reported_not_queued :
      (state : String) (final : CommandState)
      → reported_state state ≡ some final
      → is_queued final ≡ false
  reported_not_queued state final e = ground arith

  complete-Since :
      (agent : Agent) (id owner state result : String) (now : ℕ)
      → Keeps (Since before) (complete_agent_command agent id owner state result now)
  unfolding complete_agent_command
  complete-Since agent id owner state result now =
      require_some_then-Keeps (reported_state state) _ _
        λ final e. search (queue_rules, finish-Since, reported_not_queued state final e) depth 11

  bind-Since :
      (user : User) (channel_id agent_name : String) (now : ℕ)
      → Keeps (Since before) (bind_agent user channel_id agent_name now)
  unfolding bind_agent
  bind-Since user channel_id agent_name now = search (queue_rules, branch-Keeps) depth 14

  control-Since :
      (user : User) (id action : String) (now : ℕ)
      → Keeps (Since before) (control_agent_command user id action now)
  unfolding control_agent_command
  control-Since user id action now =
      search (queue_rules, require_some_then-Keeps, control_statement-Since) depth 11

  pending-Since :
      (agent : Agent) (channel : String) (now : ℕ)
      → Keeps (Since before) (agent_command_pending agent channel now)
  unfolding agent_command_pending
  pending-Since agent channel now = search queue_rules depth 9

-- A call of the queue's interface.
pub data Call : Type 0 where
  enqueues : String → Call
  binds : User → String → String → ℕ → Call
  asks : Agent → String → ℕ → Call
  claims : Agent → String → String → ℕ → Call
  renews : Agent → String → String → String → ℕ → Call
  completes : Agent → String → String → String → String → ℕ → Call
  controls : User → String → String → ℕ → Call

-- The database after a call, whether it succeeds or fails.
unfoldable pub after_call : Call → Db → Db
after_call (enqueues message_id) db = (enqueue_command message_id db).0
after_call (binds user channel_id agent_name now) db =
    (bind_agent user channel_id agent_name now db).0
after_call (asks agent channel now) db = (agent_command_pending agent channel now db).0
after_call (claims agent channel owner now) db = (claim_agent_command agent channel owner now db).0
after_call (renews agent id owner turn_id now) db =
    (renew_agent_command agent id owner turn_id now db).0
after_call (completes agent id owner state result now) db =
    (complete_agent_command agent id owner state result now db).0
after_call (controls user id action now) db = (control_agent_command user id action now db).0

unfoldable pub after_calls : List Call → Db → Db
unfolding after_call
after_calls [] db = db
after_calls (c ∷ cs) db = after_calls cs (after_call c db)

after_call-Since : (before db : Db) (c : Call) → Since before db → Since before (after_call c db)
unfolding after_call
after_call-Since before db (enqueues m) h = (enqueue-Since before m).from db h
after_call-Since before db (binds u c a now) h = (bind-Since before u c a now).from db h
after_call-Since before db (asks a c now) h = (pending-Since before a c now).from db h
after_call-Since before db (claims a c o now) h = (claim-Since before a c o now).from db h
after_call-Since before db (renews a i o t now) h = (renew-Since before a i o t now).from db h
after_call-Since before db (completes a i o s r now) h =
    (complete-Since before a i o s r now).from db h
after_call-Since before db (controls u i a now) h = (control-Since before u i a now).from db h

after_calls-from :
    (before db : Db) (cs : List Call) → Since before db → Since before (after_calls cs db)
unfolding after_calls
after_calls-from before db [] h = h
after_calls-from before db (c ∷ cs) h =
    after_calls-from before (after_call c db) cs (after_call-Since before db c h)

-- After any calls of the queue's interface, in any order, by any callers and at any times, successful
-- or not, the ids of the commands are still distinct and made from their messages, and every command
-- that was there is there still: its message, channel, agent and author are the same; if it was
-- completed, failed or cancelled, nothing of it has changed; if it had left the state `queued`, it is
-- not queued again; a turn recorded for it is still the recorded turn; and a request to cancel it stands.
pub after_calls-Since : (db : Db) (cs : List Call) → IsQueueTable db → Since db (after_calls cs db)
after_calls-Since db cs t = after_calls-from db db cs (Since-refl db t)
