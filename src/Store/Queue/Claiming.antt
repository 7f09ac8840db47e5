-- ===== src/Store/Queue/Claiming.antt =====
-- internal/store/agent_queue.go: claiming, renewing, completing and controlling commands.
use Prim.Native.String.{◌++◌}
use tintwire.Prelude.{
  ℕ, ◌+◌, String, len, Bool, true, false, not, Option, none, some, ◌∷◌, ◌&&◌, ◌||◌, ◌==◌, string_eq,
  nat_eq, ltb, if◌then◌else◌, any_row, select_least, update_where, count_where, trim_space,
}
use tintwire.Store.Op.{
  Op, pure, query, exec, require, require_some, transaction, ◌>>=◌, ◌>>◌, forbidden,
  invalid_transition, invalid_input, not_bound,
}
use tintwire.Store.Tables.{
  Db, User, Agent, Command, Message, CommandState, queued, running, cancelling, interrupted,
  completed, failed, cancelled,
}
use tintwire.Store.Authority.{is_operator, require_channel_operator, channel_id_by_name}
use tintwire.Store.Queue.{
  AgentCommand, agent_command, comes_before, is_interrupted, is_live, is_open, is_queued,
  is_started, record_queue_control, set_commands, update_commands,
}

-- `EXISTS(SELECT 1 FROM users …)`: the author may still command
abbrev pub author_allowed : Db → Command → Bool
author_allowed db c =
    any_row
      (λ u.
        u.id == c.author_id && not u.disabled && (u.is_admin || is_operator db u.id c.channel_id))
      db.users

-- the first `UPDATE` of a claim: queued commands of authors who lost their permission
abbrev pub drop_unauthorized : String → ℕ → Db → Db
drop_unauthorized channel_id now db =
    set_commands
      (update_where
        (λ c. c.channel_id == channel_id && is_queued c.state && not (author_allowed db c))
        (λ c. record c {
          state = cancelled;
          result = "Author no longer has command permission.";
          updated_at = now;
        }))
      db

-- the second `UPDATE` of a claim: commands whose lease has run out
abbrev pub interrupt_expired : String → ℕ → Db → Db
interrupt_expired channel_id now = set_commands (
    update_where (λ c. c.channel_id == channel_id && is_live c.state && ltb c.lease_until now)
      (λ c. record c { state = interrupted; updated_at = now }))

abbrev pub head_of : String → Db → Option Command
head_of channel_id db =
    select_least comes_before (λ c. c.channel_id == channel_id && is_open c.state) db.commands

-- `if state == "queued" { state = "running" }`
abbrev pub claimed_state : CommandState → CommandState
claimed_state queued = running
claimed_state s = s

abbrev pub lease_ms : ℕ
lease_ms = 60000

abbrev pub take_lease : Command → String → ℕ → Db → Db
take_lease head owner now = set_commands (
    update_where (λ c. c.id == head.id)
      (λ c. record c {
        state = claimed_state head.state;
        lease_owner = owner;
        lease_until = now + lease_ms;
        updated_at = now;
      }))

-- the end of a claim's transaction: the id of the command that was claimed
abbrev pub claim_head : Option Command → String → ℕ → Op Db (Option String)
claim_head none owner now = pure none
claim_head (some head) owner now =
    if ltb now head.lease_until
    then pure none
    else (do exec (take_lease head owner now); pure (some (head.id)))

abbrev pub fetch_claimed : Option String → Op Db (Option AgentCommand)
fetch_claimed none = pure none
fetch_claimed (some id) = do c ← agent_command id; pure (some c)

-- the transaction of `ClaimAgentCommand`
unfoldable pub claim_transaction : Agent → String → String → ℕ → Op Db (Option String)
claim_transaction agent channel_id owner now = do
  bound ←
      query
        (λ db. count_where (λ b. b.channel_id == channel_id && b.agent_id == agent.id) db.bindings)
  require (bound == 1) not_bound
  exec (drop_unauthorized channel_id now)
  exec (interrupt_expired channel_id now)
  head ← query (head_of channel_id)
  claim_head head owner now

-- `ClaimAgentCommand`
unfoldable pub claim_agent_command : Agent → String → String → ℕ → Op Db (Option AgentCommand)
unfolding claim_transaction agent_command
claim_agent_command agent channel owner now = do
  require (not (ltb (len owner) 8 || ltb 128 (len owner))) invalid_input
  channel_id ← channel_id_by_name channel
  require_channel_operator agent.user_id channel_id
  claimed ← transaction (claim_transaction agent channel_id owner now)
  fetch_claimed claimed

-- the `WHERE` of a renewal
abbrev pub renewable : Agent → String → String → String → ℕ → Command → Bool
renewable agent id owner turn_id now c =
    c.id == id
    && c.agent_id == agent.id
    && c.lease_owner == owner
    && ltb now c.lease_until
    && is_started c.state
    && (c.turn_id == "" || turn_id == "" || c.turn_id == turn_id)

abbrev pub renewed : String → ℕ → Command → Command
renewed turn_id now c = record c {
  lease_until = now + lease_ms;
  turn_id = if turn_id == "" then c.turn_id else turn_id;
  updated_at = now;
}

-- the statement of a renewal
unfoldable pub renew_lease : Agent → String → String → String → ℕ → Op Db ℕ
unfolding update_commands
renew_lease agent id owner turn_id now =
    update_commands (renewable agent id owner turn_id now) (renewed turn_id now)

-- `RenewAgentCommand`. The statement is its own transaction, so no row changes if it matches none.
unfoldable pub renew_agent_command : Agent → String → String → String → ℕ → Op Db AgentCommand
unfolding agent_command renew_lease
renew_agent_command agent id owner turn_id now = do
  c ← agent_command id
  require_channel_operator agent.user_id c.row.channel_id
  require_channel_operator c.row.author_id c.row.channel_id
  require (not (ltb 200 (len turn_id))) invalid_input
  n ← renew_lease agent id owner turn_id now
  require (n == 1) forbidden
  agent_command id

-- the states that a bridge may report
abbrev pub reported_state : String → Option CommandState
reported_state state =
    if state == "completed"
    then some completed
    else if state == "failed"
    then some failed
    else if state == "cancelled"
    then some cancelled
    else none

abbrev pub completable : Agent → String → String → ℕ → Command → Bool
completable agent id owner now c =
    c.id == id
    && c.agent_id == agent.id
    && c.lease_owner == owner
    && ltb now c.lease_until
    && is_started c.state

abbrev pub finished : CommandState → String → ℕ → Command → Command
finished state result now c = record c {
  state = state;
  result = result;
  updated_at = now;
  lease_until = 0;
}

-- the statement of a completion
unfoldable pub finish : Agent → String → String → CommandState → String → ℕ → Op Db ℕ
unfolding update_commands
finish agent id owner state result now =
    update_commands (completable agent id owner now) (finished state result now)

abbrev pub reply_text : String → String → String
reply_text state result = if result == "" then "Agent command " ++ (state ++ ".") else result

-- `INSERT INTO channel_messages … ON CONFLICT(id) DO NOTHING`
abbrev pub insert_reply : Message → Db → Db
insert_reply m db =
    if any_row (λ n. n.id == m.id) db.messages then db else record db { messages = m ∷ db.messages }

abbrev pub reply_message : Agent → Command → String → ℕ → Message
reply_message agent c text now = record {
  id = "msg_reply_" ++ c.id;
  channel_id = c.channel_id;
  author_user_id = agent.user_id;
  parent_id = some (c.message_id);
  deleted = false;
  text = text;
  created_at = now;
}

-- `CompleteAgentCommand`
unfoldable pub complete_agent_command : Agent → String → String → String → String → ℕ → Op Db String
unfolding agent_command finish
complete_agent_command agent id owner state raw_result now = do
  final ← require_some (reported_state state) invalid_transition
  let result = trim_space raw_result
  require (not (ltb 4000 (len result))) invalid_input
  c ← agent_command id
  require_channel_operator agent.user_id c.row.channel_id
  transaction (do
    n ← finish agent id owner final result now
    require (n == 1) forbidden
    exec (insert_reply (reply_message agent c.row (reply_text state result) now))
    pure ("msg_reply_" ++ id))

-- `state IN ('queued','running','interrupted')`
abbrev pub is_cancellable : CommandState → Bool
is_cancellable queued = true
is_cancellable running = true
is_cancellable interrupted = true
is_cancellable _ = false

-- `CASE WHEN state='queued' THEN 'cancelled' ELSE 'cancelling' END`
abbrev pub after_cancel : CommandState → CommandState
after_cancel queued = cancelled
after_cancel s = cancelling

pub record Control : Type 0 where
  pub matches : Command → Bool
  pub change : Command → Command

abbrev pub cancel_statement : String → ℕ → Control
cancel_statement id now = record {
  matches = λ c. c.id == id && is_cancellable c.state;
  change =
      λ c. record c { state = after_cancel c.state; cancel_requested = true; updated_at = now };
}

abbrev pub reconcile_statement : String → ℕ → Control
reconcile_statement id now = record {
  matches = λ c. c.id == id && (is_interrupted c.state || is_live c.state && ltb c.lease_until now);
  change = λ c. record c {
    state = cancelled;
    result = "Human verified runtime stopped; command closed without replay.";
    updated_at = now;
  };
}

-- the statement of `ControlAgentCommand` for the requested action
abbrev pub control_statement : String → String → ℕ → Option Control
control_statement id action now =
    if action == "cancel"
    then some (cancel_statement id now)
    else if action == "reconciled"
    then some (reconcile_statement id now)
    else none

-- `ControlAgentCommand`
unfoldable pub control_agent_command : User → String → String → ℕ → Op Db (Unit {0})
unfolding agent_command record_queue_control update_commands
control_agent_command user id action now = do
  c ← agent_command id
  require_channel_operator user.id c.row.channel_id
  transaction (do
    statement ← require_some (control_statement id action now) invalid_transition
    n ← update_commands statement.matches statement.change
    require (n == 1) invalid_transition
    record_queue_control user ("agent.command." ++ action) id now)
