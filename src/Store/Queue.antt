-- ===== src/Store/Queue.antt =====
-- internal/store/agent_queue.go: the queue of commands that humans post for an agent, with a lease for
-- the bridge that runs the current one. An operation reads the clock once, as `now`.
mod History
mod Operations
mod Leases
mod Claiming
mod Growth
mod Order
mod Oldest
mod Tests
use Prim.Native.String.{◌++◌}
use tintwire.Prelude.{
  ℕ, ◌+◌, String, len, Bool, true, false, not, Option, none, some, List, ◌∷◌, ◌&&◌, ◌||◌, ◌==◌,
  string_eq, nat_eq, ltb, leb, if◌then◌else◌, any_row, find_row, select_where, select_least,
  update_where, count_where, str_ltb, trim_space,
}
use tintwire.Store.Op.{
  Op, ok, pure, query, exec, require, require_some, transaction, ◌>>=◌, ◌>>◌, forbidden, not_found,
  invalid_transition, already_exists, invalid_input, no_rows, not_bound, constraint,
}
use tintwire.Store.Tables.{
  Db, User, Agent, Binding, Command, Message, CommandState, queued, running, cancelling,
  interrupted, completed, failed, cancelled,
}
use tintwire.Store.Authority.{is_operator, require_channel_operator, channel_id_by_name}

-- `state IN ('queued','running','cancelling','interrupted')`
abbrev pub is_open : CommandState → Bool
is_open queued = true
is_open running = true
is_open cancelling = true
is_open interrupted = true
is_open _ = false

-- `state IN ('running','cancelling','interrupted')`
abbrev pub is_started : CommandState → Bool
is_started running = true
is_started cancelling = true
is_started interrupted = true
is_started _ = false

-- `state IN ('running','cancelling')`
abbrev pub is_live : CommandState → Bool
is_live running = true
is_live cancelling = true
is_live _ = false

abbrev pub is_queued : CommandState → Bool
is_queued queued = true
is_queued _ = false

abbrev pub is_interrupted : CommandState → Bool
is_interrupted interrupted = true
is_interrupted _ = false

-- `ORDER BY created_at,id`
abbrev pub comes_before : Command → Command → Bool
comes_before a b =
    ltb a.created_at b.created_at || a.created_at == b.created_at && str_ltb a.id b.id

abbrev pub set_commands : (List Command → List Command) → Db → Db
set_commands f db = record db { commands = f db.commands }

abbrev pub find_command : String → Db → Option Command
find_command id db = find_row (λ c. c.id) id db.commands

-- `UPDATE agent_commands SET f WHERE p`, and its `RowsAffected`
unfoldable pub update_commands : (Command → Bool) → (Command → Command) → Op Db ℕ
update_commands p f db = (set_commands (update_where p f) db, ok (count_where p db.commands))

-- `recordQueueControl`; `actor_user_id` references `users`.
unfoldable pub record_queue_control : User → String → String → ℕ → Op Db (Unit {0})
record_queue_control user action detail now = do
  known ← query (λ db. any_row (λ u. u.id == user.id) db.users)
  require known constraint
  exec (λ db. record db {
    audit =
        record { actor_user_id = user.id; action = action; detail = detail; created_at = now }
        ∷ db.audit;
  })

-- `AgentCommand`, a row of `agent_commands` with its author's name and its message's text
pub record AgentCommand : Type 0 where
  pub row : Command
  pub author : String
  pub text : String

abbrev pub joined : Command → Option Message → Option User → Option AgentCommand
joined c none u = none
joined c (some m) none = none
joined c (some m) (some u) = some (record { row = c; author = u.username; text = m.text })

abbrev pub read_command : Db → Option Command → Option AgentCommand
read_command db none = none
read_command db (some c) =
    joined c (find_row (λ m. m.id) c.message_id db.messages)
      (find_row (λ u. u.id) c.author_id db.users)

-- `agentCommand`
unfoldable pub agent_command : String → Op Db AgentCommand
agent_command id = do
  row ← query (λ db. read_command db (find_command id db))
  require_some row no_rows

abbrev pub lease_over : ℕ → Option Command → Bool
lease_over now none = false
lease_over now (some c) = leb c.lease_until now

-- `AgentCommandPending`
unfoldable pub agent_command_pending : Agent → String → ℕ → Op Db Bool
agent_command_pending agent channel now = do
  channel_id ← channel_id_by_name channel
  require_channel_operator agent.user_id channel_id
  bound ←
      query (λ db. any_row (λ b. b.channel_id == channel_id && b.agent_id == agent.id) db.bindings)
  require bound not_bound
  query (λ db. lease_over now (
      select_least comes_before
        (λ c. c.channel_id == channel_id && c.agent_id == agent.id && is_open c.state) db.commands))

abbrev pub agent_named : Db → String → Option Agent
agent_named db name =
    select_where
      (λ a.
        a.name == name
        && any_row (λ u. u.id == a.owner_user_id) db.users
        && any_row (λ u. u.id == a.user_id) db.users)
      db.agents

-- `INSERT INTO agent_bindings … ON CONFLICT(channel_id) DO NOTHING`
abbrev pub insert_binding : String → String → Db → Db
insert_binding channel_id agent_id db =
    if any_row (λ b. b.channel_id == channel_id) db.bindings then db else record db {
      bindings = record { channel_id = channel_id; agent_id = agent_id } ∷ db.bindings;
    }

-- `BindAgent`
unfoldable pub bind_agent : User → String → String → ℕ → Op Db (Unit {0})
unfolding record_queue_control
bind_agent user channel_id agent_name now = do
  require user.is_admin forbidden
  named ← query (λ db. agent_named db (trim_space agent_name))
  a ← require_some named not_found
  require a.enabled forbidden
  require_channel_operator a.user_id channel_id
  transaction (do
    taken ← query (λ db. any_row (λ b. b.channel_id == channel_id) db.bindings)
    exec (insert_binding channel_id a.id)
    row ← query (λ db. select_where (λ b. b.channel_id == channel_id) db.bindings)
    bound ← require_some row no_rows
    require (bound.agent_id == a.id) already_exists
    if taken
        then pure tt
        else record_queue_control user "agent.binding.create" (channel_id ++ (":" ++ a.id)) now)

abbrev pub has_parent : Message → Bool
has_parent m = elim m.parent_id [ none ↦ false | some _ ↦ true ]

-- the conditions of the `SELECT` in `enqueueCommand` on a message and its author
abbrev pub is_deliberate : Db → Message → User → Bool
is_deliberate db m u =
    not (has_parent m)
    && not m.deleted
    && not u.disabled
    && not (any_row (λ a. a.user_id == u.id) db.agents)
    && not (any_row (λ t. t == u.id) db.bot_token_users)
    && (u.is_admin || is_operator db u.id m.channel_id)

abbrev pub new_command : Message → Binding → Command
new_command m b = record {
  id = "cmd_" ++ m.id;
  channel_id = m.channel_id;
  agent_id = b.agent_id;
  message_id = m.id;
  author_id = m.author_user_id;
  state = queued;
  lease_owner = "";
  lease_until = 0;
  turn_id = "";
  result = "";
  cancel_requested = false;
  created_at = m.created_at;
  updated_at = m.created_at;
}

abbrev pub add_command : Option Message → Option Binding → Option User → Db → Db
add_command (some m) (some b) (some u) db =
    if is_deliberate db m u && not (any_row (λ c. c.message_id == m.id) db.commands)
    then record db { commands = new_command m b ∷ db.commands }
    else db
add_command (some m) (some b) none db = db
add_command (some m) none u db = db
add_command none b u db = db

abbrev pub binding_of : Db → Option Message → Option Binding
binding_of db none = none
binding_of db (some m) = select_where (λ b. b.channel_id == m.channel_id) db.bindings

abbrev pub author_of : Db → Option Message → Option User
author_of db none = none
author_of db (some m) = find_row (λ u. u.id) m.author_user_id db.users

-- `enqueueCommand`: `message_id` is unique, and a second command for one message is not inserted.
unfoldable pub enqueue_command : String → Op Db (Unit {0})
enqueue_command message_id = exec (λ db.
    let m = find_row (λ m. m.id) message_id db.messages in
    add_command m (binding_of db m) (author_of db m) db)
