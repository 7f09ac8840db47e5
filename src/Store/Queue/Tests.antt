-- ===== src/Store/Queue/Tests.antt =====
-- A channel with one human, one agent and one message, and the queue's theorems at it.
use mathlib.Core.List.Memᴰ
use tintwire.Prelude.{
  ℕ, String, ◌≡◌, refl, Bool, true, false, Option, none, some, List, [], ◌∷◌, arith, find_row, ◌⊎◌,
}
use tintwire.Store.Op.{run}
use tintwire.Store.Fails.{Fails}
use tintwire.Store.Tables.{
  Db, User, Channel, Membership, Agent, Binding, Command, Message, operator, queued, running,
  completed, cancelling,
}
use tintwire.Store.Authority.{require_channel_operator, channel_id_by_name, operates}
use tintwire.Store.Queue.{find_command, enqueue_command}
use tintwire.Store.Queue.Claiming.{
  claim_agent_command, claim_transaction, renew_agent_command, complete_agent_command,
  control_agent_command,
}
use tintwire.Store.Queue.History.{IsQueueTable, Since}
use tintwire.Store.Queue.Operations.{
  Call, enqueues, claims, renews, completes, controls, after_calls, after_calls-Since,
}
use tintwire.Store.Queue.Leases.{claim_keeps_leases, holder_only}
use tintwire.Store.Queue.Oldest.{Taken, Blocked, claim_takes_oldest}

abbrev human : User
human = record { id = "u1"; username = "ada"; is_admin = true; disabled = false }

abbrev principal : User
principal = record { id = "u2"; username = "bot"; is_admin = false; disabled = false }

abbrev helper : Agent
helper = record { id = "a1"; name = "codex"; owner_user_id = "u1"; user_id = "u2"; enabled = true }

abbrev question : Message
question = record {
  id = "m1";
  channel_id = "c1";
  author_user_id = "u1";
  parent_id = none;
  deleted = false;
  text = "hello";
  created_at = 10;
}

abbrev start : Db
start = record {
  users = human ∷ principal ∷ [];
  channels = record { id = "c1"; name = "ops"; is_public = true } ∷ [];
  memberships = record { user_id = "u2"; channel_id = "c1"; role = operator } ∷ [];
  agents = helper ∷ [];
  bot_token_users = [];
  bindings = record { channel_id = "c1"; agent_id = "a1" } ∷ [];
  commands = [];
  messages = question ∷ [];
  audit = [];
}

start-IsQueueTable : IsQueueTable start
start-IsQueueTable = record {
  keyed = λ r m. absurd (Memᴰ.not-nil m);
  derived = λ r m. absurd (Memᴰ.not-nil m);
}

abbrev asked : Db
asked = after_calls (enqueues "m1" ∷ []) start

abbrev claimed_calls : List Call
claimed_calls = enqueues "m1" ∷ claims helper "ops" "bridge-one" 1000 ∷ []

abbrev claimed : Db
claimed = after_calls claimed_calls start

abbrev claimed_row : Command
claimed_row = record {
  id = "cmd_m1";
  channel_id = "c1";
  agent_id = "a1";
  message_id = "m1";
  author_id = "u1";
  state = running;
  lease_owner = "bridge-one";
  lease_until = 61000;
  turn_id = "";
  result = "";
  cancel_requested = false;
  created_at = 10;
  updated_at = 1000;
}

claimed_has_row : find_command "cmd_m1" claimed ≡ some claimed_row
unfolding after_calls run enqueue_command claim_agent_command require_channel_operator
    channel_id_by_name operates
claimed_has_row = refl

-- A command that is claimed, recorded with a turn, cancelled and completed.
abbrev life : List Call
life =
    enqueues "m1"
    ∷ claims helper "ops" "bridge-one" 1000
    ∷ renews helper "cmd_m1" "bridge-one" "turn-1" 2000
    ∷ controls human "cmd_m1" "cancel" 3000
    ∷ completes helper "cmd_m1" "bridge-one" "cancelled" " done " 4000
    ∷ claims helper "ops" "bridge-two" 5000
    ∷ []

life_ends :
    find_command "cmd_m1" (after_calls life start)
    ≡ some (record claimed_row {
      state = tintwire.Store.Tables.cancelled;
      lease_until = 0;
      turn_id = "turn-1";
      result = "done";
      cancel_requested = true;
      updated_at = 4000;
    })
unfolding after_calls run enqueue_command claim_agent_command renew_agent_command
    control_agent_command complete_agent_command require_channel_operator channel_id_by_name
    operates tintwire.Prelude.trim_space
life_ends = refl

after_calls-Since_example : Since start (after_calls life start)
after_calls-Since_example = after_calls-Since start life start-IsQueueTable

claim_keeps_leases_example :
    find_command "cmd_m1" (claim_agent_command helper "ops" "bridge-two" 2000 claimed).0
    ≡ some claimed_row
claim_keeps_leases_example =
    claim_keeps_leases claimed helper "ops" "bridge-two" 2000 "cmd_m1" claimed_row
      (after_calls-Since start claimed_calls start-IsQueueTable).table claimed_has_row refl
      (omega arith)

claim_takes_oldest_example :
    Taken asked "c1" "bridge-one" 1000
      (claim_transaction helper "c1" "bridge-one" 1000 asked).1
      (claim_transaction helper "c1" "bridge-one" 1000 asked).0
    ⊎ Blocked "c1" 1000
        (claim_transaction helper "c1" "bridge-one" 1000 asked).1
        (claim_transaction helper "c1" "bridge-one" 1000 asked).0
unfolding after_calls run enqueue_command
claim_takes_oldest_example =
    claim_takes_oldest asked helper "c1" "bridge-one" 1000 refl
      (after_calls-Since start (enqueues "m1" ∷ []) start-IsQueueTable).table

holder_only_example :
    Fails claimed (renew_agent_command helper "cmd_m1" "bridge-two" "turn-2" 2000)
    × Fails claimed (complete_agent_command helper "cmd_m1" "bridge-two" "completed" "ok" 2000)
holder_only_example =
    holder_only claimed helper "cmd_m1" "bridge-two" "turn-2" "completed" "ok" 2000 claimed_row
      (after_calls-Since start claimed_calls start-IsQueueTable).table claimed_has_row refl
