-- ===== src/Store/Agents/Tests.antt =====
-- internal/store/agents.go at concrete inputs.
use tintwire.Prelude.{◌≡◌, refl, true, false, none, List, [], ◌∷◌, trim_space}
use tintwire.Store.Op.{query, exec, require_some, transaction, ◌>>=◌}
use tintwire.Store.Login.{Platform}
use tintwire.Store.Agents.{AgentRow, AgentRun, Invocation, run_running, AgentDb, revoke_agent}
use tintwire.Store.Agents.Invocations.{reserve_agent_tool_invocation}
use tintwire.Store.Agents.Invocations.Replay.{replayed, completed_once}
use tintwire.Store.Agents.Calls.{Call, authenticates_token, finishes, releases, after_calls}
use tintwire.Store.Agents.Revocation.Final.{Gone, revoked_for_good}

abbrev platform : Platform
platform = record { sha256 = λ s. s; to_lower = λ s. s; fold = λ s. s }

abbrev bot : AgentRow
bot = record {
  agent = record { id = "a1"; name = "bot"; owner_user_id = "u1"; user_id = "u2"; enabled = true };
  revoked = false;
  oauth_subject = "";
}

abbrev run : AgentRun
run = record {
  id = "r1";
  agent_id = "a1";
  initiator = "";
  purpose = "sweep";
  state = run_running;
  created_at = 1;
  updated_at = 1;
}

abbrev db : AgentDb
db = record {
  users =
      record { id = "u1"; username = "ann"; is_admin = true; disabled = false }
      ∷ record { id = "u2"; username = "agent-bot"; is_admin = false; disabled = false }
      ∷ [];
  agents = bot ∷ [];
  credentials =
      record {
        id = "c1";
        agent_id = "a1";
        token_hash = "twa_1";
        revoked = false;
        last_used_at = none;
      }
      ∷ [];
  runs = run ∷ [];
  run_events = [];
  invocations = [];
  notification_ids = [];
}

abbrev calls : List Call
calls = authenticates_token "twa_1" 7 ∷ finishes "a1" "r1" "completed" 8 ∷ []

revoked_for_good_example :
    Gone platform "bot" db (after_calls platform calls (revoke_agent "bot" 5 db).0)
unfolding revoke_agent trim_space query exec require_some transaction ◌>>=◌
revoked_for_good_example = revoked_for_good platform "bot" 5 db calls refl

abbrev posted : Invocation
posted = record {
  agent_id = "a1";
  key = "k1";
  tool = "post";
  fingerprint = "f1";
  completed = true;
  result = "n1";
  created_at = 1;
}

abbrev posted_db : AgentDb
posted_db = record db { invocations = posted ∷ [] }

abbrev later_calls : List Call
later_calls = releases "a1" "k1" ∷ finishes "a1" "r1" "completed" 8 ∷ []

completed_once_example :
    (reserve_agent_tool_invocation "a1" "k1" "post" "f1" 9
      (after_calls platform later_calls posted_db)).1
    ≡ replayed posted "post" "f1"
completed_once_example =
    completed_once platform "a1" "k1" "post" "f1" 9 posted posted_db later_calls refl refl refl
