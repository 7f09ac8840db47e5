-- ===== src/Store/Slash/Tests.antt =====
-- internal/store/store.go at concrete inputs: a run whose token is used more often than it may be.
use tintwire.Prelude.{◌≤◌, List, [], ◌∷◌}
use tintwire.Store.Slash.{SlashCommandExecution, SlashDb, Call, creates, responds, uses}
use tintwire.Store.Slash.Limit.{uses_granted, five_responses}

abbrev deploy : SlashCommandExecution
deploy = record {
  id = "run_1";
  command_id = "c1";
  channel_id = "ops";
  user_id = "u1";
  text = "/deploy";
  response_token_hash = "t1";
  request_key = "k1";
  expires_at = 10;
}

abbrev db : SlashDb
db = record {
  executions = [];
  responses = [];
  command_ids = "c1" ∷ [];
  channel_ids = "ops" ∷ [];
  user_ids = "u1" ∷ [];
}

abbrev calls : List Call
calls =
    creates deploy
    ∷ uses "t1" 3
    ∷ responds "rsp_1" "run_1" "ephemeral" "done" "{}" 3
    ∷ uses "t1" 4
    ∷ uses "t1" 5
    ∷ uses "t1" 6
    ∷ uses "t1" 7
    ∷ uses "t1" 8
    ∷ []

five_responses_example : uses_granted "t1" calls db ≤ 5
five_responses_example = five_responses "t1" calls db
