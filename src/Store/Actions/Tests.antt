-- ===== src/Store/Actions/Tests.antt =====
-- A button that is pressed twice.
use tintwire.Prelude.{ℕ, ◌≡◌, refl, true, List, [], ◌∷◌, arith}
use tintwire.Store.Op.{ok, run}
use tintwire.Store.Actions.{ActionExecution, ActionDb, running, reserve_action_execution}
use tintwire.Store.Actions.Once.{told_of, after_reservations, reserve_once}

abbrev press : ActionExecution
press = record {
  key = "k1";
  status = "";
  response_text = "";
  notification_id = "ntf_1";
  action_index = 0;
  user_id = "u1";
}

abbrev db : ActionDb
db = record { executions = []; notification_ids = "ntf_1" ∷ []; user_ids = "u1" ∷ [] }

-- The same button under another key, in between.
abbrev between : List (ActionExecution × ℕ)
between = (record press { key = "k2" }, 1500) ∷ []

reserve_once_example :
    (reserve_action_execution press 2000
      (after_reservations between (reserve_action_execution press 1000 db).0)).1
    ≡ told_of press press
unfolding run reserve_action_execution
reserve_once_example =
    reserve_once press (running press) press 1000 2000 between db refl (omega arith) (omega arith)
      refl

-- Another key is another run of the same action.
other_key :
    (run
      (reserve_action_execution (record press { key = "k2" }) 1500)
      (reserve_action_execution press 1000 db).0).1
    ≡ ok (record (running press) { key = "k2" }, true)
unfolding run reserve_action_execution
other_key = refl
