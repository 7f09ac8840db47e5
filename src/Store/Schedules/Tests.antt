-- ===== src/Store/Schedules/Tests.antt =====
-- A worker holds a digest's schedule while another one works on a second schedule.
use tintwire.Prelude.{String, ◌≡◌, refl, none, some, [], ◌∷◌}
use tintwire.Store.Op.{ok, run}
use tintwire.Store.Schedules.{Schedule, WorkflowSchedule, claim_schedules, scanned}
use tintwire.Store.Schedules.Leases.{
  claim, finish, after_calls, schedule_of, after_calls_keep_lease,
}

abbrev held : Schedule
held = record {
  id = "sch_1";
  user_id = "u1";
  kind = "digest";
  target = "view_1";
  config = "{}";
  due_at = 100;
  lease_until = 400000;
  lease_token = "lease_a";
}

abbrev waiting : Schedule
waiting = record held {
  id = "sch_2";
  target = "view_2";
  due_at = 90;
  lease_until = 0;
  lease_token = "";
}

abbrev new_token : String → String
new_token id = "lease_b"

abbrev claimed : WorkflowSchedule
claimed = record (scanned waiting) { lease_token = "lease_b" }

claims_waiting : run (claim_schedules new_token 1000) (held ∷ waiting ∷ []) ≡ (
  held ∷ record waiting { lease_until = 301000; lease_token = "lease_b" } ∷ [],
  ok (claimed ∷ []),
)
unfolding run claim_schedules
claims_waiting = refl

after_calls_keep_lease_example :
    schedule_of "sch_1"
      (after_calls (claim new_token 1000 ∷ finish claimed none ∷ []) (held ∷ waiting ∷ []))
    ≡ some held
after_calls_keep_lease_example =
    after_calls_keep_lease (claim new_token 1000 ∷ finish claimed none ∷ []) (held ∷ waiting ∷ [])
      "sch_1" held refl refl
