-- ===== src/Store/Schedules.antt =====
-- internal/store/workflows.go: workers claim the schedules that are due under a lease, and finish them.
mod Leases
mod Tests
use tintwire.Prelude.{
  ℕ, ◌+◌, String, Bool, Option, none, some, List, [], ◌∷◌, ◌++◌, map, ◌&&◌, ◌==◌, string_eq, nat_eq,
  ltb, leb, if◌then◌else◌, take, update_where, count_where, delete_where,
}
use tintwire.Store.Op.{Op, pure, query, exec, ◌>>=◌, ◌>>◌}

-- a row of `workflow_schedules`
pub record Schedule : Type 0 where
  pub id : String
  pub user_id : String
  pub kind : String
  pub target : String
  pub config : String
  pub due_at : ℕ
  pub lease_until : ℕ
  pub lease_token : String

pub record WorkflowSchedule : Type 0 where
  pub id : String
  pub user_id : String
  pub kind : String
  pub target : String
  pub config : String
  pub due_at : ℕ
  pub lease_token : String

-- `Scan` of a row: the token of its lease is not read.
abbrev pub scanned : Schedule → WorkflowSchedule
scanned r = record {
  id = r.id;
  user_id = r.user_id;
  kind = r.kind;
  target = r.target;
  config = r.config;
  due_at = r.due_at;
  lease_token = "";
}

abbrev pub is_due : ℕ → Schedule → Bool
is_due now r = leb r.due_at now && ltb r.lease_until now

-- `WHERE due_at<=? AND lease_until<? ORDER BY due_at`
abbrev pub insert_by_due : Schedule → List Schedule → List Schedule
insert_by_due r [] = r ∷ []
insert_by_due r (s ∷ rows) =
    let rest = insert_by_due r rows in if leb r.due_at s.due_at then r ∷ s ∷ rows else s ∷ rest

unfoldable pub due_schedules : ℕ → List Schedule → List Schedule
due_schedules now [] = []
due_schedules now (r ∷ rows) =
    let rest = due_schedules now rows in if is_due now r then insert_by_due r rest else rest

abbrev pub claimable : WorkflowSchedule → ℕ → Schedule → Bool
claimable v now r = r.id == v.id && r.due_at == v.due_at && ltb r.lease_until now

abbrev pub lease_schedule : WorkflowSchedule → ℕ → Schedule → Schedule
lease_schedule v now r = record r { lease_until = now + 300000; lease_token = v.lease_token }

-- one round of the loop over the candidates
unfoldable pub claim_candidate : WorkflowSchedule → ℕ → Op (List Schedule) (List WorkflowSchedule)
claim_candidate v now = do
  count ← query (count_where (claimable v now))
  exec (update_where (claimable v now) (lease_schedule v now))
  pure (if count == 1 then v ∷ [] else [])

unfoldable pub claim_candidates :
    (String → String) → ℕ → List WorkflowSchedule → Op (List Schedule) (List WorkflowSchedule)
unfolding claim_candidate
claim_candidates new_token now [] = pure []
claim_candidates new_token now (v ∷ vs) = do
  first ← claim_candidate (record v { lease_token = new_token (v.id) }) now
  more ← claim_candidates new_token now vs
  pure (first ++ more)

-- `ClaimSchedules`, with the token that `newID` draws for each candidate
unfoldable pub claim_schedules : (String → String) → ℕ → Op (List Schedule) (List WorkflowSchedule)
unfolding claim_candidates due_schedules
claim_schedules new_token now = do
  candidates ← query (λ rows. map scanned (take 50 (due_schedules now rows)))
  claim_candidates new_token now candidates

abbrev pub is_leased_as : WorkflowSchedule → Schedule → Bool
is_leased_as v r = r.id == v.id && r.lease_token == v.lease_token

abbrev pub reschedule : ℕ → Schedule → Schedule
reschedule next r = record r { due_at = next; lease_until = 0; lease_token = "" }

-- `FinishSchedule`, where `none` is the zero time
unfoldable pub finish_schedule : WorkflowSchedule → Option ℕ → Op (List Schedule) (Unit {0})
finish_schedule v none = exec (delete_where (is_leased_as v))
finish_schedule v (some next) = exec (update_where (is_leased_as v) (reschedule next))
