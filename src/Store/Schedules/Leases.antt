-- ===== src/Store/Schedules/Leases.antt =====
-- internal/store/workflows.go: a leased schedule is its worker's alone.
use tintwire.Prelude.{
  ℕ, String, ◌≡◌, refl, Bool, true, false, not, ◌&&◌, Option, none, some, List, [], ◌∷◌, ◌==◌,
  string_eq, nat_eq, leb, arith, Bool-cases, inl, inr, find_row, update_where, delete_where,
  find_row-update_where,
}
use tintwire.Store.Op.{exec}
use tintwire.Store.Keeps.{Keeps, exec-Keeps, bind-Keeps, query-Keeps, pure-Keeps}
use tintwire.Store.Schedules.{
  Schedule, WorkflowSchedule, claimable, lease_schedule, claim_candidate, claim_candidates,
  claim_schedules, is_leased_as, reschedule, finish_schedule,
}

-- The calls that workers make.
pub data Call : Type 0 where
  claim : (String → String) → ℕ → Call
  finish : WorkflowSchedule → Option ℕ → Call

unfoldable pub after_call : Call → List Schedule → List Schedule
unfolding claim_schedules finish_schedule
after_call (claim new_token now) rows = (claim_schedules new_token now rows).0
after_call (finish v next) rows = (finish_schedule v next rows).0

unfoldable pub after_calls : List Call → List Schedule → List Schedule
unfolding after_call
after_calls [] rows = rows
after_calls (c ∷ cs) rows = after_calls cs (after_call c rows)

-- The calls of other workers during the lease of a row: claims before it has run out, and ends of other
-- schedules or under other tokens.
abbrev pub is_foreign : Schedule → Call → Bool
is_foreign r (claim new_token now) = leb now r.lease_until
is_foreign r (finish v next) = not (is_leased_as v r)

abbrev pub all_foreign : Schedule → List Call → Bool
all_foreign r [] = true
all_foreign r (c ∷ cs) = is_foreign r c && all_foreign r cs

abbrev pub schedule_of : String → List Schedule → Option Schedule
schedule_of id rows = find_row (λ r. r.id) id rows

schedule_of-update_where :
    (p : Schedule → Bool) (f : Schedule → Schedule) (rows : List Schedule) (id : String)
    (r : Schedule)
    → ((s : Schedule) → (f s).id ≡ s.id)
    → schedule_of id rows ≡ some r
    → p r ≡ false
    → schedule_of id (update_where p f rows) ≡ some r
schedule_of-update_where p f rows id r same found apart =
    rw (find_row-update_where (λ s. s.id) p f rows id same, found, apart) refl

schedule_of-delete_where :
    (p : Schedule → Bool) (rows : List Schedule) (id : String) (r : Schedule)
    → schedule_of id rows ≡ some r
    → p r ≡ false
    → schedule_of id (delete_where p rows) ≡ some r
schedule_of-delete_where p [] id r found apart = found
schedule_of-delete_where p (s ∷ rows) id r found apart = elim (Bool-cases (s.id == id)) [
  | inl here ↦
      let one : some s ≡ some r = rw here at found in
      let kept : p s ≡ false = cc (one, apart) in rw (kept, here) one
  | inr there ↦
      let rest = schedule_of-delete_where p rows id r (rw there at found) apart in
      elim (Bool-cases (p s)) [ inl gone ↦ rw gone rest | inr kept ↦ rw (kept, there) rest ]
]

module _ (id : String) (r : Schedule) where
  claim_candidate-Keeps :
      (v : WorkflowSchedule) (now : ℕ)
      → leb now r.lease_until ≡ true
      → Keeps (λ rows. schedule_of id rows ≡ some r) (claim_candidate v now)
  unfolding claim_candidate
  claim_candidate-Keeps v now running = bind-Keeps _ _ (query-Keeps _) λ _.
      bind-Keeps _ _
        (exec-Keeps _ λ rows found.
          schedule_of-update_where (claimable v now) (lease_schedule v now) rows id r (λ s. refl)
            found (ground arith))
        λ _. pure-Keeps _

  claim_candidates-Keeps :
      (new_token : String → String) (now : ℕ) (vs : List WorkflowSchedule)
      → leb now r.lease_until ≡ true
      → Keeps (λ rows. schedule_of id rows ≡ some r) (claim_candidates new_token now vs)
  unfolding claim_candidates
  claim_candidates-Keeps new_token now [] running = pure-Keeps _
  claim_candidates-Keeps new_token now (v ∷ vs) running =
      bind-Keeps _ _ (claim_candidate-Keeps _ now running)
        λ _. bind-Keeps _ _ (claim_candidates-Keeps new_token now vs running) λ _. pure-Keeps _

  claim_schedules-Keeps :
      (new_token : String → String) (now : ℕ)
      → leb now r.lease_until ≡ true
      → Keeps (λ rows. schedule_of id rows ≡ some r) (claim_schedules new_token now)
  unfolding claim_schedules
  claim_schedules-Keeps new_token now running =
      bind-Keeps _ _ (query-Keeps _) λ vs. claim_candidates-Keeps new_token now vs running

  after_call_lem :
      (c : Call) (rows : List Schedule)
      → schedule_of id rows ≡ some r
      → is_foreign r c ≡ true
      → schedule_of id (after_call c rows) ≡ some r
  unfolding after_call finish_schedule exec
  after_call_lem (claim new_token now) rows found foreign =
      (claim_schedules-Keeps new_token now foreign).from rows found
  after_call_lem (finish v none) rows found foreign =
      schedule_of-delete_where (is_leased_as v) rows id r found (ground arith)
  after_call_lem (finish v (some next)) rows found foreign =
      schedule_of-update_where (is_leased_as v) (reschedule next) rows id r (λ s. refl) found
        (ground arith)

-- While the lease of a schedule runs, its row stays as it is through any calls of other workers: claims
-- no later than the end of the lease, and ends of other schedules or with another token.
pub after_calls_keep_lease :
    (cs : List Call) (rows : List Schedule) (id : String) (r : Schedule)
    → schedule_of id rows ≡ some r
    → all_foreign r cs ≡ true
    → schedule_of id (after_calls cs rows) ≡ some r
unfolding after_calls
after_calls_keep_lease [] rows id r found foreign = found
after_calls_keep_lease (c ∷ cs) rows id r found foreign = elim (Bool-cases (is_foreign r c)) [
  | inl one ↦
      after_calls_keep_lease cs (after_call c rows) id r (after_call_lem id r c rows found one)
        (rw one at foreign)
  | inr none_such ↦ cc (rw none_such at foreign)
]
